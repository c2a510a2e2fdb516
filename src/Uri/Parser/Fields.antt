-- ===== src/Uri/Parser/Fields.antt =====
-- The fields of a query text: what stands between the `&`, each cut at its first `=`.
use http_router.Base.{
  ℕ, ◌≡◌, refl, sym, ap, ◌∙◌, inl, inr, false, Option, none, some, List, [], ◌∷◌, ◌++◌, arith,
  Bytes, ◌==◌, if◌then◌else◌, Free, Bool-cases, ==_iff,
}
use http_router.Uri.Query.Calls.{Call, adds, sets}
use http_router.Uri.Parser.{is_amp, is_separator, look_for}
use http_router.Uri.Parser.Tokens.{query_decoded, Stops}

abbrev pub prepend : ℕ → List Bytes → List Bytes
prepend c [] = (c ∷ []) ∷ []
prepend c (f ∷ fs) = (c ∷ f) ∷ fs

-- The fields of a query text. What ends in `&` has no empty field behind it.
unfoldable pub fields : Bytes → List Bytes
fields [] = []
fields (c ∷ s) = let rest = fields s in if is_amp c then [] ∷ rest else prepend c rest

-- A name, and the value behind the first `=`.
abbrev pub cut_cons : ℕ → Bytes × Option Bytes → Bytes × Option Bytes
cut_cons c (name, value) = (c ∷ name, value)

unfoldable pub cut : Bytes → Bytes × Option Bytes
cut [] = ([], none)
cut (c ∷ s) = let rest = cut_cons c (cut s) in if c == b'=' then ([], some s) else rest

abbrev pub call_of_cut : Bytes × Option Bytes → Call
call_of_cut (name, none) = sets (query_decoded name)
call_of_cut (name, some value) = adds (query_decoded name) (query_decoded value)

abbrev pub call_of : Bytes → Call
call_of field = call_of_cut (cut field)

-- Cutting a field loses nothing.
abbrev pub glue : Bytes × Option Bytes → Bytes
glue (name, none) = name
glue (name, some value) = name ++ (b'=' ∷ value)

abbrev pub IsPart : Bytes × Option Bytes → Type 0
IsPart (name, none) = Free is_separator name
IsPart (name, some value) = Free is_separator name × Free is_amp value

pub glue-cut_cons : (c : ℕ) (p : Bytes × Option Bytes) → glue (cut_cons c p) ≡ c ∷ glue p
glue-cut_cons c (name, none) = refl
glue-cut_cons c (name, some value) = refl

pub glue-cut : (f : Bytes) → glue (cut f) ≡ f
unfolding cut
glue-cut [] = refl
glue-cut (c ∷ f) = elim (Bool-cases (c == b'=')) [
  | inl e ↦ rw e (ap (λ d. d ∷ f) (sym ((==_iff c b'=').0 e)))
  | inr e ↦ rw e (glue-cut_cons c (cut f) ∙ ap (◌∷◌ c) (glue-cut f))
]

pub IsPart-cut_cons :
    (c : ℕ) (p : Bytes × Option Bytes) → is_separator c ≡ false → IsPart p → IsPart (cut_cons c p)
IsPart-cut_cons c (name, none) e h = (e, h)
IsPart-cut_cons c (name, some value) e h = ((e, h.0), h.1)

pub IsPart-cut : (f : Bytes) → Free is_amp f → IsPart (cut f)
unfolding cut
IsPart-cut [] h = tt
IsPart-cut (c ∷ f) h = elim (Bool-cases (c == b'=')) [
  | inl e ↦ rw e (tt, h.1)
  | inr e ↦ rw e (IsPart-cut_cons c (cut f) (rw e h.0) (IsPart-cut f h.1))
]

-- The first field and what is behind it.
pub head_field : Bytes → Bytes
head_field [] = []
head_field (c ∷ s) = if is_amp c then [] else c ∷ head_field s

abbrev pub fields_behind : Bytes → List Bytes
fields_behind [] = []
fields_behind (c ∷ s) = fields s

pub head_field-append : (it : Bytes) → head_field it ++ look_for is_amp it ≡ it
unfolding head_field look_for
head_field-append [] = refl
head_field-append (c ∷ it) = ground (arith, head_field-append it)

pub head_field-Free : (it : Bytes) → Free is_amp (head_field it)
unfolding head_field
head_field-Free [] = tt
head_field-Free (c ∷ it) = ground (arith, head_field-Free it)

pub look_for-Stops : (it : Bytes) → Stops is_amp (look_for is_amp it)
unfolding look_for
look_for-Stops [] = tt
look_for-Stops (c ∷ it) = ground (arith, look_for-Stops it)

pub fields-head_field :
    (c : ℕ) (it : Bytes)
    → fields (c ∷ it) ≡ head_field (c ∷ it) ∷ fields_behind (look_for is_amp (c ∷ it))
unfolding fields head_field look_for
fields-head_field c [] = ground arith
fields-head_field c (d ∷ it) = ground (arith, fields-head_field d it)
