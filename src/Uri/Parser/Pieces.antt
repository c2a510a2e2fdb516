-- ===== src/Uri/Parser/Pieces.antt =====
-- What `query::string` writes, seen as fields.
use http_router.Base.{
  ℕ, ◌≡◌, refl, ap, ◌∙◌, ◌≢◌, Bool, true, false, Option, none, some, List, [], ◌∷◌, ◌++◌, map,
  arith, Bytes, length, length-append, append-nil, append_assoc, ◌==◌, Free, All,
}
use http_router.Uri.Escape.{query_urlencode, urlencode_impl, encode_char}
use http_router.Uri.Escape.RoundTrip.{
  IsByte, ends_token, query_alphabet, urlencode_impl-Free, decoded-urlencode_impl,
}
use http_router.Uri.Query.{
  Param, FlatParam, flat_values, flat_list_of, add_prefix, values_string, string_of,
}
use http_router.Uri.Query.Calls.{Call, adds, sets}
use http_router.Uri.Parser.{is_amp}
use http_router.Uri.Parser.Tokens.{query_decoded}
use http_router.Uri.Parser.Fields.{fields, prepend, cut, call_of, glue}

-- A parameter of the flat list as text, and a list of them with `&` between.
unfoldable pub encoded : FlatParam → Bytes × Option Bytes
encoded (name, none) = (query_urlencode name, none)
encoded (name, some value) = (query_urlencode name, some (query_urlencode value))

abbrev pub piece : FlatParam → Bytes
piece f = glue (encoded f)

unfoldable pub joined : Bool → List FlatParam → Bytes
joined first [] = []
joined first (f ∷ fs) = add_prefix first ++ (piece f ++ joined false fs)

joined_values :
    (name : Bytes) (vs : List Bytes) (fs : List FlatParam)
    → joined false (flat_values name vs ++ fs)
      ≡ values_string false (query_urlencode name ++ (b'=' ∷ [])) vs ++ joined false fs
unfolding values_string flat_values joined encoded
joined_values name [] fs = refl
joined_values name (v ∷ vs) fs = rw (joined_values name vs fs) (simp append_assoc)

pub string_of-joined :
    (first : Bool) (ps : List Param) → string_of first ps ≡ joined first (flat_list_of ps)
unfolding string_of flat_list_of joined encoded
string_of-joined first [] = refl
string_of-joined first ((name, []) ∷ ps) = rw (string_of-joined false ps)
string_of-joined first ((name, v ∷ vs) ∷ ps) = rw (string_of-joined false ps) (
    unfold values_string flat_values in
    rw (joined_values name vs (flat_list_of ps)) (simp append_assoc))

-- The text does not end in an empty field, which would be lost.
abbrev pub EndsWell : List FlatParam → Type 0
EndsWell [] = Unit {0}
EndsWell (f ∷ []) = f ≢ ([], none)
EndsWell (f ∷ g ∷ fs) = EndsWell (g ∷ fs)

abbrev pub IsText : FlatParam → Type 0
IsText (name, none) = All IsByte name
IsText (name, some value) = All IsByte name × All IsByte value

fields_token :
    (tok rest : Bytes) → Free is_amp tok → fields (tok ++ (b'&' ∷ rest)) ≡ tok ∷ fields rest
unfolding fields
fields_token [] rest h = refl
fields_token (c ∷ tok) rest h = rw (h.0, fields_token tok rest h.1)

fields_last : (c : ℕ) (tok : Bytes) → Free is_amp (c ∷ tok) → fields (c ∷ tok) ≡ (c ∷ tok) ∷ []
unfolding fields
fields_last c [] h = rw (h.0)
fields_last c (d ∷ tok) h = rw h.0 (ap (prepend c) (fields_last d tok h.1))

Free-append : (p : ℕ → Bool) (s t : Bytes) → Free p s → Free p t → Free p (s ++ t)
Free-append p [] t h k = k
Free-append p (c ∷ s) t h k = (h.0, Free-append p s t h.1 k)

Free-mono :
    (p q : ℕ → Bool) (s : Bytes) → ((c : ℕ) → q c ≡ false → p c ≡ false) → Free q s → Free p s
Free-mono p q [] f h = tt
Free-mono p q (c ∷ s) f h = (f c h.0, Free-mono p q s f h.1)

pub encoded-Free :
    (p : ℕ → Bool) (s : Bytes)
    → ((c : ℕ) → ends_token c ≡ false → p c ≡ false)
    → All IsByte s
    → Free p (query_urlencode s)
encoded-Free p s f h = Free-mono p ends_token _ f (urlencode_impl-Free query_alphabet s h)

amp_ends : (c : ℕ) → ends_token c ≡ false → is_amp c ≡ false
amp_ends c h = ground arith

piece-Free : (f : FlatParam) → IsText f → Free is_amp (piece f)
unfolding encoded
piece-Free (name, none) h = encoded-Free is_amp name amp_ends h
piece-Free (name, some value) h =
    Free-append is_amp (query_urlencode name) (b'=' ∷ query_urlencode value)
      (encoded-Free is_amp name amp_ends h.0) (refl, encoded-Free is_amp value amp_ends h.1)

encoded_nil : (s : Bytes) → query_urlencode s ≡ [] → s ≡ []
unfolding urlencode_impl encode_char
encoded_nil [] e = refl
encoded_nil (c ∷ s) e = ground arith

piece_nil : (f : FlatParam) → piece f ≡ [] → f ≡ ([], none)
unfolding encoded
piece_nil (name, none) e = ap (λ n. (n, none)) (encoded_nil name e)
piece_nil (name, some value) e = absurd (
    omega (arith, ap length e, length-append (query_urlencode name) (b'=' ∷ query_urlencode value)))

fields_one : (tok : Bytes) → Free is_amp tok → tok ≢ [] → fields tok ≡ tok ∷ []
fields_one [] h ne = absurd (ne refl)
fields_one (c ∷ tok) h ne = fields_last c tok h

pub fields-joined :
    (fs : List FlatParam) → All IsText fs → EndsWell fs → fields (joined true fs) ≡ map piece fs
unfolding joined
fields-joined [] h e = unfold fields in refl
fields-joined (f ∷ []) h e =
    rw (append-nil (piece f)) (fields_one (piece f) (piece-Free f h.0) (λ k. e (piece_nil f k)))
fields-joined (f ∷ g ∷ fs) h e =
    fields_token (piece f) (piece g ++ joined false fs) (piece-Free f h.0)
    ∙ ap (◌∷◌ (piece f)) (fields-joined (g ∷ fs) h.1 e)

-- The calls that a flat list stands for.
abbrev pub flat_call : FlatParam → Call
flat_call (name, none) = sets name
flat_call (name, some value) = adds name value

cut-glue :
    (name : Bytes) (value : Bytes)
    → Free (λ c. c == b'=') name
    → (cut name ≡ (name, none)) × (cut (name ++ (b'=' ∷ value)) ≡ (name, some value))
unfolding cut
cut-glue [] value h = (refl, refl)
cut-glue (c ∷ name) value h =
    let (left, right) = cut-glue name value h.1 in (rw (h.0, left), rw (h.0, right))

eq_ends : (c : ℕ) → ends_token c ≡ false → (c == b'=') ≡ false
eq_ends c h = ground arith

query_decoded-urlencode : (s : Bytes) → All IsByte s → query_decoded (query_urlencode s) ≡ s
query_decoded-urlencode s h = decoded-urlencode_impl query_alphabet s h

call_of-piece : (f : FlatParam) → IsText f → call_of (piece f) ≡ flat_call f
unfolding encoded
call_of-piece (name, none) h = rw (
  (cut-glue (query_urlencode name) [] (encoded-Free (λ c. c == b'=') name eq_ends h)).0,
  query_decoded-urlencode name h,
)
call_of-piece (name, some value) h = rw (
  (cut-glue (query_urlencode name) (query_urlencode value)
      (encoded-Free (λ c. c == b'=') name eq_ends h.0)).1,
  query_decoded-urlencode name h.0,
  query_decoded-urlencode value h.1,
)

pub calls-pieces :
    (fs : List FlatParam) → All IsText fs → map call_of (map piece fs) ≡ map flat_call fs
calls-pieces [] h = refl
calls-pieces (f ∷ fs) h = rw (call_of-piece f h.0) (ap (◌∷◌ (flat_call f)) (calls-pieces fs h.1))
