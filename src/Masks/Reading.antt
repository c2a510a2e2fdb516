-- ===== src/Masks/Reading.antt =====
-- How the expression of the pieces is read.
mod Plain
use http_router.Base.{
  ℕ, suc, ◌-◌, ◌≤◌, ◌≡◌, refl, sym, ap, subst, ◌∙◌, Bool, true, false, ◌||◌, some, List, [], ◌∷◌,
  ◌++◌, arith, Bytes, codes, length, length-append, ◌==◌, Bool-cases, inl, inr, isalnum,
}
use http_router.PathCompiler.Escape.{escape, escape_string, is_string}
use http_router.PathCompiler.Key.{KeyName}
use http_router.PathCompiler.Describe.{param_text, capture_of}
use http_router.Regex.Syntax.{
  Re, chr, capture, Parsed, quantified, escape_at, atom_at, joined, behind_atom, alternatives_at,
  sequence_at,
}
use http_router.Masks.Pieces.{
  Separator, bare, slash, Piece, literal, parameter, prefix_of, stop_of, key_of_piece,
}
use http_router.Masks.Running.{bytes_re, value_re, pieces_re}
pub use Plain.{
  Unquantified, add, Unquantified-escape, sequence_at-atom, joined_bytes, sequence_at-escape,
}

-- The expression of the pieces as a text, in front of another one
unfoldable pub pieces_text : List Piece → Bytes → Bytes
pieces_text [] end = end
pieces_text (p ∷ ps) end = elim p [
  | literal s ↦ escape_string s ++ pieces_text ps end
  | parameter name sep partial ↦
      param_text (key_of_piece (parameter name sep partial)) ++ pieces_text ps end
]

-- The groups behind the pieces
abbrev pub groups : ℕ → List Piece → ℕ
groups n [] = n
groups n (literal s ∷ ps) = groups n ps
groups n (parameter name sep partial ∷ ps) = groups (suc n) ps

-- Fuel for pieces
abbrev pub fuel_of : List Piece → ℕ → ℕ
fuel_of [] f = f
fuel_of (literal s ∷ ps) f = add s (fuel_of ps f)
fuel_of (parameter name sep partial ∷ ps) f = add (prefix_of sep) (suc (fuel_of ps f))

-- The group of a parameter
atom_group :
    (fuel n : ℕ) (sep : Separator) (s : Bytes)
    → atom_at
        (alternatives_at (suc (suc (suc (suc (suc (suc (suc (suc fuel)))))))))
        n
        b'('
        (codes "(?:[^" ++ (escape_string (stop_of sep ∷ []) ++ codes "]+?))") ++ s)
      ≡ some (capture (suc n) (value_re (stop_of sep)), suc n, s)
unfolding alternatives_at escape is_string
atom_group fuel n bare s = refl
atom_group fuel n slash s = refl
atom_group fuel n Separator.dot s = refl

unfoldable pub group_behind : Separator → Bytes → Bytes
group_behind sep s = codes "(?:[^" ++ (escape_string (stop_of sep ∷ []) ++ codes "]+?))") ++ s

pub param_text_lem :
    (name : KeyName) (sep : Separator) (partial : Bool) (s : Bytes)
    → param_text (key_of_piece (parameter name sep partial)) ++ s
      ≡ escape_string (prefix_of sep) ++ (b'(' ∷ group_behind sep s)
unfolding param_text capture_of group_behind escape is_string
param_text_lem name bare partial s = refl
param_text_lem name slash partial s = refl
param_text_lem name Separator.dot partial s = refl

pub behind-le : (sep : Separator) (s : Bytes) → length s ≤ length (group_behind sep s)
unfolding group_behind
behind-le sep s = omega (
  arith,
  length-append {0} (codes "(?:[^" ++ (escape_string (stop_of sep ∷ []) ++ codes "]+?))")) s,
)

-- More fuel than a group takes
abbrev pub eight : ℕ → ℕ
eight f = suc (suc (suc (suc (suc (suc (suc (suc f)))))))

Unquantified-group : (s : Bytes) → Unquantified (b'(' ∷ s)
unfolding quantified
Unquantified-group s re = refl

sequence_at-parameter :
    (name : KeyName) (sep : Separator) (partial : Bool) (s : Bytes) (fuel n : ℕ)
    → Unquantified s
    → sequence_at
        (add (prefix_of sep) (suc (eight fuel)))
        n
        (param_text (key_of_piece (parameter name sep partial)) ++ s)
      ≡ joined_bytes
          (prefix_of sep)
          (joined (capture (suc n) (value_re (stop_of sep))) (sequence_at (eight fuel) (suc n) s))
unfolding group_behind
sequence_at-parameter name sep partial s fuel n plain =
    ap (sequence_at (add (prefix_of sep) (suc (eight fuel))) n) (param_text_lem name sep partial s)
    ∙ sequence_at-escape (prefix_of sep) (b'(' ∷ group_behind sep s) (suc (eight fuel)) n
        (Unquantified-group (group_behind sep s))
    ∙ ap (joined_bytes (prefix_of sep)) (
        sequence_at-atom (eight fuel) n b'(' (suc n) (group_behind sep s) s
          (capture (suc n) (value_re (stop_of sep))) refl (atom_group fuel n sep s) plain)

pub Unquantified-pieces :
    (ps : List Piece) (end : Bytes) → Unquantified end → Unquantified (pieces_text ps end)
unfolding pieces_text
Unquantified-pieces [] end h = h
Unquantified-pieces (literal s ∷ ps) end h =
    Unquantified-escape s (pieces_text ps end) (Unquantified-pieces ps end h)
Unquantified-pieces (parameter name sep partial ∷ ps) end h =
    subst Unquantified (sym (param_text_lem name sep partial (pieces_text ps end)))
      (Unquantified-escape (prefix_of sep) _ (Unquantified-group _))

joined_bytes_lem :
    (s : Bytes) (re : Re) (n : ℕ) → joined_bytes s (some (re, n, [])) ≡ some (bytes_re s re, n, [])
joined_bytes_lem [] re n = refl
joined_bytes_lem (c ∷ s) re n = ap (joined (chr c)) (joined_bytes_lem s re n)

-- The fuel is above that of a group.
fuel_of-eight : (ps : List Piece) (f : ℕ) → (g : ℕ) × (fuel_of ps (eight f) ≡ eight g)
fuel_of-eight ps f = (fuel_of ps (eight f) - 8, omega (arith, above ps))
  where
    add-le : (s : Bytes) (k : ℕ) → k ≤ add s k
    add-le [] k = omega arith
    add-le (c ∷ s) k = omega (arith, add-le s k)

    above : (ps : List Piece) → 8 ≤ fuel_of ps (eight f)
    above [] = omega arith
    above (literal s ∷ ps) = omega (arith, above ps, add-le s (fuel_of ps (eight f)))
    above (parameter name sep partial ∷ ps) =
        omega (arith, above ps, add-le (prefix_of sep) (suc (fuel_of ps (eight f))))

-- What is read of a text that ends the expression
abbrev pub IsEndText : Bytes → Re → Type 0
IsEndText end re = Unquantified end × ((f n : ℕ) → sequence_at (eight f) n end ≡ some (re, n, []))

pub sequence_at-pieces :
    (ps : List Piece) (end : Bytes) (re : Re) (f n : ℕ)
    → IsEndText end re
    → sequence_at (fuel_of ps (eight f)) n (pieces_text ps end)
      ≡ some (pieces_re n ps re, groups n ps, [])
unfolding pieces_text pieces_re
sequence_at-pieces [] end re f n h = h.1 f n
sequence_at-pieces (literal s ∷ ps) end re f n h =
    sequence_at-escape s (pieces_text ps end) (fuel_of ps (eight f)) n
      (Unquantified-pieces ps end h.0)
    ∙ ap (joined_bytes s) (sequence_at-pieces ps end re f n h)
    ∙ joined_bytes_lem s (pieces_re n ps re) (groups n ps)
sequence_at-pieces (parameter name sep partial ∷ ps) end re f n h =
    let (g, e) = fuel_of-eight ps f in
    ap
      (λ k.
        sequence_at (add (prefix_of sep) (suc k)) n
          (param_text (key_of_piece (parameter name sep partial)) ++ pieces_text ps end))
      e
    ∙ sequence_at-parameter name sep partial (pieces_text ps end) g n
        (Unquantified-pieces ps end h.0)
    ∙ ap
        (λ k. joined_bytes (prefix_of sep) (
          joined (capture (suc n) (value_re (stop_of sep)))
            (sequence_at k (suc n) (pieces_text ps end))))
        (sym e)
    ∙ ap (λ r. joined_bytes (prefix_of sep) (joined (capture (suc n) (value_re (stop_of sep))) r))
        (sequence_at-pieces ps end re f (suc n) h)
    ∙ joined_bytes_lem (prefix_of sep) _ (groups (suc n) ps)
