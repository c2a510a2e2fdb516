-- ===== src/Masks/Reading/Plain.antt =====
-- How plain bytes of an expression are read.
use http_router.Base.{
  ℕ, suc, ◌≡◌, refl, ap, ◌∙◌, true, false, ◌||◌, some, [], ◌∷◌, ◌++◌, arith, Bytes, ◌==◌,
  Bool-cases, inl, inr, isalnum,
}
use http_router.PathCompiler.Escape.{escape, escape_string, is_string}
use http_router.Regex.Syntax.{
  Re, chr, Parsed, quantified, escape_at, atom_at, joined, behind_atom, alternatives_at,
  sequence_at,
}

-- A text that does not begin with a quantifier
abbrev pub Unquantified : Bytes → Type 0
Unquantified s = (re : Re) → quantified re s ≡ (re, s)

-- Fuel for so many bytes more
abbrev pub add : Bytes → ℕ → ℕ
add [] f = f
add (c ∷ s) f = suc (add s f)

-- A byte of a literal
atom_plain :
    (alternatives : ℕ → Bytes → Parsed) (n c : ℕ) (s : Bytes)
    → is_string c ≡ false
    → atom_at alternatives n c s ≡ some (chr c, n, s)
unfolding atom_at is_string
atom_plain alternatives n c s h = ground arith

special-isalnum : (c : ℕ) → is_string c ≡ true → isalnum c ≡ false
unfolding is_string isalnum
special-isalnum c h = ground arith

plain_goes_on : (c : ℕ) → is_string c ≡ false → (c == b')' || c == b'|') ≡ false
unfolding is_string
plain_goes_on c h = ground arith

quantified_plain : (c : ℕ) (s : Bytes) → is_string c ≡ false → Unquantified (c ∷ s)
unfolding quantified is_string
quantified_plain c s h re = ground arith

pub Unquantified-escape : (t s : Bytes) → Unquantified s → Unquantified (escape_string t ++ s)
unfolding escape
Unquantified-escape [] s h = h
Unquantified-escape (c ∷ t) s h = elim (Bool-cases (is_string c)) [
  | inl e ↦ rw e (λ re. unfold quantified in refl)
  | inr e ↦ rw e (quantified_plain c (escape_string t ++ s) e)
]

sequence_step :
    (fuel n c : ℕ) (s : Bytes)
    → (c == b')' || c == b'|') ≡ false
    → sequence_at (suc fuel) n (c ∷ s)
      ≡ behind_atom (sequence_at fuel) (atom_at (alternatives_at fuel) n c s)
unfolding sequence_at
sequence_step fuel n c s h = rw (h, sequence_at) refl

-- One atom without a quantifier, and what is behind it
pub sequence_at-atom :
    (fuel n c m : ℕ) (s t : Bytes) (re : Re)
    → (c == b')' || c == b'|') ≡ false
    → atom_at (alternatives_at fuel) n c s ≡ some (re, m, t)
    → Unquantified t
    → sequence_at (suc fuel) n (c ∷ s) ≡ joined re (sequence_at fuel m t)
sequence_at-atom fuel n c m s t re h e plain =
    sequence_step fuel n c s h
    ∙ ap (behind_atom (sequence_at fuel)) e
    ∙ ap (λ q. joined q.0 (sequence_at fuel m q.1)) (plain re)

escaped_atom :
    (alternatives : ℕ → Bytes → Parsed) (n c : ℕ) (s : Bytes)
    → isalnum c ≡ false
    → atom_at alternatives n b'\\' (c ∷ s) ≡ some (chr c, n, s)
unfolding atom_at escape_at
escaped_atom alternatives n c s h = rw h refl

abbrev pub joined_bytes : Bytes → Parsed → Parsed
joined_bytes [] parsed = parsed
joined_bytes (c ∷ s) parsed = joined (chr c) (joined_bytes s parsed)

pub sequence_at-escape :
    (t s : Bytes) (fuel n : ℕ)
    → Unquantified s
    → sequence_at (add t fuel) n (escape_string t ++ s) ≡ joined_bytes t (sequence_at fuel n s)
unfolding escape
sequence_at-escape [] s fuel n plain = refl
sequence_at-escape (c ∷ t) s fuel n plain = elim (Bool-cases (is_string c)) [
  | inl e ↦ rw e (
      sequence_at-atom (add t fuel) n b'\\' n (c ∷ (escape_string t ++ s)) (escape_string t ++ s)
        (chr c) refl (escaped_atom _ n c (escape_string t ++ s) (special-isalnum c e))
        (Unquantified-escape t s plain)
      ∙ ap (joined (chr c)) (sequence_at-escape t s fuel n plain))
  | inr e ↦ rw e (
      sequence_at-atom (add t fuel) n c n (escape_string t ++ s) (escape_string t ++ s) (chr c)
        (plain_goes_on c e) (atom_plain _ n c (escape_string t ++ s) e)
        (Unquantified-escape t s plain)
      ∙ ap (joined (chr c)) (sequence_at-escape t s fuel n plain))
]
