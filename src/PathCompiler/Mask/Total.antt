-- ===== src/PathCompiler/Mask/Total.antt =====
-- The search for matches ends: each match takes a byte at least, and the fuel is enough.
use http_router.Base.{
  ℕ, zero, suc, ◌≤◌, ◌<◌, ◌≡◌, refl, subst, ◌⊎◌, Bool, true, false, Option, none, some, [], ◌∷◌,
  ◌++◌, ◌||◌, arith, Bytes, length, ◌==◌, if◌then◌else◌, inl, inr,
}
use http_router.PathCompiler.Mask.{
  is_dot, word_run, inner_run, closed, group_at, or_nothing, modifier_at, Found, named_at,
  grouped_at, body_at, Match, escaped, param, escape_at, as_param, match_at, Scan, push_key, scan,
  flush,
}

word_run-shorter : (s : Bytes) → length (word_run s).1 ≤ length s
unfolding word_run
word_run-shorter [] = omega arith
word_run-shorter (c ∷ s) = ground (arith, word_run-shorter s)

inner_run-shorter : (s : Bytes) → length (inner_run s).1 ≤ length s
unfolding inner_run
inner_run-shorter [] = omega arith
inner_run-shorter (c ∷ []) = ground arith
inner_run-shorter (c ∷ d ∷ s) = ground (arith, inner_run-shorter (d ∷ s), inner_run-shorter s)

-- What is left behind a match, if there is one.
abbrev Shorter {ℓ} : {A : Type ℓ} → ℕ → Option (A × Bytes) → Type 0
Shorter n none = Unit {0}
Shorter n (some (a, rest)) = length rest ≤ n

closed-Shorter : (n : ℕ) (r : Bytes × Bytes) → length r.1 ≤ n → Shorter n (closed r)
closed-Shorter n ([], rest) h = tt
closed-Shorter n (c ∷ run, []) h = tt
closed-Shorter n (c ∷ run, d ∷ rest) h = ground arith

Shorter-if {ℓ} :
    {A : Type ℓ} (n : ℕ) (b : Bool) (x y : Option (A × Bytes))
    → Shorter n x
    → Shorter n y
    → Shorter n (if b then x else y)
Shorter-if n true x y h k = h
Shorter-if n false x y h k = k

Shorter-suc {ℓ} : {A : Type ℓ} (n : ℕ) (x : Option (A × Bytes)) → Shorter n x → Shorter (suc n) x
Shorter-suc n none h = tt
Shorter-suc n (some (a, rest)) h = omega arith

group_at-Shorter_cons : (c : ℕ) (s : Bytes) → Shorter (length s) (group_at (c ∷ s))
unfolding group_at
group_at-Shorter_cons c s =
    Shorter-if (length s) (c == b'(') (closed (inner_run s)) none
      (closed-Shorter (length s) (inner_run s) (inner_run-shorter s)) tt

group_at-Shorter : (s : Bytes) → Shorter (length s) (group_at s)
group_at-Shorter [] = unfold group_at in tt
group_at-Shorter (c ∷ s) = Shorter-suc (length s) (group_at (c ∷ s)) (group_at-Shorter_cons c s)

modifier_at-shorter : (s : Bytes) → length (modifier_at s).1 ≤ length s
unfolding modifier_at
modifier_at-shorter [] = omega arith
modifier_at-shorter (c ∷ s) = ground arith

or_nothing-Shorter :
    (s : Bytes) (o : Option (Bytes × Bytes))
    → Shorter (length s) o
    → length (or_nothing o s).1 ≤ length s
or_nothing-Shorter s none h = omega arith
or_nothing-Shorter s (some (a, rest)) h = h

named_at-Shorter :
    (n : ℕ) (prefix : Bytes) (r : Bytes × Bytes) → length r.1 ≤ n → Shorter n (named_at prefix r)
unfolding named_at
named_at-Shorter n prefix ([], rest) h = tt
named_at-Shorter n prefix (c ∷ name, rest) h = omega (
  arith,
  modifier_at-shorter (or_nothing (group_at rest) rest).1,
  or_nothing-Shorter rest (group_at rest) (group_at-Shorter rest),
)

grouped_at-Shorter :
    (n : ℕ) (prefix : Bytes) (o : Option (Bytes × Bytes))
    → Shorter n o
    → Shorter n (grouped_at prefix o)
unfolding grouped_at
grouped_at-Shorter n prefix none h = tt
grouped_at-Shorter n prefix (some (group, rest)) h = omega (arith, modifier_at-shorter rest)

body_at-Shorter : (prefix : Bytes) (c : ℕ) (s : Bytes) → Shorter (length s) (body_at prefix (c ∷ s))
unfolding body_at
body_at-Shorter prefix c s =
    Shorter-if (length s) (c == b':') _ _
      (named_at-Shorter (length s) prefix (word_run s) (word_run-shorter s))
      (Shorter-if (length s) (c == b'(') _ _
        (grouped_at-Shorter (length s) prefix (group_at (c ∷ s)) (group_at-Shorter_cons c s))
        (Shorter-if (length s) (c == b'*') _ none (omega arith) tt))

body_at-Shorter_le : (prefix s : Bytes) → Shorter (length s) (body_at prefix s)
body_at-Shorter_le prefix [] = unfold body_at in tt
body_at-Shorter_le prefix (c ∷ s) =
    Shorter-suc (length s) (body_at prefix (c ∷ s)) (body_at-Shorter prefix c s)

as_param-Shorter : (n : ℕ) (o : Option (Found × Bytes)) → Shorter n o → Shorter n (as_param o)
as_param-Shorter n none h = tt
as_param-Shorter n (some (f, rest)) h = h

escape_at-Shorter : (s : Bytes) → Shorter (length s) (escape_at s)
unfolding escape_at
escape_at-Shorter [] = tt
escape_at-Shorter (d ∷ s) =
    Shorter-if (suc (length s)) (is_dot d) (some (escaped d, s)) none (omega arith) tt

-- A match takes a byte at least.
pub match_at-Shorter : (c : ℕ) (s : Bytes) → Shorter (length s) (match_at (c ∷ s))
unfolding match_at
match_at-Shorter c s = Shorter-if (length s) (c == b'\\') _ _ (escape_at-Shorter s) (
    Shorter-if (length s) (c == b'/' || c == b'.') _ _
      (as_param-Shorter (length s) (body_at (c ∷ []) s) (body_at-Shorter_le (c ∷ []) s))
      (as_param-Shorter (length s) (body_at [] (c ∷ s)) (body_at-Shorter [] c s)))

match_cases :
    (o : Option (Match × Bytes))
    → (o ≡ none)
      ⊎ (((d : ℕ) × (rest : Bytes) × (o ≡ some (escaped d, rest)))
          ⊎ ((f : Found) × (rest : Bytes) × (o ≡ some (param f, rest))))
match_cases none = inl refl
match_cases (some (escaped d, rest)) = inr (inl (d, rest, refl))
match_cases (some (param f, rest)) = inr (inr (f, rest, refl))

-- What every round keeps holds at the end, and there is an end.
module _ {ℓ} (P : Scan → Type ℓ)
    (literal : (st : Scan) (c : ℕ) → P st → P (record st { path = st.path ++ (c ∷ []) }))
    (pushed : (st : Scan) (f : Found) (rest : Bytes) → P st → P (push_key f rest st)) where
  pub scan_inv :
      (fuel : ℕ) (mask : Bytes) (st : Scan)
      → length mask < fuel
      → P st
      → (last : Scan) × P last × (scan fuel mask st ≡ some (flush last.path last.out))
  unfolding scan
  scan_inv zero mask st h p = absurd (omega arith)
  scan_inv (suc fuel) [] st h p = (st, p, refl)
  scan_inv (suc fuel) (c ∷ mask) st h p = elim (match_cases (match_at (c ∷ mask))) [
    | inl e ↦
        let (last, q, r) =
          scan_inv fuel mask (record st { path = st.path ++ (c ∷ []) }) (omega arith)
            (literal st c p) in
        (last, q, rw (e, scan) r)
    | inr (inl (d, rest, e)) ↦
        let (last, q, r) =
          scan_inv fuel rest (record st { path = st.path ++ (d ∷ []) })
            (omega (arith, subst (Shorter (length mask)) e (match_at-Shorter c mask)))
            (literal st d p) in
        (last, q, rw (e, scan) r)
    | inr (inr (f, rest, e)) ↦
        let (last, q, r) =
          scan_inv fuel rest (push_key f rest st)
            (omega (arith, subst (Shorter (length mask)) e (match_at-Shorter c mask)))
            (pushed st f rest p) in
        (last, q, rw (e, scan) r)
  ]
