-- ===== src/Masks/Fits/Search.antt =====
-- The search for the values of a path finds some where there are any.
use http_router.Base.{
  ℕ, ◌≡◌, refl, sym, ap, ◌∙◌, subst, Bool, true, false, Option, none, some, List, [], ◌∷◌, ◌++◌,
  arith, Bytes, append_assoc, ◌==◌, ==_iff, if◌then◌else◌, Bool-cases, inl, inr, Option-cases,
  some_of_bind, bind_some,
}
use mathlib.Core.Option.{some-injective}
use http_router.Masks.Pieces.{
  Piece, literal, parameter, prefix_of, stop_of, strip_prefix, first_some, with_value, value_of,
  fit,
}
use http_router.Masks.Fits.{is_free, is_value, Fits}

strip_prefix-some : (t s u : Bytes) → strip_prefix t s ≡ some u → s ≡ t ++ u
strip_prefix-some [] s u e = cc
strip_prefix-some (x ∷ t) [] u e = cc
strip_prefix-some (x ∷ t) (c ∷ s) u e = elim (Bool-cases (x == c)) [
  | inl same ↦
      ap (λ y. y ∷ s) (sym ((==_iff x c).0 same))
      ∙ ap (◌∷◌ x)
          (strip_prefix-some t s u (sym (ap (λ b. if b then strip_prefix t s else none) same) ∙ e))
  | inr other ↦ ground arith
]

strip_prefix-append : (t u : Bytes) → strip_prefix t (t ++ u) ≡ some u
strip_prefix-append [] u = refl
strip_prefix-append (x ∷ t) u = rw ((==_iff x x).1 refl, strip_prefix-append t u) refl

-- What a value and the rest are, where the search behind `taken` finds some
IsFound : ℕ → (Bytes → Option (List Bytes)) → Bytes → Bytes → List Bytes → Type 0
IsFound stop more taken s [] = ⊥
IsFound stop more taken s (w ∷ ws) =
    (v : Bytes) × (u : Bytes) × (w ≡ taken ++ v)
    × (s ≡ v ++ u)
    × (is_value stop v ≡ true)
    × (more u ≡ some ws)

longer :
    (stop c : ℕ) (more : Bytes → Option (List Bytes)) (taken s : Bytes) (vs : List Bytes)
    → (stop == c) ≡ false
    → IsFound stop more (taken ++ (c ∷ [])) s vs
    → IsFound stop more taken (c ∷ s) vs
unfolding IsFound is_value is_free
longer stop c more taken s [] e h = h
longer stop c more taken s (w ∷ ws) e ([], u, same, split, free, rest) = cc
longer stop c more taken s (w ∷ ws) e (d ∷ v, u, same, split, free, rest) = (
  c ∷ d ∷ v,
  u,
  same ∙ append_assoc taken (c ∷ []) (d ∷ v),
  ap (◌∷◌ c) split,
  rw (e, free) refl,
  rest,
)

value_of-stop :
    (stop c : ℕ) (more : Bytes → Option (List Bytes)) (taken s : Bytes)
    → (stop == c) ≡ true
    → value_of stop more taken (c ∷ s) ≡ none
unfolding value_of
value_of-stop stop c more taken s e = rw e refl

value_of-step :
    (stop c : ℕ) (more : Bytes → Option (List Bytes)) (taken s : Bytes)
    → (stop == c) ≡ false
    → value_of stop more taken (c ∷ s)
      ≡ first_some
          (with_value (taken ++ (c ∷ [])) (more s))
          (value_of stop more (taken ++ (c ∷ [])) s)
unfolding value_of
value_of-step stop c more taken s e = rw e refl

shortest :
    (stop c : ℕ) (more : Bytes → Option (List Bytes)) (taken s : Bytes) (vs ws : List Bytes)
    → (stop == c) ≡ false
    → more s ≡ some ws
    → (taken ++ (c ∷ [])) ∷ ws ≡ vs
    → IsFound stop more taken (c ∷ s) vs
unfolding IsFound is_value is_free
shortest stop c more taken s vs ws e here same =
    subst (IsFound stop more taken (c ∷ s)) same (c ∷ [], s, refl, refl, rw e refl, here)

value_of-IsFound :
    (stop : ℕ) (more : Bytes → Option (List Bytes)) (s taken : Bytes) (vs : List Bytes)
    → value_of stop more taken s ≡ some vs
    → IsFound stop more taken s vs
unfolding value_of
value_of-IsFound stop more [] taken vs e = cc
value_of-IsFound stop more (c ∷ s) taken vs e = elim (Bool-cases (stop == c)) [
  | inl ends ↦ absurd (none-some vs (sym (value_of-stop stop c more taken s ends) ∙ e))
  | inr goes ↦ elim (Option-cases (more s)) [
    | inl missing ↦ longer stop c more taken s vs goes (
        value_of-IsFound stop more s (taken ++ (c ∷ [])) vs
          (later (more s) missing ∙ sym (value_of-step stop c more taken s goes) ∙ e))
    | inr (ws, here) ↦ shortest stop c more taken s vs ws goes here (
        some-injective _ _
          (now (more s) ws here ∙ sym (value_of-step stop c more taken s goes) ∙ e))
  ]
]
  where
    none-some : (ws : List Bytes) → none ≡ some ws → ⊥
    none-some ws f = cc

    later :
        (o : Option (List Bytes))
        → o ≡ none
        → value_of stop more (taken ++ (c ∷ [])) s
          ≡ first_some (with_value (taken ++ (c ∷ [])) o) (value_of stop more (taken ++ (c ∷ [])) s)
    later none f = refl
    later (some ws) f = cc

    now :
        (o : Option (List Bytes)) (ws : List Bytes)
        → o ≡ some ws
        → some ((taken ++ (c ∷ [])) ∷ ws)
          ≡ first_some (with_value (taken ++ (c ∷ [])) o) (value_of stop more (taken ++ (c ∷ [])) s)
    now none ws f = cc
    now (some us) ws f = ap (λ o. with_value (taken ++ (c ∷ [])) o) (sym f)

first_some-none :
    (w : Bytes) (o other : Option (List Bytes))
    → first_some (with_value w o) other ≡ none
    → (o ≡ none) × (other ≡ none)
first_some-none w none other e = (refl, e)
first_some-none w (some vs) other e = cc

value_goes_on :
    (stop c : ℕ) (v : Bytes)
    → is_value stop (c ∷ v) ≡ true
    → ((stop == c) ≡ false) × (is_free stop v ≡ true)
unfolding is_value is_free
value_goes_on stop c v h = ground arith

-- Where the search finds nothing, no value does.
value_of-none :
    (stop : ℕ) (more : Bytes → Option (List Bytes)) (v u taken : Bytes)
    → is_value stop v ≡ true
    → value_of stop more taken (v ++ u) ≡ none
    → more u ≡ none
unfolding is_value
value_of-none stop more [] u taken h e = cc
value_of-none stop more (c ∷ []) u taken h e =
    let (goes, free) = value_goes_on stop c [] h in
    (first_some-none (taken ++ (c ∷ [])) (more u) _
      (sym (value_of-step stop c more taken u goes) ∙ e)).0
value_of-none stop more (c ∷ d ∷ v) u taken h e =
    let (goes, free) = value_goes_on stop c (d ∷ v) h in
    value_of-none stop more (d ∷ v) u (taken ++ (c ∷ [])) free
      (first_some-none (taken ++ (c ∷ [])) (more ((d ∷ v) ++ u)) _
        (sym (value_of-step stop c more taken ((d ∷ v) ++ u) goes) ∙ e)).1

-- The values that are found make the path.
pub fit-Fits :
    (strict : Bool) (ps : List Piece) (s : Bytes) (vs : List Bytes)
    → fit strict ps s ≡ some vs
    → Fits strict ps s vs
unfolding fit Fits IsFound
fit-Fits strict [] s [] e = ground arith
fit-Fits strict [] s (v ∷ vs) e = ground arith
fit-Fits strict (literal t ∷ ps) s vs e =
    let (u, cut, rest) = some_of_bind (strip_prefix t s) (fit strict ps) vs e in
    (u, strip_prefix-some t s u cut, fit-Fits strict ps u vs rest)
fit-Fits strict (parameter name sep partial ∷ ps) s vs e =
    let (u, cut, rest) =
      some_of_bind (strip_prefix (prefix_of sep) s) (value_of (stop_of sep) (fit strict ps) []) vs
        e in
    with_values vs u (strip_prefix-some (prefix_of sep) s u cut)
      (value_of-IsFound (stop_of sep) (fit strict ps) u [] vs rest)
      (λ t ws. fit-Fits strict ps t ws)
  where
    with_values :
        (vs : List Bytes) (u : Bytes)
        → s ≡ prefix_of sep ++ u
        → IsFound (stop_of sep) (fit strict ps) [] u vs
        → ((t : Bytes) (ws : List Bytes) → fit strict ps t ≡ some ws → Fits strict ps t ws)
        → Fits strict (parameter name sep partial ∷ ps) s vs
    with_values [] u cut h fits = h
    with_values (w ∷ ws) u cut (v, t, same, split, is, rest) fits = (
      t,
      cut ∙ ap (◌++◌ (prefix_of sep)) (split ∙ ap (λ x. x ++ t) (sym same)),
      ap (is_value (stop_of sep)) same ∙ is,
      fits t ws rest,
    )

-- A path that some values make is found.
pub fit-none :
    (strict : Bool) (ps : List Piece) (s : Bytes) (vs : List Bytes)
    → fit strict ps s ≡ none
    → Fits strict ps s vs
    → ⊥
unfolding fit Fits
fit-none strict [] s [] e h = ground arith
fit-none strict [] s (v ∷ vs) e h = h
fit-none strict (literal t ∷ ps) s vs e (u, cut, h) =
    fit-none strict ps u vs
      (sym (
          bind_some (strip_prefix t s) (fit strict ps) u
            (ap (strip_prefix t) cut ∙ strip_prefix-append t u))
        ∙ e)
      h
fit-none strict (parameter name sep partial ∷ ps) s [] e h = h
fit-none strict (parameter name sep partial ∷ ps) s (v ∷ vs) e (u, cut, is, h) =
    fit-none strict ps u vs
      (value_of-none (stop_of sep) (fit strict ps) v u [] is (
        sym (
          bind_some (strip_prefix (prefix_of sep) s) (value_of (stop_of sep) (fit strict ps) [])
            (v ++ u)
            (ap (strip_prefix (prefix_of sep)) cut ∙ strip_prefix-append (prefix_of sep) (v ++ u)))
        ∙ e))
      h
