-- ===== src/Masks/Paths.antt =====
-- Paths made of a mask and values: `matches` of path_compiler.cc gives the values back.
use http_router.Base.{
  ℕ, ◌≡◌, refl, sym, ap, ◌∙◌, subst, Bool, true, false, ◌||◌, some, List, [], ◌∷◌, ◌++◌, map, arith,
  Bytes, ◌==◌, inl, inr,
}
use mathlib.Core.List.{append_cancel_left, head-eq_of_cons-eq, tail-eq_of_cons-eq}
use http_router.PathCompiler.Key.{Compile}
use http_router.PathCompiler.Describe.{ends_with_slash}
use http_router.PathCompiler.Matcher.{Params, Matcher, make_matcher, matches}
use http_router.Regex.{ecma}
use http_router.Masks.Pieces.{
  bare, slash, dot, Piece, literal, parameter, prefix_of, stop_of, key_of_piece, is_left,
}
use http_router.Masks.Fits.{is_free, is_value, Fits}
use http_router.Masks.Written.{written, IsWritten}
use http_router.Masks.Written.Scanned.{parse_matcher-written}
use http_router.Masks.Matching.{HasMatched, IsMatch, matches-IsMatch}

-- The mask with values in place of its parameters
unfoldable pub path_of : List Piece → List Bytes → Bytes
path_of [] vs = []
path_of (literal s ∷ ps) vs = s ++ path_of ps vs
path_of (parameter name sep partial ∷ ps) [] = prefix_of sep ++ path_of ps []
path_of (parameter name sep partial ∷ ps) (v ∷ vs) = prefix_of sep ++ (v ++ path_of ps vs)

-- One value for each parameter
abbrev pub HasValues : List Piece → List Bytes → Type 0
HasValues [] [] = Unit {0}
HasValues [] (v ∷ vs) = ⊥
HasValues (literal s ∷ ps) vs = HasValues ps vs
HasValues (parameter name sep partial ∷ ps) [] = ⊥
HasValues (parameter name sep partial ∷ ps) (v ∷ vs) =
    (is_value (stop_of sep) v ≡ true) × HasValues ps vs

-- Pieces that begin with a byte, or have only a slash left that is the byte
unfoldable pub begins : (strict : Bool) → ℕ → List Piece → Bool
begins strict stop [] = strict || stop == b'/'
begins strict stop (literal [] ∷ ps) = false
begins strict stop (literal (c ∷ s) ∷ ps) = stop == c
begins strict stop (parameter name bare partial ∷ ps) = false
begins strict stop (parameter name slash partial ∷ ps) = stop == b'/'
begins strict stop (parameter name dot partial ∷ ps) = stop == b'.'

-- Each parameter goes up to the byte that ends it.
abbrev pub IsCut : (strict : Bool) → List Piece → Type 0
IsCut strict [] = Unit {0}
IsCut strict (literal s ∷ ps) = IsCut strict ps
IsCut strict (parameter name sep partial ∷ ps) =
    (begins strict (stop_of sep) ps ≡ true) × IsCut strict ps

ends : ℕ → Bytes → Bool
ends stop [] = true
ends stop (c ∷ s) = stop == c

left-ends :
    (strict : Bool) (stop : ℕ) (s : Bytes)
    → (strict || stop == b'/') ≡ true
    → is_left strict s ≡ true
    → ends stop s ≡ true
unfolding ends
left-ends strict stop [] h e = refl
left-ends strict stop (c ∷ []) h e = ground arith
left-ends strict stop (c ∷ d ∷ s) h e = cc

ends-Fits :
    (strict : Bool) (stop : ℕ) (ps : List Piece) (s : Bytes) (vs : List Bytes)
    → begins strict stop ps ≡ true
    → Fits strict ps s vs
    → ends stop s ≡ true
unfolding begins Fits ends
ends-Fits strict stop [] s [] h e = left-ends strict stop s h e
ends-Fits strict stop [] s (v ∷ vs) h e = absurd e
ends-Fits strict stop (literal [] ∷ ps) s vs h e = cc
ends-Fits strict stop (literal (c ∷ t) ∷ ps) s vs h (u, e, fits) = ap (ends stop) e ∙ h
ends-Fits strict stop (parameter name sep partial ∷ ps) s [] h e = absurd e
ends-Fits strict stop (parameter name bare partial ∷ ps) s (v ∷ vs) h e = cc
ends-Fits strict stop (parameter name slash partial ∷ ps) s (v ∷ vs) h (u, e, is, fits) =
    ap (ends stop) e ∙ h
ends-Fits strict stop (parameter name dot partial ∷ ps) s (v ∷ vs) h (u, e, is, fits) =
    ap (ends stop) e ∙ h

free_goes_on :
    (stop c : ℕ) (s : Bytes)
    → is_free stop (c ∷ s) ≡ true
    → ((stop == c) ≡ false) × (is_free stop s ≡ true)
unfolding is_free
free_goes_on stop c s h = ground arith

free_not_ends :
    (stop c d : ℕ) (s : Bytes) → is_free stop (c ∷ s) ≡ true → d ≡ c → (stop == d) ≡ true → ⊥
unfolding is_free
free_not_ends stop c d s h e f = ground arith

-- A text free of the byte, in front of one that ends with it, is cut off in one way.
same_cut :
    (stop : ℕ) (v w u t : Bytes)
    → is_free stop v ≡ true
    → is_free stop w ≡ true
    → ends stop u ≡ true
    → ends stop t ≡ true
    → v ++ u ≡ w ++ t
    → (v ≡ w) × (u ≡ t)
unfolding ends
same_cut stop [] [] u t h k a b e = (refl, e)
same_cut stop [] (c ∷ w) [] t h k a b e = cc
same_cut stop [] (c ∷ w) (d ∷ u) t h k a b e =
    absurd (free_not_ends stop c d w k (head-eq_of_cons-eq e) a)
same_cut stop (c ∷ v) [] u [] h k a b e = cc
same_cut stop (c ∷ v) [] u (d ∷ t) h k a b e =
    absurd (free_not_ends stop c d v h (sym (head-eq_of_cons-eq e)) b)
same_cut stop (c ∷ v) (d ∷ w) u t h k a b e =
    let (x, y) =
      same_cut stop v w u t (free_goes_on stop c v h).1 (free_goes_on stop d w k).1 a b
        (tail-eq_of_cons-eq e) in
    (ap (λ z. z ∷ v) (head-eq_of_cons-eq e) ∙ ap (◌∷◌ d) x, y)

is_free-value : (stop : ℕ) (v : Bytes) → is_value stop v ≡ true → is_free stop v ≡ true
unfolding is_value
is_free-value stop [] h = cc
is_free-value stop (c ∷ v) h = h

-- A path has the values of such a mask in one way.
pub Fits-unique :
    (strict : Bool) (ps : List Piece) (s : Bytes) (vs ws : List Bytes)
    → IsCut strict ps
    → Fits strict ps s vs
    → Fits strict ps s ws
    → vs ≡ ws
unfolding Fits
Fits-unique strict [] s [] [] cut h k = refl
Fits-unique strict [] s [] (w ∷ ws) cut h k = absurd k
Fits-unique strict [] s (v ∷ vs) ws cut h k = absurd h
Fits-unique strict (literal x ∷ ps) s vs ws cut (u, e, h) (t, f, k) =
    Fits-unique strict ps u vs ws cut h
      (subst (λ r. Fits strict ps r ws) (append_cancel_left x t u (sym f ∙ e)) k)
Fits-unique strict (parameter name sep partial ∷ ps) s [] ws cut h k = absurd h
Fits-unique strict (parameter name sep partial ∷ ps) s (v ∷ vs) [] cut h k = absurd k
Fits-unique strict (parameter name sep partial ∷ ps) s (v ∷ vs) (w ∷ ws) (goes, cut) (u, e, i, h)
      (t, f, j, k) =
    let (same, rest) =
      same_cut (stop_of sep) v w u t (is_free-value (stop_of sep) v i)
        (is_free-value (stop_of sep) w j) (ends-Fits strict (stop_of sep) ps u vs goes h)
        (ends-Fits strict (stop_of sep) ps t ws goes k)
        (append_cancel_left (prefix_of sep) (v ++ u) (w ++ t) (sym e ∙ f)) in
    ap (λ x. x ∷ vs) same
    ∙ ap (◌∷◌ w)
        (Fits-unique strict ps u vs ws cut h (subst (λ r. Fits strict ps r ws) (sym rest) k))

-- A path made of values fits.
path_of-Fits :
    (strict : Bool) (ps : List Piece) (vs : List Bytes)
    → HasValues ps vs
    → Fits strict ps (path_of ps vs) vs
unfolding Fits path_of
path_of-Fits strict [] [] h = refl
path_of-Fits strict [] (v ∷ vs) h = h
path_of-Fits strict (literal s ∷ ps) vs h = (path_of ps vs, refl, path_of-Fits strict ps vs h)
path_of-Fits strict (parameter name sep partial ∷ ps) [] h = h
path_of-Fits strict (parameter name sep partial ∷ ps) (v ∷ vs) (i, h) =
    (path_of ps vs, refl, i, path_of-Fits strict ps vs h)

matched-path_of :
    (ps : List Piece) (vs : List Bytes) (options : Compile) (params : Params)
    (outcome : Bool × Params)
    → IsCut options.strict ps
    → HasValues ps vs
    → IsMatch ps options (path_of ps vs) params outcome
    → HasMatched ps vs outcome
matched-path_of ps vs options params outcome cut has (inl (ws, fits, h)) =
    subst (λ xs. HasMatched ps xs outcome)
      (Fits-unique options.strict ps (path_of ps vs) ws vs cut fits
        (path_of-Fits options.strict ps vs has))
      h
matched-path_of ps vs options params outcome cut has (inr (never, e)) =
    absurd (never vs (path_of-Fits options.strict ps vs has))

-- A plain mask that is written out, where each parameter goes up to the byte that ends it and the mask
-- ends in no slash, compiles where case counts and the last parameter does not take the rest; and the
-- path made of the mask and of values, each of at least one byte and free of the byte that ends its
-- parameter, is matched. What is then to be found under a name is the value of the last parameter with
-- that name, and nothing under any other name, whatever the parameters were before.
pub matches-path_of :
    (ps : List Piece) (vs : List Bytes) (options : Compile) (params : Params)
    → IsWritten ps
    → IsCut options.strict ps
    → HasValues ps vs
    → options.take_rest ≡ false
    → options.sensitive ≡ true
    → ends_with_slash (map key_of_piece ps) ≡ false
    → (m : Matcher ecma) × (make_matcher ecma (written ps) options ≡ some m)
      × HasMatched ps vs (matches ecma m (path_of ps vs) params)
matches-path_of ps vs options params w cut has plain case open_end =
    let (m, made, h) =
      matches-IsMatch ps (written ps) options (path_of ps vs) params (parse_matcher-written ps w)
        plain case open_end in
    (
      m,
      made,
      matched-path_of ps vs options params (matches ecma m (path_of ps vs) params) cut has h,
    )
