-- ===== src/Masks/Values.antt =====
-- What `matches` of path_compiler.cc stores for the values of a plain mask.
use http_router.Base.{
  ℕ, zero, suc, ◌≡◌, refl, sym, ap, ◌∙◌, Bool, true, false, Option, none, some, List, [], ◌∷◌, ◌++◌,
  arith, Bytes, length, length-append, append_assoc, get_or, if◌then◌else◌,
}
use http_router.PathCompiler.Key.{KeyName}
use http_router.PathCompiler.Matcher.{same_name, Params, put, param, fill}
use http_router.PathCompiler.Matcher.Params.{param-put}
use http_router.Masks.Pieces.{Piece, literal, parameter}
use http_router.Masks.Compiled.{parameters}
use http_router.Masks.Fits.{Fits}

-- The value of the last parameter with a name
unfoldable pub value_under : KeyName → List Piece → List Bytes → Option Bytes
value_under name [] vs = none
value_under name (literal s ∷ ps) vs = value_under name ps vs
value_under name (parameter n sep partial ∷ ps) [] = none
value_under name (parameter n sep partial ∷ ps) (v ∷ vs) = elim (value_under name ps vs) [
  | some w ↦ some w
  | none ↦ if same_name n name then some v else none
]

abbrev or_before : Option Bytes → Option Bytes → Option Bytes
or_before none before = before
or_before (some v) before = some v

get_or-append :
    (us : List Bytes) (v : Bytes) (vs : List Bytes) (n : ℕ)
    → length us ≡ n
    → get_or (us ++ (v ∷ vs)) n [] ≡ v
get_or-append [] v vs zero e = refl
get_or-append [] v vs (suc n) e = absurd (omega (arith, e))
get_or-append (u ∷ us) v vs zero e = absurd (omega (arith, e))
get_or-append (u ∷ us) v vs (suc n) e = get_or-append us v vs n (omega (arith, e))

stored_step :
    (same : Bool) (o before : Option Bytes) (v : Bytes)
    → or_before o (if same then some v else before)
      ≡ or_before (elim o [ some w ↦ some w | none ↦ if same then some v else none ]) before
stored_step true none before v = refl
stored_step false none before v = refl
stored_step same (some w) before v = refl

param-fill_values :
    (strict : Bool) (ps : List Piece) (s : Bytes) (us vs : List Bytes) (name : KeyName) (id : ℕ)
    (params : Params)
    → Fits strict ps s vs
    → length us ≡ suc id
    → param name (fill (us ++ vs) id (parameters ps) params)
      ≡ or_before (value_under name ps vs) (param name params)
unfolding fill value_under Fits
param-fill_values strict [] s us vs name id params h e = refl
param-fill_values strict (literal t ∷ ps) s us vs name id params (u, cut, h) e =
    param-fill_values strict ps u us vs name id params h e
param-fill_values strict (parameter n sep partial ∷ ps) s us [] name id params h e = absurd h
param-fill_values strict (parameter n sep partial ∷ ps) s us (v ∷ vs) name id params (u, cut, is, h)
      e =
    ap (λ w. param name (fill (us ++ (v ∷ vs)) (suc id) (parameters ps) (put n w params)))
      (get_or-append us v vs (suc id) e)
    ∙ ap (λ ws. param name (fill ws (suc id) (parameters ps) (put n v params)))
        (sym (append_assoc us (v ∷ []) vs))
    ∙ param-fill_values strict ps u (us ++ (v ∷ [])) vs name (suc id) (put n v params) h
        (omega (arith, e, length-append us (v ∷ [])))
    ∙ ap (or_before (value_under name ps vs)) (param-put name n v params)
    ∙ stored_step (same_name n name) (value_under name ps vs) (param name params) v

or_before-none : (o : Option Bytes) → or_before o none ≡ o
or_before-none none = refl
or_before-none (some v) = refl

-- Behind the whole match stand the values.
pub param-values :
    (strict : Bool) (ps : List Piece) (path : Bytes) (vs : List Bytes) (name : KeyName)
    → Fits strict ps path vs
    → param name (fill (path ∷ vs) 0 (parameters ps) []) ≡ value_under name ps vs
unfolding param
param-values strict ps path vs name h =
    param-fill_values strict ps path (path ∷ []) vs name 0 [] h refl
    ∙ or_before-none (value_under name ps vs)
