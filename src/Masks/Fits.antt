-- ===== src/Masks/Fits.antt =====
-- The paths of a plain mask: the texts between the parameters, and between them values of at least one
-- byte that do not have the byte that ends the parameter.
pub mod Search
use http_router.Base.{
  ℕ, ◌≡◌, refl, sym, ap, ◌∙◌, subst, Bool, true, false, not, ◌&&◌, Option, none, some, List, [],
  ◌∷◌, ◌++◌, arith, Bytes, append_assoc, ◌==◌, ==_iff, if◌then◌else◌, Bool-cases, inl, inr,
  Option-cases, some_of_bind, bind_some,
}
use mathlib.Core.Option.{some-injective}
use http_router.Masks.Pieces.{
  Piece, literal, parameter, prefix_of, stop_of, strip_prefix, is_left, first_some, with_value,
  value_of, fit,
}

unfoldable pub is_free : ℕ → Bytes → Bool
is_free stop [] = true
is_free stop (c ∷ s) = not (stop == c) && is_free stop s

unfoldable pub is_value : ℕ → Bytes → Bool
unfolding is_free
is_value stop [] = false
is_value stop (c ∷ s) = is_free stop (c ∷ s)

-- The path is the pieces with these values, and what may be left behind them.
unfoldable pub Fits : (strict : Bool) → List Piece → Bytes → List Bytes → Type 0
unfolding is_value
Fits strict [] s [] = is_left strict s ≡ true
Fits strict [] s (v ∷ vs) = ⊥
Fits strict (literal t ∷ ps) s vs = (u : Bytes) × (s ≡ t ++ u) × Fits strict ps u vs
Fits strict (parameter name sep partial ∷ ps) s [] = ⊥
Fits strict (parameter name sep partial ∷ ps) s (v ∷ vs) =
    (u : Bytes) × (s ≡ prefix_of sep ++ (v ++ u))
    × (is_value (stop_of sep) v ≡ true)
    × Fits strict ps u vs
