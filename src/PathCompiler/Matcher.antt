-- ===== src/PathCompiler/Matcher.antt =====
-- `matcher` of path_compiler.cc. The engine behind `std::regex` is a parameter, with the flags and
-- the calls that the code uses of it; what it finds is a list of submatches, the whole match
-- first, and a submatch that took no part reads as the empty text.
pub mod Params
use http_router.Base.{
  ℕ, zero, suc, Bool, true, false, not, Option, none, some, List, [], ◌∷◌, Bytes, equal, ◌==◌,
  get_or, if◌then◌else◌, ◌>>=◌,
}
use http_router.PathCompiler.Key.{Key, KeyName, index, text, Compile}
use http_router.PathCompiler.Describe.{Description, make_mask}

-- `none` of `compile` is `std::regex_error`, and of `regex_match` that the text does not match; that
-- the match itself may fail for want of time or memory is left out.
pub record Engine : Type 1 where
  pub Regex : Type 0
  pub compile : (icase optimize : Bool) → Bytes → Option Regex
  pub regex_match : Regex → Bytes → Option (List Bytes)

-- `==` on `std::variant<size_t, std::string>`
unfoldable pub same_name : KeyName → KeyName → Bool
same_name (index i) (index j) = i == j
same_name (text s) (text t) = equal s t
same_name _ _ = false

-- `params_type`, a `std::map`: no operation here depends on its order.
abbrev pub Params : Type 0
Params = List (KeyName × Bytes)

-- `params[name] = value`
unfoldable pub put : KeyName → Bytes → Params → Params
put name value [] = (name, value) ∷ []
put name value ((n, v) ∷ params) =
    let more = put name value params in
    if same_name n name then (n, value) ∷ params else (n, v) ∷ more

-- `params.find(name)`
unfoldable pub param : KeyName → Params → Option Bytes
param name [] = none
param name ((n, v) ∷ params) =
    let more = param name params in if same_name n name then some v else more

-- The loop of `matches`; `id` is the number of keys before these.
unfoldable pub fill : List Bytes → ℕ → List Key → Params → Params
unfolding put same_name
fill found id [] params = params
fill found id (k ∷ keys) params =
    fill found (suc id) keys (put k.value (get_or found (suc id) []) params)

module _ (engine : Engine) where
  pub record Matcher : Type 0 where
    pub regex : engine.Regex
    pub keys : List Key

  -- The overloads of `matcher::make` for a description
  unfoldable pub make_description : Description → Compile → Option Matcher
  make_description d options = do
    regex ← engine.compile (not options.sensitive) options.optimize d.route
    some (record { regex = regex; keys = d.keys })

  unfoldable pub make_matcher : Bytes → Compile → Option Matcher
  unfolding make_description make_mask
  make_matcher mask options = do d ← make_mask mask options; make_description d options

  -- Whether the route matches, and `params` behind the call.
  unfoldable pub matches : Matcher → Bytes → Params → Bool × Params
  unfolding fill
  matches m route params = elim (engine.regex_match m.regex route) [
    | none ↦ (false, params)
    | some found ↦ (true, fill found 0 m.keys [])
  ]
