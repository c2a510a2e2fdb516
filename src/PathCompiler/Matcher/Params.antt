-- ===== src/PathCompiler/Matcher/Params.antt =====
-- What `matches` stores under each name.
use http_router.Base.{
  ℕ, zero, suc, ◌+◌, ◌>>=◌, ◌≡◌, refl, sym, ap, ◌∙◌, Bool, true, false, Option, none, some, List,
  [], ◌∷◌, arith, Bytes, equal_iff, get_or, if◌then◌else◌, Bool-cases, Option-cases, inl, inr, ◌↔◌,
}
use http_router.PathCompiler.Key.{Key, KeyName, index, text}
use http_router.PathCompiler.Matcher.{Engine, same_name, Params, put, param, fill, Matcher, matches}

pub same_name_iff : (m n : KeyName) → (same_name m n ≡ true) ↔ (m ≡ n)
unfolding same_name
same_name_iff (index i) (index j) = ground arith
same_name_iff (text s) (text t) = ground (arith, equal_iff s t)
same_name_iff (index i) (text t) = ground arith
same_name_iff (text s) (index j) = ground arith

pub param-put :
    (m n : KeyName) (v : Bytes) (params : Params)
    → param m (put n v params) ≡ (if same_name n m then some v else param m params)
unfolding param put
param-put m n v [] = ground arith
param-put m n v ((k, w) ∷ params) =
    ground (arith, same_name_iff k n, same_name_iff k m, same_name_iff n m, param-put m n v params)

-- The place of the last key with a name
unfoldable pub last_place : KeyName → List Key → Option ℕ
last_place m [] = none
last_place m (k ∷ keys) = elim (last_place m keys) [
  | some i ↦ some (suc i)
  | none ↦ if same_name k.value m then some 0 else none
]

-- What is to be found under a name, where `id` groups and `params` came before.
abbrev pub expected : List Bytes → ℕ → Option ℕ → Option Bytes → Option Bytes
expected found id none before = before
expected found id (some i) before = some (get_or found (suc (id + i)) [])

last_place-cons :
    (m : KeyName) (k : Key) (keys : List Key) (o : Option ℕ)
    → last_place m keys ≡ o
    → last_place m (k ∷ keys)
      ≡ elim o [ some i ↦ some (suc i) | none ↦ if same_name k.value m then some 0 else none ]
unfolding last_place
last_place-cons m k keys o e = rw (sym e) refl

shifted :
    (found : List Bytes) (id i : ℕ) (before other : Option Bytes)
    → expected found (suc id) (some i) before ≡ expected found id (some (suc i)) other
shifted found id i before other = ap (λ j. some (get_or found j [])) (omega arith)

param-fill :
    (found : List Bytes) (m : KeyName) (id : ℕ) (keys : List Key) (params : Params)
    → param m (fill found id keys params) ≡ expected found id (last_place m keys) (param m params)
unfolding fill
param-fill found m id [] params = unfold last_place in refl
param-fill found m id (k ∷ keys) params =
    param-fill found m (suc id) keys (put k.value (get_or found (suc id) []) params)
    ∙ elim (Option-cases (last_place m keys)) [
      | inr (i, e) ↦ rw (e, last_place-cons m k keys (some i) e) (shifted found id i none none)
      | inl e ↦
          rw (e, last_place-cons m k keys none e)
            (param-put m k.value (get_or found (suc id) []) params
              ∙ elim (Bool-cases (same_name k.value m)) [
                | inl same ↦ rw same (ap (λ j. some (get_or found j [])) (omega arith))
                | inr other ↦ rw other refl
              ])
    ]

-- `match[i]`: a submatch that the expression has none of, or that took no part, reads as the empty text.
unfoldable pub submatch_at : List Bytes → ℕ → Bytes
submatch_at [] i = []
submatch_at (s ∷ found) zero = s
submatch_at (s ∷ found) (suc i) = submatch_at found i

get_or-submatch_at : (found : List Bytes) (i : ℕ) → get_or found i [] ≡ submatch_at found i
unfolding submatch_at
get_or-submatch_at [] i = refl
get_or-submatch_at (s ∷ found) zero = refl
get_or-submatch_at (s ∷ found) (suc i) = get_or-submatch_at found i

expected-stored :
    (found : List Bytes) (place : Option ℕ)
    → expected found 0 place none ≡ place >>= (λ i. some (submatch_at found (suc i)))
expected-stored found none = refl
expected-stored found (some i) =
    ap (λ j. some (get_or found (suc j) [])) (omega arith)
    ∙ ap some (get_or-submatch_at found (suc i))

-- What is to be found under a name behind `matches`.
abbrev pub stored : Params → KeyName → List Key → Option (List Bytes) → Bool × Option Bytes
stored params name keys none = (false, param name params)
stored params name keys (some found) =
    (true, last_place name keys >>= (λ i. some (submatch_at found (suc i))))

-- For every engine: where the engine finds no match, `matches` says so and the parameters stay as they
-- were. Where it does, the text stored under a name is the submatch of the last key with that name,
-- the first key having the first submatch behind the whole match, and so on; a submatch that is not
-- there reads as the empty text. Under any other name nothing is stored; what `params` held before
-- is gone.
pub matches-param :
    (engine : Engine) (m : Matcher engine) (route : Bytes) (params : Params) (name : KeyName)
    → ((matches engine m route params).0, param name (matches engine m route params).1)
      ≡ stored params name m.keys (engine.regex_match m.regex route)
unfolding matches param
matches-param engine m route params name = elim (Option-cases (engine.regex_match m.regex route)) [
  | inl e ↦ rw (e, matches) refl
  | inr (found, e) ↦
      rw (e, matches)
        (ap (λ o. (true, o))
          (param-fill found name 0 m.keys [] ∙ expected-stored found (last_place name m.keys)))
]
