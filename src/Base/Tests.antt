-- ===== src/Base/Tests.antt =====
-- Boolean tests on native numbers, the conditional, and splits that keep the equation.
use Prim.Native.Nat.{ℕ, zero, suc, ◌+◌, ◌-◌, ◌%◌, ◌^◌, ◌<◌, ◌≤◌, compare, Ordering}
use mathlib.Core.Path.{◌≡◌, refl, ap}
use mathlib.Core.Logic.{◌↔◌, ◌⊎◌, inl, inr}
use mathlib.Core.Bool.{Bool, true, false, ◌&&◌}
use mathlib.Core.Option.{Option, none, some}
use native.Mathlib.Omega.{arith}

abbrev pub ltb : ℕ → ℕ → Bool
ltb a b = elim (compare a b) [ Ordering.lt ↦ true | _ ↦ false ]

abbrev pub leb : ℕ → ℕ → Bool
leb a b = elim (compare a b) [ Ordering.gt ↦ false | _ ↦ true ]

infix 50 ◌==◌
abbrev pub ◌==◌ : ℕ → ℕ → Bool
a == b = elim (compare a b) [ Ordering.eq ↦ true | _ ↦ false ]

infix 1 if◌then◌else◌
abbrev pub if◌then◌else◌ {ℓ} : {A : Type ℓ} → Bool → A → A → A
if true then x else y = x
if false then x else y = y

pub ==_iff : (a b : ℕ) → ((a == b) ≡ true) ↔ (a ≡ b)
==_iff a b = ground arith

pub Bool-cases : (b : Bool) → (b ≡ true) ⊎ (b ≡ false)
Bool-cases true = inl refl
Bool-cases false = inr refl

pub Option-cases {ℓ} : {A : Type ℓ} (o : Option A) → (o ≡ none) ⊎ ((a : A) × (o ≡ some a))
Option-cases none = inl refl
Option-cases (some a) = inr (a, refl)

-- Chains of steps that may fault.
infixl 5 ◌>>=◌
abbrev pub ◌>>=◌ {ℓ κ} : {A : Type ℓ} {B : Type κ} → Option A → (A → Option B) → Option B
none >>= k = none
some a >>= k = k a

-- `std::size_t` and `std::uint64_t` wrap at 2 ^ 64.
abbrev pub word : ℕ
word = 2 ^ 64

abbrev pub sub64 : ℕ → ℕ → ℕ
sub64 a b = (a + word - b) % word

abbrev pub add64 : ℕ → ℕ → ℕ
add64 a b = (a + b) % word

-- A run of so many numbers, each tried by evaluation
unfoldable pub passes_run : (ℕ → Bool) → ℕ → ℕ → Bool
passes_run test start zero = true
passes_run test start (suc more) = test start && passes_run test (suc start) more

pub passes_run-inside :
    (test : ℕ → Bool) (start count n : ℕ)
    → start ≤ n
    → n < start + count
    → passes_run test start count ≡ true
    → test n ≡ true
unfolding passes_run
passes_run-inside test start zero n low high e = absurd (omega (arith, low, high))
passes_run-inside test start (suc more) n low high e =
    ground (arith, passes_run-inside test (suc start) more n)

pub bind_some {ℓ κ} :
    {A : Type ℓ} {B : Type κ} (o : Option A) (k : A → Option B) (x : A)
    → o ≡ some x
    → (o >>= k) ≡ k x
bind_some o k x e = ap (λ t. t >>= k) e

-- The step that a chain with a result has taken
pub some_of_bind {ℓ κ} :
    {A : Type ℓ} {B : Type κ} (o : Option A) (k : A → Option B) (y : B)
    → (o >>= k) ≡ some y
    → (x : A) × (o ≡ some x) × (k x ≡ some y)
some_of_bind none k y e = cc
some_of_bind (some x) k y e = (x, refl, e)
