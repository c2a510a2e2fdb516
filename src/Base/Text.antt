-- ===== src/Base/Text.antt =====
-- Texts as lists of bytes, and what the code uses of `std::string_view`.
use Prim.Native.Nat.{ℕ, suc}
use Prim.Native.Char.{code}
use Prim.Native.String.{String}
use mathlib.Core.Path.{◌≡◌, refl}
use mathlib.Core.Logic.{◌↔◌}
use mathlib.Core.Bool.{Bool, true, false, ◌&&◌, ◌||◌}
use mathlib.Core.List.{List, [], ◌∷◌}
use mathlib.Core.Option.{Option, none, some}
use native.Mathlib.Omega.{arith}
use http_router.Base.Tests.{◌==◌, leb, if◌then◌else◌}

abbrev pub Bytes : Type 0
Bytes = List ℕ

-- The bytes of an ASCII literal.
abbrev pub codes : String → Bytes
codes String.[] = []
codes (String.◌∷◌ c s) = code c ∷ codes s

-- `==` on strings
unfoldable pub equal : Bytes → Bytes → Bool
equal [] [] = true
equal (a ∷ s) (b ∷ t) = a == b && equal s t
equal _ _ = false

pub equal_iff : (s t : Bytes) → (equal s t ≡ true) ↔ (s ≡ t)
unfolding equal
equal_iff [] [] = ground arith
equal_iff [] (b ∷ t) = ground arith
equal_iff (a ∷ s) [] = ground arith
equal_iff (a ∷ s) (b ∷ t) = ground (arith, equal_iff s t)

pub equal_self : (s : Bytes) → equal s s ≡ true
equal_self s = (equal_iff s s).1 refl

-- `find(ch)`: the first place of a byte; `none` is `npos`.
unfoldable pub find : ℕ → Bytes → Option ℕ
find ch [] = none
find ch (c ∷ s) =
    if c == ch then some 0 else (elim (find ch s) [ none ↦ none | some i ↦ some (suc i) ])

-- `starts_with`
unfoldable pub starts_with : Bytes → Bytes → Bool
starts_with [] s = true
starts_with (p ∷ ps) [] = false
starts_with (p ∷ ps) (c ∷ s) = p == c && starts_with ps s

-- `ends_with`: some end of the text is the suffix.
unfoldable pub ends_with : Bytes → Bytes → Bool
unfolding equal
ends_with suffix [] = equal [] suffix
ends_with suffix (c ∷ s) = equal (c ∷ s) suffix || ends_with suffix s

-- `find(text) != npos`
unfoldable pub contains : Bytes → Bytes → Bool
unfolding starts_with
contains text [] = starts_with text []
contains text (c ∷ s) = starts_with text (c ∷ s) || contains text s

-- `isalnum`, `isdigit`, `isxdigit` and `isspace` of the C locale, on bytes
unfoldable pub is_digit : ℕ → Bool
is_digit c = leb b'0' c && leb c b'9'

unfoldable pub isalnum : ℕ → Bool
unfolding is_digit
isalnum c = is_digit c || (leb b'a' c && leb c b'z') || (leb b'A' c && leb c b'Z')

unfoldable pub isxdigit : ℕ → Bool
unfolding is_digit
isxdigit c = is_digit c || (leb b'a' c && leb c b'f') || (leb b'A' c && leb c b'F')

unfoldable pub isspace : ℕ → Bool
isspace c = c == 32 || (leb 9 c && leb c 13)

-- No byte of the text passes the test.
abbrev pub Free : (ℕ → Bool) → Bytes → Type 0
Free p [] = Unit {0}
Free p (c ∷ s) = (p c ≡ false) × Free p s
