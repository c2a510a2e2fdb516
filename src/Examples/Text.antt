-- ===== src/Examples/Text.antt =====
-- The text of an error, on a system that converts a byte to one wide character and back.
use http_router.Base.{
  ℕ, zero, suc, ◌≤◌, ◌≡◌, refl, some, List, [], ◌∷◌, arith, codes, length, if◌then◌else◌, leb, take,
}
use http_router.UiText.{Convert, Win32, ui_to_utf8}
use http_router.UiText.Converted.{Converts, utf8_of, ui_to_utf8-utf8_of}

-- The first bytes of a text, 1000 at most
abbrev short : List ℕ → List ℕ
short input = take 1000 input

abbrev copy : Convert
copy input size =
    (length (short input), if leb (length (short input)) size then short input else [])

length-take-le : (n : ℕ) (xs : List ℕ) → length (take n xs) ≤ n
length-take-le zero xs = omega arith
length-take-le (suc n) [] = omega arith
length-take-le (suc n) (x ∷ xs) = omega (arith, length-take-le n xs)

copy-Converts : Converts copy short
copy-Converts = record {
  counts = λ input. refl;
  writes = λ input. ground arith;
  is_int = λ input. omega (arith, length-take-le 1000 input);
}

abbrev copying : Win32
copying = record { MultiByteToWideChar = copy; WideCharToMultiByte = copy }

ui_to_utf8-utf8_of_example :
    ui_to_utf8 copying (codes "in use") ≡ some (utf8_of short short (codes "in use"))
ui_to_utf8-utf8_of_example =
    ui_to_utf8-utf8_of copying short short (codes "in use") copy-Converts copy-Converts
      (omega arith)
