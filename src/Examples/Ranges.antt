-- ===== src/Examples/Ranges.antt =====
-- Ranges of bytes
use http_router.Base.{
  ◌-◌, ◌≡◌, refl, none, some, List, [], ◌∷◌, ◌++◌, arith, codes, if◌then◌else◌, leb, ltb, ◌==◌,
  ◌||◌, min, word, is_digit,
}
use http_router.Range.{
  Range, RangeField, parse, from_chars, from_digits, parse_byte_range, parse_byte_ranges,
}
use http_router.Range.Bounds.{IsAnswer, parse_byte_ranges-IsAnswer}
use http_router.Range.Forms.{parse_byte_range_forms, parse_byte_range_empty}

parse_byte_ranges-IsAnswer_example :
    (answer : RangeField × List Range) × (parse_byte_ranges 10 (codes "bytes=2-3, 8-20")
      ≡ some answer)
    × IsAnswer 10 answer
parse_byte_ranges-IsAnswer_example =
    parse_byte_ranges-IsAnswer 10 (codes "bytes=2-3, 8-20") (omega arith) (omega arith)

two : parse (codes "2") ≡ some 2
unfolding parse from_chars from_digits is_digit
two = refl

five : parse (codes "5") ≡ some 5
unfolding parse from_chars from_digits is_digit
five = refl

parse_byte_range_forms_example :
    (parse_byte_range 10 (codes "2" ++ (b'-' ∷ []))
      ≡ (if leb 2 (10 - 1) then some (record { start = 2; end = 10 - 1 }) else none))
    × (parse_byte_range 10 (codes "2" ++ (b'-' ∷ codes "5")) ≡ (
        if leb 2 (min 5 (10 - 1)) then some (record { start = 2; end = min 5 (10 - 1) }) else none))
    × (parse_byte_range 10 (b'-' ∷ codes "5")
        ≡ (if 5 == 0 || ltb 10 5 then none else some (record { start = 10 - 5; end = 10 - 1 })))
parse_byte_range_forms_example =
    parse_byte_range_forms 10 (codes "2") (codes "5") 2 5 (omega arith) (omega arith) two five

parse_byte_range_empty_example :
    parse_byte_range 0 (codes "5" ++ (b'-' ∷ [])) ≡ some (record { start = 5; end = word - 1 })
parse_byte_range_empty_example = parse_byte_range_empty (codes "5") 5 five
