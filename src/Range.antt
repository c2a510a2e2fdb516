-- ===== src/Range.antt =====
-- libs/http-router/src/range.cc and include/http-router/range.hh
pub mod Bounds
pub mod Total
pub mod Forms
use mathlib.Core.List.{reverse}
use http_router.Base.{
  ℕ, zero, suc, ◌+◌, ◌-◌, ◌*◌, Bool, true, false, Option, none, some, List, [], ◌∷◌, ◌++◌, Bytes,
  codes, equal, find, length, take, drop, ltb, leb, ◌==◌, if◌then◌else◌, ◌>>=◌, is_digit, isspace,
  sub64, word,
}

-- `range_type`
pub record Range : Type 0 where
  pub start : ℕ
  pub end : ℕ

-- `range_field`
pub data RangeField : Type 0 where
  present absent invalid : RangeField

-- The digits that `std::from_chars` reads, as a number, and what is left behind them.
unfoldable pub from_digits : ℕ → Bytes → ℕ × Bytes
from_digits n [] = (n, [])
from_digits n (c ∷ s) =
    let rest = from_digits (n * 10 + (c - b'0')) s in if is_digit c then rest else (n, c ∷ s)

-- `std::from_chars`, which fails where no digit stands or the number leaves `uint64_t`
unfoldable pub from_chars : Bytes → Option (ℕ × Bytes)
unfolding from_digits is_digit
from_chars [] = none
from_chars (c ∷ s) =
    let read = from_digits 0 (c ∷ s) in
    if is_digit c then (if ltb read.0 word then some read else none) else none

-- `ret.ptr == last_ptr`
abbrev pub whole : ℕ × Bytes → Option ℕ
whole (n, []) = some n
whole (n, c ∷ s) = none

unfoldable pub parse : Bytes → Option ℕ
unfolding from_chars
parse s = do read ← from_chars s; whole read

-- The last two lines of `parse_byte_range`; `none` is `range_field::invalid`, whose range is
-- dropped.
unfoldable pub clamp : ℕ → ℕ → ℕ → Option Range
clamp size start end =
    let last = sub64 size 1 in
    let end' = if ltb last end then last else end in
    if leb start end' then some (record { start = start; end = end' }) else none

-- The branches of `parse_byte_range`, with the `-` at `pos`
unfoldable pub range_at : ℕ → Bytes → ℕ → Option Range
range_at size s pos =
    if pos == 0
    then (do end ← parse (drop (suc pos) s); clamp size (sub64 size end) (sub64 size 1))
    else if pos == length s - 1
    then (do start ← parse (take pos s); clamp size start (sub64 size 1))
    else do start ← parse (take pos s); end ← parse (drop (suc pos) s); clamp size start end

unfoldable pub parse_byte_range : ℕ → Bytes → Option Range
unfolding range_at clamp parse find
parse_byte_range size s = do pos ← find b'-' s; range_at size s pos

-- The second loop of `strip`
unfoldable pub strip_front : Bytes → Bytes
strip_front [] = []
strip_front (c ∷ s) = if isspace c then strip_front s else c ∷ s

-- The first loop works at the back.
unfoldable pub strip : Bytes → Bytes
unfolding strip_front isspace
strip s = strip_front (reverse (strip_front (reverse s)))

-- `if (res != range_field::invalid) result.push_back(range);`
abbrev pub push : List Range → Option Range → List Range
push result none = result
push result (some r) = result ++ (r ∷ [])

-- The loop over the commas; `none` means that the fuel ran out, which it never does
-- (Range/Bounds).
unfoldable pub ranges_loop : ℕ → ℕ → Bytes → List Range → Option (List Range)
ranges_loop zero size header result = none
ranges_loop (suc fuel) size header result = elim (find b',' header) [
  | none ↦ some (push result (parse_byte_range size (strip header)))
  | some pos ↦
      ranges_loop fuel size (strip (drop (suc pos) header))
        (push result (parse_byte_range size (strip (take pos header))))
]

abbrev pub status_of : List Range → RangeField
status_of [] = invalid
status_of (r ∷ rs) = present

unfoldable pub parse_byte_ranges : ℕ → Bytes → Option (RangeField × List Range)
unfolding ranges_loop parse_byte_range strip find
parse_byte_ranges size header = elim (find b'=' header) [
  | none ↦ some (invalid, [])
  | some pos ↦
      if equal (strip (take pos header)) (codes "bytes")
      then (do
        result ← ranges_loop (suc (length header)) size (strip (drop (suc pos) header)) []
        some (status_of result, result))
      else some (invalid, [])
]

-- The overload for a request: `none` is a request with no `Range` field.
unfoldable pub request_ranges : ℕ → Option Bytes → Option (RangeField × List Range)
request_ranges size none = some (absent, [])
request_ranges size (some header) = parse_byte_ranges size header
