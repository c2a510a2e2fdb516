-- ===== src/Range/Total.antt =====
-- That the parser of byte ranges ends, whatever the size of the file.
use http_router.Base.{
  ℕ, zero, suc, ◌<◌, ◌≡◌, refl, Option, none, some, List, [], ◌∷◌, arith, Bytes, codes, equal, find,
  length, take, drop, Option-cases, Bool-cases, inl, inr,
}
use http_router.Range.{
  Range, RangeField, present, absent, invalid, parse_byte_range, strip, push, ranges_loop,
  status_of, parse_byte_ranges, request_ranges,
}
use http_router.Range.Bounds.{length-strip, length-drop, find-lt-length}

ranges_loop-total :
    (size fuel : ℕ) (header : Bytes) (rs : List Range)
    → length header < fuel
    → (out : List Range) × (ranges_loop fuel size header rs ≡ some out)
unfolding ranges_loop
ranges_loop-total size zero header rs h = absurd (omega arith)
ranges_loop-total size (suc fuel) header rs h = elim (Option-cases (find b',' header)) [
  | inl e ↦ (push rs (parse_byte_range size (strip header)), rw (e, ranges_loop) refl)
  | inr (pos, e) ↦
      rw (e, ranges_loop)
        (ranges_loop-total size fuel (strip (drop (suc pos) header)) _ (
          omega (
            arith,
            length-strip (drop (suc pos) header),
            length-drop (suc pos) header,
            find-lt-length b',' header pos e,
          )))
]

-- An answer that can be made use of: ranges are reported with at least one.
abbrev pub IsUsable : RangeField × List Range → Type 0
IsUsable (present, []) = ⊥
IsUsable _ = Unit {0}

status_of-IsUsable : (rs : List Range) → IsUsable (status_of rs, rs)
status_of-IsUsable [] = tt
status_of-IsUsable (r ∷ rs) = tt

parse_byte_ranges-IsUsable :
    (size : ℕ) (header : Bytes)
    → (answer : RangeField × List Range) × (parse_byte_ranges size header ≡ some answer)
      × IsUsable answer
unfolding parse_byte_ranges
parse_byte_ranges-IsUsable size header = elim (Option-cases (find b'=' header)) [
  | inl e ↦ ((invalid, []), rw (e, parse_byte_ranges), tt)
  | inr (pos, e) ↦ elim (Bool-cases (equal (strip (take pos header)) (codes "bytes"))) [
    | inr other ↦ ((invalid, []), rw (e, other, parse_byte_ranges), tt)
    | inl bytes ↦
        let (out, ran) =
          ranges_loop-total size (suc (length header)) (strip (drop (suc pos) header)) []
            (omega (arith, length-strip (drop (suc pos) header), length-drop (suc pos) header)) in
        ((status_of out, out), rw (e, bytes, ran, parse_byte_ranges), status_of-IsUsable out)
  ]
]

pub request_ranges-IsUsable :
    (size : ℕ) (field : Option Bytes)
    → (answer : RangeField × List Range) × (request_ranges size field ≡ some answer)
      × IsUsable answer
unfolding request_ranges
request_ranges-IsUsable size none = ((absent, []), refl, tt)
request_ranges-IsUsable size (some header) = parse_byte_ranges-IsUsable size header
