-- ===== src/Range/Bounds.antt =====
-- What every range that is returned satisfies, and that the loop ends.
use mathlib.Core.List.{reverse, reverse-cons}
use http_router.Base.{
  ℕ, zero, suc, ◌-◌, ◌≤◌, ◌<◌, ◌≡◌, refl, ap, Bool, true, false, Option, none, some, List, [], ◌∷◌,
  arith, Bytes, codes, equal, find, length, length-append, take, drop, ◌==◌, if◌then◌else◌, ◌>>=◌,
  word, All, All-append, Option-cases, Bool-cases, ◌≢◌, inl, inr,
}
use http_router.Range.{
  Range, RangeField, present, absent, invalid, parse, clamp, range_at, parse_byte_range,
  strip_front, strip, push, ranges_loop, status_of, parse_byte_ranges,
}

-- A range of bytes that a file of the given size has.
pub record IsWithin (size : ℕ) (r : Range) : Type 0 where
  pub ordered : r.start ≤ r.end
  pub inside : r.end < size

abbrev pub EachIn : ℕ → Option Range → Type 0
EachIn size none = Unit {0}
EachIn size (some r) = IsWithin size r

EachIn-bind {ℓ} :
    {A : Type ℓ} (size : ℕ) (m : Option A) (k : A → Option Range)
    → ((a : A) → EachIn size (k a))
    → EachIn size (m >>= k)
EachIn-bind size none k h = tt
EachIn-bind size (some a) k h = h a

EachIn-if :
    (size : ℕ) (b : Bool) (x y : Option Range)
    → EachIn size x
    → EachIn size y
    → EachIn size (if b then x else y)
EachIn-if size true x y h k = h
EachIn-if size false x y h k = k

module _ (size : ℕ) (some_byte : 0 < size) (fits : size < word) where
  clamp-EachIn : (start end : ℕ) → EachIn size (clamp size start end)
  unfolding clamp
  clamp-EachIn start end = ground arith

  range_at-EachIn : (s : Bytes) (pos : ℕ) → EachIn size (range_at size s pos)
  unfolding range_at
  range_at-EachIn s pos =
      EachIn-if size (pos == 0) _ _
        (EachIn-bind size (parse (drop (suc pos) s)) _ (λ end. clamp-EachIn _ _))
        (EachIn-if size (pos == length s - 1) _ _
          (EachIn-bind size (parse (take pos s)) _ (λ start. clamp-EachIn _ _))
          (EachIn-bind size (parse (take pos s)) _
            (λ start. EachIn-bind size (parse (drop (suc pos) s)) _ (λ end. clamp-EachIn _ _))))

  parse_byte_range-EachIn : (s : Bytes) → EachIn size (parse_byte_range size s)
  unfolding parse_byte_range
  parse_byte_range-EachIn s = EachIn-bind size (find b'-' s) _ (λ pos. range_at-EachIn s pos)

  push-IsWithin :
      (rs : List Range) (o : Option Range)
      → All (IsWithin size) rs
      → EachIn size o
      → All (IsWithin size) (push rs o)
  push-IsWithin rs none h k = h
  push-IsWithin rs (some r) h k = All-append (IsWithin size) rs (r ∷ []) h (k, tt)

length-strip_front : (s : Bytes) → length (strip_front s) ≤ length s
unfolding strip_front
length-strip_front [] = omega arith
length-strip_front (c ∷ s) = ground (arith, length-strip_front s)

length-reverse : (s : Bytes) → length (reverse s) ≡ length s
length-reverse [] = refl
length-reverse (c ∷ s) =
    omega
      (arith, ap length (reverse-cons c s), length-append (reverse s) (c ∷ []), length-reverse s)

pub length-strip : (s : Bytes) → length (strip s) ≤ length s
unfolding strip
length-strip s = omega (
  arith,
  length-strip_front (reverse (strip_front (reverse s))),
  length-reverse (strip_front (reverse s)),
  length-strip_front (reverse s),
  length-reverse s,
)

pub length-drop : (n : ℕ) (s : Bytes) → length (drop n s) ≤ length s - n
length-drop zero s = omega arith
length-drop (suc n) [] = omega arith
length-drop (suc n) (c ∷ s) = omega (arith, length-drop n s)

pub find-lt-length : (ch : ℕ) (s : Bytes) (i : ℕ) → find ch s ≡ some i → i < length s
unfolding find
find-lt-length ch [] i e = cc
find-lt-length ch (c ∷ s) zero e = omega arith
find-lt-length ch (c ∷ s) (suc i) e = omega (arith, find-lt-length ch s i (ground arith))

-- The loop ends within its fuel, and keeps what holds of each range.
ranges_loop-IsWithin :
    (size : ℕ)
    → 0 < size
    → size < word
    → (fuel : ℕ) (header : Bytes) (rs : List Range) → length header < fuel
    → All (IsWithin size) rs
    → (out : List Range) × (ranges_loop fuel size header rs ≡ some out) × All (IsWithin size) out
unfolding ranges_loop
ranges_loop-IsWithin size p fits zero header rs h k = absurd (omega arith)
ranges_loop-IsWithin size p fits (suc fuel) header rs h k = elim (Option-cases (find b',' header)) [
  | inl e ↦ (
    _,
    rw (e, ranges_loop),
    push-IsWithin size p fits rs _ k (parse_byte_range-EachIn size p fits (strip header)),
  )
  | inr (pos, e) ↦
      rw (e, ranges_loop)
        (ranges_loop-IsWithin size p fits fuel (strip (drop (suc pos) header)) _
          (omega (
            arith,
            length-strip (drop (suc pos) header),
            length-drop (suc pos) header,
            find-lt-length b',' header pos e,
          ))
          (push-IsWithin size p fits rs _ k
            (parse_byte_range-EachIn size p fits (strip (take pos header)))))
]

-- What the caller relies on of a result.
abbrev pub IsAnswer : ℕ → RangeField × List Range → Type 0
IsAnswer size (present, rs) = (rs ≢ []) × All (IsWithin size) rs
IsAnswer size (invalid, rs) = rs ≡ []
IsAnswer size (absent, rs) = ⊥

status_of-IsAnswer :
    (size : ℕ) (rs : List Range) → All (IsWithin size) rs → IsAnswer size (status_of rs, rs)
status_of-IsAnswer size [] h = refl
status_of-IsAnswer size (r ∷ rs) h = ((λ e. cc), h)

-- For a file that is not empty, and whatever the header: the parser ends; it reports ranges only
-- with at least one, each of them inside the file and in order; and else it returns none.
pub parse_byte_ranges-IsAnswer :
    (size : ℕ) (header : Bytes)
    → 0 < size
    → size < word
    → (answer : RangeField × List Range) × (parse_byte_ranges size header ≡ some answer)
      × IsAnswer size answer
unfolding parse_byte_ranges
parse_byte_ranges-IsAnswer size header p fits = elim (Option-cases (find b'=' header)) [
  | inl e ↦ ((invalid, []), rw (e, parse_byte_ranges), refl)
  | inr (pos, e) ↦ elim (Bool-cases (equal (strip (take pos header)) (codes "bytes"))) [
    | inr other ↦ ((invalid, []), rw (e, other, parse_byte_ranges), refl)
    | inl bytes ↦
        let (out, ran, within) =
          ranges_loop-IsWithin size p fits (suc (length header)) (strip (drop (suc pos) header)) []
            (omega (arith, length-strip (drop (suc pos) header), length-drop (suc pos) header))
            tt in
        (
          (status_of out, out),
          rw (e, bytes, ran, parse_byte_ranges),
          status_of-IsAnswer size out within,
        )
  ]
]
