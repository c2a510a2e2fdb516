-- ===== src/Range/Forms.antt =====
-- What each form of a byte range means.
use http_router.Base.{
  ℕ, suc, ◌+◌, ◌-◌, ◌*◌, ◌<◌, ◌≡◌, refl, sym, ap, ◌∙◌, Bool, true, false, ◌||◌, none, some, [], ◌∷◌,
  ◌++◌, arith, Bytes, find, length, length-append, drop, take-append, ltb, leb, ◌==◌, if◌then◌else◌,
  ◌>>=◌, sub64, word, Free, is_digit, Bool-cases, inl, inr, min,
}
use http_router.Range.{from_digits, from_chars, whole, parse, clamp, range_at, parse_byte_range}

abbrev is_dash : ℕ → Bool
is_dash c = c == b'-'

digit_no_dash : (c : ℕ) → is_digit c ≡ true → is_dash c ≡ false
unfolding is_digit
digit_no_dash c h = ground arith

from_digits-Free : (n : ℕ) (s : Bytes) (m : ℕ) → whole (from_digits n s) ≡ some m → Free is_dash s
unfolding from_digits
from_digits-Free n [] m e = tt
from_digits-Free n (c ∷ s) m e = elim (Bool-cases (is_digit c)) [
  | inl d ↦ (digit_no_dash c d, from_digits-Free (n * 10 + (c - b'0')) s m (rw d at e))
  | inr o ↦ cc (rw o at e)
]

whole-eq_some : (r : ℕ × Bytes) (m : ℕ) → whole r ≡ some m → r.0 ≡ m
whole-eq_some (n, []) m e = ground arith
whole-eq_some (n, c ∷ s) m e = cc

parse-cons :
    (c : ℕ) (s : Bytes)
    → parse (c ∷ s)
      ≡ (if is_digit c
          then (if ltb (from_digits 0 (c ∷ s)).0 word then some (from_digits 0 (c ∷ s)) else none)
          else none)
        >>= whole
unfolding parse from_chars
parse-cons c s = refl

guarded :
    (digit fits : Bool) (r : ℕ × Bytes) (m : ℕ)
    → ((if digit then (if fits then some r else none) else none) >>= whole) ≡ some m
    → (whole r ≡ some m) × (fits ≡ true)
guarded true true r m e = (e, refl)
guarded true false r m e = cc
guarded false fits r m e = cc

parse-nil : parse [] ≡ none
unfolding parse from_chars
parse-nil = refl

-- A text that is a number holds no `-`, is not empty, and stands for a `uint64_t`.
pub record IsNumber (s : Bytes) (m : ℕ) : Type 0 where
  pub undashed : Free is_dash s
  pub nonempty : 0 < length s
  pub small : m < word

parse-IsNumber : (s : Bytes) (m : ℕ) → parse s ≡ some m → IsNumber s m
parse-IsNumber [] m e = cc (parse-nil)
parse-IsNumber (c ∷ s) m e =
    let (read, fits) =
      guarded (is_digit c) _ (from_digits 0 (c ∷ s)) m (sym (parse-cons c s) ∙ e) in
    record {
      undashed = from_digits-Free 0 (c ∷ s) m read;
      nonempty = omega arith;
      small = ground (arith, whole-eq_some (from_digits 0 (c ∷ s)) m read, fits);
    }

find_dash : (s r : Bytes) → Free is_dash s → find b'-' (s ++ (b'-' ∷ r)) ≡ some (length s)
unfolding find
find_dash [] r h = refl
find_dash (c ∷ s) r h = rw (h.0, find_dash s r h.1)

drop_past : (s r : Bytes) → drop (suc (length s)) (s ++ (b'-' ∷ r)) ≡ r
drop_past [] r = refl
drop_past (c ∷ s) r = drop_past s r

module _ (size : ℕ) where
  range_between :
      (s e : Bytes) (a b : ℕ)
      → parse s ≡ some a
      → parse e ≡ some b
      → parse_byte_range size (s ++ (b'-' ∷ e)) ≡ clamp size a b
  unfolding parse_byte_range range_at
  range_between s e a b p q =
      rw
        (
          find_dash s e (parse-IsNumber s a p).undashed,
          take-append s (b'-' ∷ e),
          drop_past s e,
          p,
          q,
        )
        (ground (arith, length-append s (b'-' ∷ e), parse-IsNumber s a p, parse-IsNumber e b q))

  range_from :
      (s : Bytes) (a : ℕ)
      → parse s ≡ some a
      → parse_byte_range size (s ++ (b'-' ∷ [])) ≡ clamp size a (sub64 size 1)
  unfolding parse_byte_range range_at
  range_from s a p =
      rw
        (
          find_dash s [] (parse-IsNumber s a p).undashed,
          take-append s (b'-' ∷ []),
          drop_past s [],
          p,
        )
        (ground (arith, length-append s (b'-' ∷ []), parse-IsNumber s a p))

  range_suffix :
      (e : Bytes) (b : ℕ)
      → parse e ≡ some b
      → parse_byte_range size (b'-' ∷ e) ≡ clamp size (sub64 size b) (sub64 size 1)
  unfolding parse_byte_range range_at
  range_suffix e b q = rw q

module _ (size : ℕ) (some_byte : 0 < size) (fits : size < word) where
  clamp_lem :
      (a b : ℕ)
      → clamp size a b ≡ (
          if leb a (min b (size - 1))
          then some (record { start = a; end = min b (size - 1) })
          else none)
  unfolding clamp
  clamp_lem a b = ground arith

  last_lem : sub64 size 1 ≡ size - 1
  last_lem = omega arith

  suffix_lem :
      (b : ℕ)
      → b < word
      → clamp size (sub64 size b) (size - 1) ≡ (
          if b == 0 || ltb size b then none else some (record { start = size - b; end = size - 1 }))
  unfolding clamp
  suffix_lem b h = ground arith

min_self : (n : ℕ) → min n n ≡ n
min_self n = omega arith

wrapped : (a : ℕ) → a < word → clamp 0 a (sub64 0 1) ≡ some (record { start = a; end = word - 1 })
unfolding clamp
wrapped a h = ground arith

-- For a file that is not empty, and texts `s` and `e` of the numbers `a` and `b`: `s-` is the bytes
-- from `a` to the last one; `s-e` ends at `b`, or at the last byte where `b` is beyond it; both are
-- refused where they would be empty. `-e` is the last `b` bytes, and it is refused if `b` is 0 or
-- more than the file has.
pub parse_byte_range_forms :
    (size : ℕ) (s e : Bytes) (a b : ℕ)
    → 0 < size
    → size < word
    → parse s ≡ some a
    → parse e ≡ some b
    → (parse_byte_range size (s ++ (b'-' ∷ []))
        ≡ (if leb a (size - 1) then some (record { start = a; end = size - 1 }) else none))
      × (parse_byte_range size (s ++ (b'-' ∷ e)) ≡ (
          if leb a (min b (size - 1))
          then some (record { start = a; end = min b (size - 1) })
          else none))
      × (parse_byte_range size (b'-' ∷ e) ≡ (
          if b == 0 || ltb size b
          then none
          else some (record { start = size - b; end = size - 1 })))
parse_byte_range_forms size s e a b p fits h k = (
  range_from size s a h
      ∙ ap (clamp size a) (last_lem size p fits)
      ∙ clamp_lem size p fits a (size - 1)
      ∙ rw (min_self (size - 1)),
  range_between size s e a b h k ∙ clamp_lem size p fits a b,
  range_suffix size e b k
      ∙ ap (clamp size (sub64 size b)) (last_lem size p fits)
      ∙ suffix_lem size p fits b (parse-IsNumber e b k).small,
)

-- For an empty file the last place wraps around: `s-` is taken for a range that runs from `a` to
-- the greatest `uint64_t`, whatever number `a` is.
pub parse_byte_range_empty :
    (s : Bytes) (a : ℕ)
    → parse s ≡ some a
    → parse_byte_range 0 (s ++ (b'-' ∷ [])) ≡ some (record { start = a; end = word - 1 })
parse_byte_range_empty s a h = range_from 0 s a h ∙ wrapped a (parse-IsNumber s a h).small
