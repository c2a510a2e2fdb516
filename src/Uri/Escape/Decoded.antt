-- ===== src/Uri/Escape/Decoded.antt =====
-- `urldecode_impl` against a decoder of the text alone, and where it reads beyond the text.
use http_router.Base.{
  ℕ, suc, ◌+◌, ◌*◌, passes_run, passes_run-inside, codes, find, not, ◌||◌, true, Bool-cases, inl,
  inr, ◌<◌, ◌≡◌, refl, ap, ◌≢◌, false, ◌&&◌, none, some, [], ◌∷◌, ◌++◌, arith, Bytes, length, word,
  sub64, ◌-◌, ◌≤◌, ◌==◌, if◌then◌else◌, isxdigit,
}
use http_router.Uri.Escape.{hex, from_hex, opens, push, urldecode_from, urldecode_impl}

-- The value of a hexadecimal digit: its place among the digits, in either case
unfoldable pub nibble : ℕ → ℕ
unfolding find
nibble c = elim (find c (codes "0123456789abcdef")) [
  | some i ↦ i
  | none ↦ elim (find c (codes "0123456789ABCDEF")) [ some i ↦ i | none ↦ 0 ]
]

-- Percent decoding as it is meant: `%` and two hexadecimal digits of the text are a byte, every
-- other byte is read as it stands.
unfoldable pub decoded : (ℕ → ℕ) → Bytes → Bytes
decoded read [] = []
decoded read (c ∷ []) = read c ∷ []
decoded read (c ∷ a ∷ []) = read c ∷ read a ∷ []
decoded read (c ∷ a ∷ b ∷ s) =
    let single = read c ∷ decoded read (a ∷ b ∷ s) in
    let escape = (16 * nibble a + nibble b) ∷ decoded read s in
    if c == b'%' && (isxdigit a && isxdigit b) then escape else single

nibble_table : passes_run (λ c. not (isxdigit c) || hex c == nibble c) 0 128 ≡ true
unfolding passes_run isxdigit hex nibble
nibble_table = refl

isxdigit-lt : (c : ℕ) → isxdigit c ≡ true → c < 128
unfolding isxdigit
isxdigit-lt c h = ground arith

hex-nibble : (c : ℕ) → isxdigit c ≡ true → hex c ≡ nibble c
hex-nibble c h =
    let row =
      passes_run-inside _ 0 128 c (omega arith) (omega (arith, isxdigit-lt c h)) nibble_table in
    ground (arith, row)

-- In a text of two bytes or more, an escape opens where two bytes of the text follow.
sub_two : (n : ℕ) → 1 < n → n < word → sub64 n 2 ≡ n - 2
sub_two n h k = omega arith

opens_inside : (n i c : ℕ) → 2 + i < n → n < word → opens n i c ≡ (c == b'%')
unfolding opens
opens_inside n i c h k = rw (sub_two n (omega arith) k) (ground arith)

opens_end : (n i c : ℕ) → 1 < n → n < word → n < 3 + i → opens n i c ≡ false
unfolding opens
opens_end n i c h k m = rw (sub_two n h k) (ground arith)

module _ (read : ℕ → ℕ) (n : ℕ) where
  stop : (i : ℕ) (m : Bytes) → n ≤ i → urldecode_from read n i m ≡ some []
  unfolding urldecode_from
  stop i [] h = ground arith
  stop i (c ∷ []) h = ground arith
  stop i (c ∷ a ∷ []) h = ground arith
  stop i (c ∷ a ∷ b ∷ m) h = ground arith

  -- A byte that opens no escape is read as it stands.
  single :
      (i c : ℕ) (m : Bytes)
      → i < n
      → opens n i c ≡ false
      → urldecode_from read n i (c ∷ m) ≡ push (read c) (urldecode_from read n (suc i) m)
  unfolding urldecode_from
  single i c [] h e = ground arith
  single i c (a ∷ []) h e = ground arith
  single i c (a ∷ b ∷ m) h e = ground arith

  triple :
      (i c a b : ℕ) (m : Bytes)
      → i < n
      → urldecode_from read n i (c ∷ a ∷ b ∷ m) ≡ (
          if opens n i c && (isxdigit a && isxdigit b)
          then push (16 * nibble a + nibble b) (urldecode_from read n (suc (suc (suc i))) m)
          else push (read c) (urldecode_from read n (suc i) (a ∷ b ∷ m)))
  unfolding urldecode_from
  triple i c a b m h = elim (Bool-cases (isxdigit a)) [
    | inr e ↦ ground arith
    | inl e ↦ elim (Bool-cases (isxdigit b)) [
      | inr f ↦ ground arith
      | inl f ↦ ground (arith, hex-nibble a e, hex-nibble b f)
    ]
  ]

  module _ (fits : n < word) (many : 1 < n) where
    urldecode_from-decoded :
        (i : ℕ) (s after : Bytes)
        → i + length s ≡ n
        → urldecode_from read n i (s ++ after) ≡ some (decoded read s)
    unfolding decoded
    urldecode_from-decoded i [] after e = stop i after (omega arith)
    urldecode_from-decoded i (c ∷ []) after e = rw (
      single i c after (omega arith) (opens_end n i c many fits (omega arith)),
      urldecode_from-decoded (suc i) [] after (omega arith),
    )
    urldecode_from-decoded i (c ∷ a ∷ []) after e = rw (
      single i c (a ∷ after) (omega arith) (opens_end n i c many fits (omega arith)),
      urldecode_from-decoded (suc i) (a ∷ []) after (omega arith),
    )
    urldecode_from-decoded i (c ∷ a ∷ b ∷ s) after e =
        rw
          (
            triple i c a b (s ++ after) (omega arith),
            opens_inside n i c (omega arith) fits,
            urldecode_from-decoded (suc i) (a ∷ b ∷ s) after (omega arith),
            urldecode_from-decoded (suc (suc (suc i))) s after (omega arith),
          )
          (ground arith)

urldecode_impl_one :
    (read : ℕ → ℕ) (c : ℕ) (after : Bytes)
    → c ≢ b'%'
    → urldecode_impl read (c ∷ after) 1 ≡ some (read c ∷ [])
urldecode_impl_one read c after h = rw (
  single read 1 0 c after (omega arith) (unfold opens in ground arith),
  stop read 1 1 after (omega arith),
)

-- For every text but `%` alone, the text alone decides what is decoded: the result is the
-- reference decoding, and no byte outside the buffer is read.
pub urldecode_impl-decoded :
    (read : ℕ → ℕ) (s after : Bytes)
    → length s < word
    → s ≢ b'%' ∷ []
    → urldecode_impl read (s ++ after) (length s) ≡ some (decoded read s)
unfolding decoded
urldecode_impl-decoded read [] after fits h = stop read 0 0 after (omega arith)
urldecode_impl-decoded read (c ∷ []) after fits h =
    urldecode_impl_one read c after (λ e. h (ap (λ d. d ∷ []) e))
urldecode_impl-decoded read (c ∷ a ∷ s) after fits h =
    urldecode_from-decoded read (length (c ∷ a ∷ s)) fits (omega arith) 0 (c ∷ a ∷ s) after
      (omega arith)

-- The text `%` alone: the guard `i < in_len - 2` wraps around, so the bytes behind the text are
-- taken for its digits, and the buffer is overrun where it ends there. Two hexadecimal digits
-- behind the text are decoded with it; else it is read as it stands.
pub urldecode_impl_lone :
    (read : ℕ → ℕ) (a b : ℕ) (after : Bytes)
    → (urldecode_impl read (b'%' ∷ []) 1 ≡ none)
      × (urldecode_impl read (b'%' ∷ a ∷ []) 1
          ≡ (if isxdigit a then none else some (read b'%' ∷ [])))
      × (urldecode_impl read (b'%' ∷ a ∷ b ∷ after) 1
          ≡ some (if isxdigit a && isxdigit b then from_hex a b ∷ [] else read b'%' ∷ []))
unfolding urldecode_from opens
urldecode_impl_lone read a b after =
    (refl, ground arith, ground (arith, stop read 1 3 after, stop read 1 1 (a ∷ b ∷ after)))
