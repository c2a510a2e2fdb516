-- ===== src/MimeTypes/Keys.antt =====
-- The number of an extension is made of its four letters, and upper case letters count as lower ones.
mod Bits
use Prim.Native.Nat.{bit_or}
use http_router.Base.{
  ℕ, zero, suc, ◌+◌, ◌-◌, ◌*◌, ◌%◌, ◌^◌, ◌<◌, ◌≡◌, ◌↔◌, refl, sym, ap, ◌∙◌, Bool, true, false, ◌&&◌,
  ◌||◌, Option, none, some, List, [], ◌∷◌, ◌++◌, map, arith, Bytes, codes, equal, equal_iff, ltb,
  leb, take, ◌==◌, ==_iff, Bool-cases, inl, inr, if◌then◌else◌, all,
}
use http_router.MimeTypes.{letter, ext_rounds, ext_tmplt}
use Bits.{bit_or_fields, zero-bit_or}

-- `tolower` of the C locale
unfoldable pub tolower : ℕ → ℕ
tolower c = if leb b'A' c && leb c b'Z' then c + 32 else c

-- What the extensions in the table are made of
unfoldable pub is_listed : ℕ → Bool
is_listed d = d == 0 || (leb b'0' d && leb d b'9') || (leb b'a' d && leb d b'z')

letter-lt : (c : ℕ) → c < 128 → letter c < 256
unfolding letter
letter-lt c h = ground arith

tolower_of : (c d : ℕ) → c < 128 → is_listed d ≡ true → letter c ≡ letter d → tolower c ≡ d
unfolding letter tolower is_listed
tolower_of c d h k e = ground arith

letter_of : (c d : ℕ) → c < 128 → is_listed d ≡ true → tolower c ≡ d → letter c ≡ letter d
unfolding letter tolower is_listed
letter_of c d h k e = ground arith

pub packed : ℕ → ℕ → ℕ → ℕ → ℕ
packed a b c d = ((letter a * 256 + letter b) * 256 + letter c) * 256 + letter d

merge : (k q x y : ℕ) → x ≡ q * 2 ^ k → y < 2 ^ k → bit_or x y ≡ x + y
merge k q x y e h = rw e (bit_or_fields k q y h)

pieces :
    (a b c d : ℕ)
    → a < 256
    → b < 256
    → c < 256
    → d < 256
    → bit_or
        (bit_or
          (bit_or (bit_or 0 (a * 2 ^ 24 % 2 ^ 32)) (b * 2 ^ 16 % 2 ^ 32))
          (c * 2 ^ 8 % 2 ^ 32))
        (d * 2 ^ 0 % 2 ^ 32)
      ≡ ((a * 256 + b) * 256 + c) * 256 + d
pieces a b c d h k l m = rw (zero-bit_or (a * 2 ^ 24 % 2 ^ 32)) (
    rw (merge 24 a (a * 2 ^ 24 % 2 ^ 32) (b * 2 ^ 16 % 2 ^ 32) (omega arith) (omega arith)) (
      rw
        (merge 16 (a * 256 + b) (a * 2 ^ 24 % 2 ^ 32 + b * 2 ^ 16 % 2 ^ 32) (c * 2 ^ 8 % 2 ^ 32)
          (omega arith) (omega arith))
        (rw
          (merge 8 ((a * 256 + b) * 256 + c)
            (a * 2 ^ 24 % 2 ^ 32 + b * 2 ^ 16 % 2 ^ 32 + c * 2 ^ 8 % 2 ^ 32) (d * 2 ^ 0 % 2 ^ 32)
            (omega arith) (omega arith))
          (omega arith))))

pub ext_tmplt-packed :
    (a b c d : ℕ) (e : Bytes)
    → a < 128
    → b < 128
    → c < 128
    → d < 128
    → ext_tmplt (a ∷ b ∷ c ∷ d ∷ e) ≡ some (packed a b c d)
unfolding ext_tmplt packed
ext_tmplt-packed a b c d e h k l m = ap some (
    pieces (letter a) (letter b) (letter c) (letter d) (letter-lt a h) (letter-lt b k)
      (letter-lt c l) (letter-lt d m))

listed-lt : (d : ℕ) → is_listed d ≡ true → d < 128
unfolding is_listed
listed-lt d h = ground arith

same_letter : (c d : ℕ) → c < 128 → is_listed d ≡ true → (letter d == letter c) ≡ (tolower c == d)
same_letter c d h k = elim (Bool-cases (tolower c == d)) [
  | inl e ↦ rw e ((==_iff _ _).1 (sym (letter_of c d h k ((==_iff _ _).0 e))))
  | inr e ↦ ground (arith, tolower_of c d h k)
]

abbrev four : (a b c d a' b' c' d' : ℕ) → Bool
four a b c d a' b' c' d' = a == a' && (b == b' && (c == c' && (d == d' && true)))

same_pieces :
    (a b c d a' b' c' d' : ℕ)
    → a < 256
    → b < 256
    → c < 256
    → d < 256
    → a' < 256
    → b' < 256
    → c' < 256
    → d' < 256
    → ((((a * 256 + b) * 256 + c) * 256 + d) == (((a' * 256 + b') * 256 + c') * 256 + d'))
      ≡ four a b c d a' b' c' d'
same_pieces a b c d a' b' c' d' p q r s p' q' r' s' = ground arith

abbrev pub AreAscii : (a b c d : ℕ) → Type 0
AreAscii a b c d = (a < 128) × (b < 128) × (c < 128) × (d < 128)

row-lt : (d : ℕ) → is_listed d ≡ true → letter d < 256
row-lt d h = letter-lt d (listed-lt d h)

each :
    (a b c d : ℕ)
    → all is_listed (a ∷ b ∷ c ∷ d ∷ []) ≡ true
    → (is_listed a ≡ true) × (is_listed b ≡ true) × (is_listed c ≡ true) × (is_listed d ≡ true)
each a b c d h = ground arith

pub row-packed :
    (a b c d : ℕ) (e : Bytes)
    → all is_listed (a ∷ b ∷ c ∷ d ∷ []) ≡ true
    → ext_tmplt (a ∷ b ∷ c ∷ d ∷ e) ≡ some (packed a b c d)
row-packed a b c d e h =
    let (ha, hb, hc, hd) = each a b c d h in
    ext_tmplt-packed a b c d e (listed-lt a ha) (listed-lt b hb) (listed-lt c hc) (listed-lt d hd)

-- Four letters of a row and four bytes have one number exactly where they are the same letters.
pub packed-same :
    (a b c d a' b' c' d' : ℕ)
    → AreAscii a b c d
    → all is_listed (a' ∷ b' ∷ c' ∷ d' ∷ []) ≡ true
    → (packed a' b' c' d' == packed a b c d)
      ≡ equal (map tolower (a ∷ b ∷ c ∷ d ∷ [])) (a' ∷ b' ∷ c' ∷ d' ∷ [])
unfolding packed equal
packed-same a b c d a' b' c' d' (ha, hb, hc, hd) k =
    let (ka, kb, kc, kd) = each a' b' c' d' k in
    same_pieces (letter a') (letter b') (letter c') (letter d') (letter a) (letter b) (letter c)
      (letter d) (row-lt a' ka) (row-lt b' kb) (row-lt c' kc) (row-lt d' kd) (letter-lt a ha)
      (letter-lt b hb) (letter-lt c hc) (letter-lt d hd)
    ∙ (λ i.
        same_letter a a' ha ka i
        && (same_letter b b' hb kb i
            && (same_letter c c' hc kc i && (same_letter d d' hd kd i && true))))

-- A byte that is a letter of the table, case aside, counts as that letter.
pub tolower-lt : (c : ℕ) → is_listed (tolower c) ≡ true → c < 128
unfolding is_listed tolower
tolower-lt c h = ground arith

pub letter-tolower : (c : ℕ) → is_listed (tolower c) ≡ true → letter (tolower c) ≡ letter c
letter-tolower c h = sym (letter_of c (tolower c) (tolower-lt c h) h refl)

pub packed-tolower :
    (a b c d : ℕ)
    → all is_listed (tolower a ∷ tolower b ∷ tolower c ∷ tolower d ∷ []) ≡ true
    → AreAscii a b c d × (packed (tolower a) (tolower b) (tolower c) (tolower d) ≡ packed a b c d)
unfolding packed
packed-tolower a b c d h =
    let (ha, hb, hc, hd) = each _ _ _ _ h in
    (
      (tolower-lt a ha, tolower-lt b hb, tolower-lt c hc, tolower-lt d hd),
      rw (letter-tolower a ha, letter-tolower b hb, letter-tolower c hc, letter-tolower d hd) refl,
    )
