-- ===== src/Uri/Escape/RoundTrip.antt =====
-- Decoding takes back what was encoded, for the path's alphabet and for the query's.
use http_router.Base.{
  ℕ, ◌/◌, ◌%◌, ◌<◌, ◌≡◌, refl, ap, ◌∙◌, ◌≢◌, inl, inr, Bool, true, false, not, ◌&&◌, ◌||◌, some, [],
  ◌∷◌, ◌++◌, arith, Bytes, length, word, ◌==◌, isxdigit, isalnum, All, get_or, passes_run,
  passes_run-inside, Bool-cases, Free,
}
use http_router.Uri.Escape.{
  hexes, encode_char, urlencode_impl, encoded_length, urldecode_impl, path_issafe, query_issafe,
  write_ch, read_ch, query_write_ch, query_read_ch, path_urlencode, query_urlencode, urldecode,
  query_urldecode,
}
use http_router.Uri.Escape.Decoded.{nibble, decoded, urldecode_impl-decoded}

abbrev pub IsByte : ℕ → Type 0
IsByte c = c < 256

-- The bytes with a meaning to the decoder or to the query parser.
abbrev pub is_special : ℕ → Bool
is_special c = c == b'%' || c == b'&' || c == b'=' || c == b'?'

abbrev pub ends_token : ℕ → Bool
ends_token c = c == b'&' || c == b'=' || c == b'?'

-- A nibble's digit is hexadecimal, stands for the nibble, and is none of them.
digit_ok : ℕ → Bool
digit_ok n = let d = get_or hexes n 0 in isxdigit d && nibble d == n && not (is_special d)

digit_table : passes_run digit_ok 0 16 ≡ true
unfolding passes_run digit_ok hexes isxdigit nibble
digit_table = refl

digit-digit_ok : (n : ℕ) → n < 16 → digit_ok n ≡ true
digit-digit_ok n h = passes_run-inside digit_ok 0 16 n (omega arith) (omega (arith, h)) digit_table

-- What the two loops take as their predicates, and that the second undoes the first.
pub record Alphabet : Type 0 where
  pub safe : ℕ → Bool
  pub write : ℕ → ℕ
  pub read : ℕ → ℕ
  pub read-write : (c : ℕ) → safe c ≡ true → read (write c) ≡ c
  pub write_plain : (c : ℕ) → safe c ≡ true → is_special (write c) ≡ false

decoded_plain :
    (read : ℕ → ℕ) (c : ℕ) (s : Bytes)
    → (c == b'%') ≡ false
    → decoded read (c ∷ s) ≡ read c ∷ decoded read s
unfolding decoded
decoded_plain read c [] h = refl
decoded_plain read c (a ∷ []) h = refl
decoded_plain read c (a ∷ b ∷ s) h = ground arith

decoded_escape :
    (read : ℕ → ℕ) (c : ℕ) (s : Bytes)
    → IsByte c
    → decoded read (b'%' ∷ get_or hexes (c / 16 % 16) 0 ∷ get_or hexes (c % 16) 0 ∷ s)
      ≡ c ∷ decoded read s
unfolding decoded digit_ok
decoded_escape read c s h =
    ground
      (arith, digit-digit_ok (c / 16 % 16) (omega arith), digit-digit_ok (c % 16) (omega arith))

module _ (α : Alphabet) where
  open α use {safe, write, read, read-write, write_plain}

  decoded-encode_char :
      (c : ℕ) (s : Bytes)
      → IsByte c
      → decoded read (encode_char safe write c ++ s) ≡ c ∷ decoded read s
  unfolding encode_char
  decoded-encode_char c s h = elim (Bool-cases (safe c)) [
    | inl e ↦ rw e (
        decoded_plain read (write c) s (ground (arith, write_plain c e))
        ∙ ap (λ d. d ∷ decoded read s) (read-write c e))
    | inr e ↦ rw e (decoded_escape read c s h)
  ]

  pub decoded-urlencode_impl :
      (s : Bytes) → All IsByte s → decoded read (urlencode_impl safe write s) ≡ s
  unfolding urlencode_impl
  decoded-urlencode_impl [] h = unfold decoded in refl
  decoded-urlencode_impl (c ∷ s) h =
      decoded-encode_char c (urlencode_impl safe write s) h.0
      ∙ ap (◌∷◌ c) (decoded-urlencode_impl s h.1)

  urlencode_impl-ne-percent : (s : Bytes) → urlencode_impl safe write s ≢ b'%' ∷ []
  unfolding urlencode_impl encode_char
  urlencode_impl-ne-percent [] e = cc
  urlencode_impl-ne-percent (c ∷ s) e = elim (Bool-cases (safe c)) [
    | inl k ↦ ground (arith, write_plain c k)
    | inr k ↦ ground arith
  ]

  -- Decoding the encoded text, wherever it stands in memory, gives back every text of bytes.
  pub urldecode_impl-urlencode_impl :
      (s after : Bytes)
      → All IsByte s
      → length (urlencode_impl safe write s) < word
      → urldecode_impl read
          (urlencode_impl safe write s ++ after)
          (length (urlencode_impl safe write s))
        ≡ some s
  urldecode_impl-urlencode_impl s after h fits =
      urldecode_impl-decoded read (urlencode_impl safe write s) after fits
        (urlencode_impl-ne-percent s)
      ∙ ap some (decoded-urlencode_impl s h)

  -- The encoded text holds none of the bytes that end a name or a value in a query, and no `?`.
  pub urlencode_impl-Free :
      (s : Bytes) → All IsByte s → Free ends_token (urlencode_impl safe write s)
  unfolding urlencode_impl encode_char digit_ok
  urlencode_impl-Free [] h = tt
  urlencode_impl-Free (c ∷ s) h =
      let rest = urlencode_impl-Free s h.1 in
      elim (Bool-cases (safe c)) [
        | inl k ↦ ground (arith, write_plain c k, rest)
        | inr k ↦ ground (
          arith,
          rest,
          digit-digit_ok (c / 16 % 16) (omega arith),
          digit-digit_ok (c % 16) (omega arith),
        )
      ]

-- The first loop counts what the second one appends.
pub length-urlencode_impl :
    (safe : ℕ → Bool) (write : ℕ → ℕ) (s : Bytes)
    → length (urlencode_impl safe write s) ≡ encoded_length safe s
unfolding urlencode_impl encode_char encoded_length
length-urlencode_impl safe write [] = refl
length-urlencode_impl safe write (c ∷ s) = ground (arith, length-urlencode_impl safe write s)

pub path_safe_plain : (c : ℕ) → path_issafe c ≡ true → is_special c ≡ false
unfolding isalnum
path_safe_plain c h = ground arith

pub query_read-write : (c : ℕ) → query_issafe c ≡ true → query_read_ch (query_write_ch c) ≡ c
unfolding isalnum
query_read-write c h = ground arith

pub query_safe_plain : (c : ℕ) → query_issafe c ≡ true → is_special (query_write_ch c) ≡ false
unfolding isalnum
query_safe_plain c h = ground arith

abbrev pub path_alphabet : Alphabet
path_alphabet = record {
  safe = path_issafe;
  write = write_ch;
  read = read_ch;
  read-write = λ c h. refl;
  write_plain = path_safe_plain;
}

abbrev pub query_alphabet : Alphabet
query_alphabet = record {
  safe = query_issafe;
  write = query_write_ch;
  read = query_read_ch;
  read-write = query_read-write;
  write_plain = query_safe_plain;
}

-- Both encoders of the file are undone by their decoders: `path_urlencode` by `urldecode`, and
-- `query_urlencode` by `query_urldecode`, for every text of bytes and whatever follows in memory.
pub urldecode-urlencode :
    (s after : Bytes)
    → All IsByte s
    → length (path_urlencode s) < word
    → length (query_urlencode s) < word
    → (urldecode (path_urlencode s ++ after) (length (path_urlencode s)) ≡ some s)
      × (query_urldecode (query_urlencode s ++ after) (length (query_urlencode s)) ≡ some s)
urldecode-urlencode s after h p q = (
  urldecode_impl-urlencode_impl path_alphabet s after h p,
  urldecode_impl-urlencode_impl query_alphabet s after h q,
)
