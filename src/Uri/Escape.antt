-- ===== src/Uri/Escape.antt =====
-- The percent encoding of uri.cc. A byte is a number below 256; `char` values from 128 on count as
-- neither alphanumeric nor hexadecimal, as in the C locale, also where `char` is signed and the call is
-- undefined.
pub mod Decoded
pub mod RoundTrip
use http_router.Base.{
  ℕ, zero, suc, ◌+◌, ◌-◌, ◌*◌, ◌/◌, ◌%◌, ◌≡◌, Bool, true, ◌&&◌, ◌||◌, Option, none, some, [], ◌∷◌,
  ◌++◌, Bytes, codes, length, get_or, ltb, leb, ◌==◌, if◌then◌else◌, isalnum, isxdigit, is_digit,
  sub64, ◌>>=◌,
}

abbrev pub issafe : ℕ → Bool
issafe c = isalnum c || c == b'-' || c == b'.' || c == b'_' || c == b'~'

abbrev pub query_issafe : ℕ → Bool
query_issafe c = issafe c || c == b' '

abbrev pub path_issafe : ℕ → Bool
path_issafe c = issafe c || c == b'+'

abbrev pub write_ch : ℕ → ℕ
write_ch c = c

abbrev pub query_write_ch : ℕ → ℕ
query_write_ch c = if c == b' ' then b'+' else c

unfoldable pub hexes : Bytes
hexes = codes "0123456789ABCDEF"

-- One round of the second loop: what it appends to `out`. `hexes[(c >> 4) & 0xF]` is the digit of
-- the high nibble, whatever the sign of `char`.
unfoldable pub encode_char : (ℕ → Bool) → (ℕ → ℕ) → ℕ → Bytes
encode_char safe write c =
    if safe c
    then write c ∷ []
    else b'%' ∷ get_or hexes (c / 16 % 16) 0 ∷ get_or hexes (c % 16) 0 ∷ []

unfoldable pub urlencode_impl : (ℕ → Bool) → (ℕ → ℕ) → Bytes → Bytes
urlencode_impl safe write [] = []
urlencode_impl safe write (c ∷ s) = encode_char safe write c ++ urlencode_impl safe write s

-- The first loop: the size to reserve.
unfoldable pub encoded_length : (ℕ → Bool) → Bytes → ℕ
encoded_length safe [] = 0
encoded_length safe (c ∷ s) = (if safe c then 1 else 3) + encoded_length safe s

abbrev pub path_urlencode : Bytes → Bytes
path_urlencode = urlencode_impl path_issafe write_ch

abbrev pub query_urlencode : Bytes → Bytes
query_urlencode = urlencode_impl query_issafe query_write_ch

abbrev pub read_ch : ℕ → ℕ
read_ch c = c

abbrev pub query_read_ch : ℕ → ℕ
query_read_ch c = if c == b'+' then b' ' else c

unfoldable pub hex : ℕ → ℕ
unfolding is_digit
hex c =
    if is_digit c
    then c - b'0'
    else if leb b'a' c && leb c b'f'
    then c - b'a' + 10
    else if leb b'A' c && leb c b'F'
    then c - b'A' + 10
    else 0

-- `(hex(a) << 4) | hex(b)`: the two nibbles do not overlap.
abbrev pub from_hex : ℕ → ℕ → ℕ
from_hex a b = hex a * 16 + hex b

abbrev push : ℕ → Option Bytes → Option Bytes
push c rest = do out ← rest; some (c ∷ out)

-- `in[i] == '%' && (i < in_len - 2)`, the subtraction in `size_t`
unfoldable pub opens : ℕ → ℕ → ℕ → Bool
opens in_len i c = c == b'%' && ltb i (sub64 in_len 2)

-- The loop from `i` on. The list is the memory from `in + i` on, which goes on behind the
-- `in_len` bytes of the text as far as the buffer does; `none` is a read past the buffer.
module _ (read : ℕ → ℕ) (in_len : ℕ) where
  unfoldable pub urldecode_from : ℕ → Bytes → Option Bytes
  urldecode_from i [] = if ltb i in_len then none else some []
  urldecode_from i (c ∷ []) =
      let single = push (read c) (urldecode_from (suc i) []) in
      if ltb i in_len then (if opens in_len i c then none else single) else some []
  urldecode_from i (c ∷ a ∷ []) =
      let single = push (read c) (urldecode_from (suc i) (a ∷ [])) in
      if ltb i in_len then (if opens in_len i c && isxdigit a then none else single) else some []
  urldecode_from i (c ∷ a ∷ b ∷ m) =
      let single = push (read c) (urldecode_from (suc i) (a ∷ b ∷ m)) in
      let escape = push (from_hex a b) (urldecode_from (suc (suc (suc i))) m) in
      if ltb i in_len
      then (if opens in_len i c && (isxdigit a && isxdigit b) then escape else single)
      else some []

-- `in` points to `memory`.
abbrev pub urldecode_impl : (ℕ → ℕ) → Bytes → ℕ → Option Bytes
urldecode_impl read memory in_len = urldecode_from read in_len 0 memory

abbrev pub urldecode : Bytes → ℕ → Option Bytes
urldecode = urldecode_impl read_ch

abbrev pub query_urldecode : Bytes → ℕ → Option Bytes
query_urldecode = urldecode_impl query_read_ch

-- A view `path` into a buffer that goes on with `after`.
abbrev pub decoded_path : Bytes → Bytes → Option Bytes
decoded_path path after = urldecode (path ++ after) (length path)
