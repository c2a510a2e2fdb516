-- ===== src/UiText.antt =====
-- `ui_to_utf8` of libs/http-router/src/server/beast.cc, as it is on Windows. The two conversions of
-- the system are a parameter; a buffer is its cells on the stack or on the heap, and `none` is an
-- access past their end.
pub mod Buffers
pub mod Converted
use http_router.Base.{
  ℕ, zero, suc, ◌%◌, ◌^◌, Bool, true, false, not, Option, none, some, List, [], ◌∷◌, Bytes, length,
  take, leb, ◌==◌, if◌then◌else◌, ◌>>=◌,
}

-- `FUNC(CP, 0, data, length, output, size)`: what it returns, 0 for a failure, and what it writes
abbrev pub Convert : Type 0
Convert = List ℕ → ℕ → ℕ × List ℕ

pub record Win32 : Type 0 where
  pub MultiByteToWideChar : Convert
  pub WideCharToMultiByte : Convert

-- `static_cast<int>` of a size, where it stays positive
abbrev pub to_int : ℕ → ℕ
to_int size = size % 2 ^ 32

-- `win32_conv<Char>::calc`; with no output the size is 0.
abbrev pub calc : Convert → List ℕ → ℕ → ℕ × List ℕ
calc convert input size = convert (take (to_int (length input)) input) (to_int size)

pub record CharBuff : Type 0 where
  pub stack : List ℕ
  pub heap : Option (List ℕ)
  pub used : ℕ

abbrev pub zeros : ℕ → List ℕ
zeros zero = []
zeros (suc n) = 0 ∷ zeros n

-- `char_buff() = default`
abbrev pub empty_buff : ℕ → CharBuff
empty_buff count = record { stack = zeros count; heap = none; used = 0 }

abbrev pub cells : CharBuff → List ℕ
cells buff = elim buff.heap [ none ↦ buff.stack | some array ↦ array ]

abbrev pub with_cells : List ℕ → CharBuff → CharBuff
with_cells array buff = elim buff.heap [
  | none ↦ record buff { stack = array }
  | some old ↦ record buff { heap = some array }
]

-- `data()[index] = ch`
unfoldable pub put_at : ℕ → ℕ → List ℕ → Option (List ℕ)
put_at index ch [] = none
put_at zero ch (x ∷ xs) = some (ch ∷ xs)
put_at (suc index) ch (x ∷ xs) = do rest ← put_at index ch xs; some (x ∷ rest)

-- What a conversion writes to `data()`
unfoldable pub overwrite : List ℕ → List ℕ → Option (List ℕ)
overwrite [] xs = some xs
overwrite (ch ∷ chs) [] = none
overwrite (ch ∷ chs) (x ∷ xs) = do rest ← overwrite chs xs; some (ch ∷ rest)

-- `char_buff(size)`, and the buffer before its last statement
abbrev pub sized_buff : ℕ → ℕ → CharBuff
sized_buff count size = record {
  stack = zeros count;
  heap = if leb count size then some (zeros (suc size)) else none;
  used = size;
}

unfoldable pub new_buff : ℕ → ℕ → Option CharBuff
unfolding put_at
new_buff count size = do
  array ← put_at size 0 (cells (sized_buff count size))
  some (with_cells array (sized_buff count size))

abbrev pub view : CharBuff → List ℕ
view buff = take buff.used (cells buff)

unfoldable pub conv_sized : Convert → ℕ → List ℕ → ℕ → Option (Bool × CharBuff)
unfolding new_buff overwrite
conv_sized convert count input size = do
  result ← new_buff count size
  array ← overwrite (calc convert input size).1 (cells result)
  some (not ((calc convert input size).0 == 0), with_cells array result)

-- `conv`
unfoldable pub conv : Convert → ℕ → List ℕ → CharBuff → Option (Bool × CharBuff)
unfolding conv_sized
conv convert count input result =
    if (calc convert input 0).0 == 0
    then some (false, result)
    else conv_sized convert count input (calc convert input 0).0

-- `small_size`
abbrev pub small_size : ℕ
small_size = 200

-- The two returns behind a conversion
abbrev pub view_or : Bytes → Bool × CharBuff → Bytes
view_or msg (converted, buff) = if converted then view buff else msg

unfoldable pub narrowed : Win32 → Bytes → Bool × CharBuff → Option Bytes
unfolding conv
narrowed win32 msg (false, wide) = some msg
narrowed win32 msg (true, wide) = do
  narrow ← conv win32.WideCharToMultiByte small_size (view wide) (empty_buff small_size)
  some (view_or msg narrow)

unfoldable pub ui_to_utf8 : Win32 → Bytes → Option Bytes
unfolding narrowed
ui_to_utf8 win32 msg = do
  wide ← conv win32.MultiByteToWideChar small_size msg (empty_buff small_size)
  narrowed win32 msg wide
