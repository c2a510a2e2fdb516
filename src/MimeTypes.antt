-- ===== src/MimeTypes.antt =====
-- libs/static_files/src/static_files_types.cc: the type of a file, by the extension of its name.
pub mod Table
pub mod Rows
pub mod Keys
pub mod Lookup
pub mod Listed
use Prim.Native.Nat.{bit_or}
use Prim.Native.String.{String}
use text.Mathlib.Text as Text
use http_router.Base.{
  ℕ, zero, suc, ◌+◌, ◌-◌, ◌*◌, ◌%◌, ◌^◌, Bool, ◌&&◌, ◌||◌, Option, none, some, List, [], ◌∷◌, ◌++◌,
  map, Bytes, codes, equal, ltb, ◌==◌, if◌then◌else◌, ◌>>=◌,
}
use http_router.MimeTypes.Table.{types}

-- `ch` as a `uint32_t`: a `char` from 128 on is negative, and is below 'a' then.
unfoldable pub letter : ℕ → ℕ
letter c =
    if c == 0
    then 0
    else if ltb 127 c
    then (c + 32 + 2 ^ 32 - 256) % 2 ^ 32
    else if ltb c b'a'
    then c + 32
    else c

-- The rounds of the loop of `ext_tmplt`; `none` is a read past the end of the memory.
unfoldable pub ext_rounds : ℕ → ℕ → ℕ → Bytes → Option ℕ
unfolding letter
ext_rounds zero shl result e = some result
ext_rounds (suc more) shl result [] = none
ext_rounds (suc more) shl result (c ∷ e) =
    ext_rounds more (shl - 8) (bit_or result (letter c * 2 ^ shl % 2 ^ 32)) e

-- The memory at `e`
unfoldable pub ext_tmplt : Bytes → Option ℕ
unfolding ext_rounds
ext_tmplt e = ext_rounds 4 24 0 e

-- The array that a literal stands for ends in a zero. One of less than four elements would not compile.
abbrev pub array_of : String → Bytes
array_of e = codes e ++ (0 ∷ [])

unfoldable pub ext_u32 : String → ℕ
unfolding ext_tmplt
ext_u32 e = elim (ext_tmplt (array_of e)) [ none ↦ 0 | some key ↦ key ]

-- `std::sort` by `<` of pairs
unfoldable pub is_less : ℕ × String → ℕ × String → Bool
is_less (key, mime) (key', mime') =
    ltb key key' || (key == key' && Text.is_lt (Prim.Native.String.compare mime mime'))

unfoldable pub insert : ℕ × String → List (ℕ × String) → List (ℕ × String)
unfolding is_less
insert row [] = row ∷ []
insert row (other ∷ rows) =
    if is_less other row then other ∷ insert row rows else row ∷ other ∷ rows

unfoldable pub sort : List (ℕ × String) → List (ℕ × String)
unfolding insert
sort [] = []
sort (row ∷ rows) = insert row (sort rows)

abbrev pub keyed : String × String → ℕ × String
keyed (e, mime) = (ext_u32 e, mime)

unfoldable pub create_types : List (ℕ × String)
unfolding types ext_u32 sort
create_types = sort (map keyed types)

-- What stands behind the last byte of the kind
unfoldable pub behind_last : ℕ → Bytes → Bytes → Bytes
behind_last ch best [] = best
behind_last ch best (c ∷ s) = behind_last ch (if c == ch then s else best) s

-- `path::filename` and `path::extension`, on a system where `/` is the separator
unfoldable pub filename : Bytes → Bytes
unfolding behind_last
filename path = behind_last b'/' path path

unfoldable pub last_dot : Bytes → Bytes → Bytes
last_dot best [] = best
last_dot best (c ∷ s) = last_dot (if c == b'.' then c ∷ s else best) s

unfoldable pub extension_of : Bytes → Bytes
unfolding last_dot equal
extension_of [] = []
extension_of (c ∷ s) = if equal (c ∷ s) (codes "..") then [] else last_dot [] s

unfoldable pub extension : Bytes → Bytes
unfolding filename extension_of
extension path = extension_of (filename path)

-- The extension without its dot, as a number; `behind` is what stands in memory behind the zero that
-- ends the copy of it.
unfoldable pub key_of : Bytes → Bytes → Option ℕ
unfolding ext_tmplt
key_of behind [] = some 0
key_of behind (dot ∷ view) = ext_tmplt (view ++ (0 ∷ behind))

-- The loop over `mimes`
unfoldable pub find_type : ℕ → List (ℕ × String) → String
find_type key [] = "application/octet-stream"
find_type key ((ext, mime) ∷ mimes) = if ext == key then mime else find_type key mimes

unfoldable pub mime_type : Bytes → Bytes → Option Bytes
unfolding key_of extension find_type create_types
mime_type behind path = do
  key ← key_of behind (extension path)
  some (codes (find_type key create_types))
