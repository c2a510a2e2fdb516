-- ===== src/MimeTypes/Lookup.antt =====
-- The type that a name gets is that of the row with the same letters.
use Prim.Native.String.{String}
use http_router.Base.{
  ℕ, ◌≡◌, refl, sym, ap, ◌∙◌, Bool, true, false, ◌&&◌, none, some, List, [], ◌∷◌, ◌++◌, map, arith,
  Bytes, codes, equal, all, take, ◌==◌, if◌then◌else◌, ◌>>=◌,
}
use http_router.MimeTypes.{
  ext_u32, ext_tmplt, keyed, create_types, array_of, extension, key_of, find_type, mime_type,
}
use http_router.MimeTypes.Table.{types}
use http_router.MimeTypes.Rows.{create_types-keyed}
use http_router.MimeTypes.Keys.{
  tolower, is_listed, packed, ext_tmplt-packed, row-packed, packed-same, AreAscii,
}

unfoldable pub is_row : Bytes → Bool
unfolding is_listed
is_row (a ∷ b ∷ c ∷ d ∷ e) = all is_listed (a ∷ b ∷ c ∷ d ∷ [])
is_row _ = false

pub rows_listed : all (λ row. is_row (array_of row.0)) types ≡ true
unfolding is_row is_listed types
rows_listed = refl

-- The first four bytes are the letters of the row, case aside.
unfoldable pub same_letters : Bytes → Bytes → Bool
unfolding tolower equal
same_letters view e = equal (map tolower (take 4 view)) (take 4 e)

-- The type by the table as it is listed, without numbers
unfoldable pub listed_type : Bytes → List (String × String) → String
unfolding same_letters
listed_type view [] = "application/octet-stream"
listed_type view ((e, mime) ∷ rows) =
    if same_letters view (array_of e) then mime else listed_type view rows

both : (p q : Bool) → p && q ≡ true → (p ≡ true) × (q ≡ true)
both p q h = ground arith

module _ (a b c d : ℕ) (more : Bytes) (h : AreAscii a b c d) where
  row-same :
      (e : Bytes)
      → is_row e ≡ true
      → (elim (ext_tmplt e) [ none ↦ 0 | some key ↦ key ] == packed a b c d)
        ≡ same_letters (a ∷ b ∷ c ∷ d ∷ more) e
  unfolding is_row same_letters
  row-same (a' ∷ b' ∷ c' ∷ d' ∷ e) k =
      rw (row-packed a' b' c' d' e k) (packed-same a b c d a' b' c' d' h k)
  row-same [] k = cc
  row-same (_ ∷ []) k = cc
  row-same (_ ∷ _ ∷ []) k = cc
  row-same (_ ∷ _ ∷ _ ∷ []) k = cc

  find_type-listed :
      (rows : List (String × String))
      → all (λ row. is_row (array_of row.0)) rows ≡ true
      → find_type (packed a b c d) (map keyed rows) ≡ listed_type (a ∷ b ∷ c ∷ d ∷ more) rows
  unfolding find_type listed_type ext_u32
  find_type-listed [] k = refl
  find_type-listed ((e, mime) ∷ rows) k =
      let (first, others) = both _ _ k in
      λ i. if row-same (array_of e) first i then mime else find_type-listed rows others i

mime_type_lem :
    (behind path : Bytes)
    → mime_type behind path
      ≡ key_of behind (extension path) >>= (λ key. some (codes (find_type key create_types)))
unfolding mime_type
mime_type_lem behind path = refl

key_of_lem :
    (behind : Bytes) (dot : ℕ) (view : Bytes)
    → key_of behind (dot ∷ view) ≡ ext_tmplt (view ++ (0 ∷ behind))
unfolding key_of
key_of_lem behind dot view = refl

pub mime_type-key :
    (behind path : Bytes) (key : ℕ)
    → key_of behind (extension path) ≡ some key
    → mime_type behind path ≡ some (codes (find_type key create_types))
mime_type-key behind path key e =
    mime_type_lem behind path ∙ ap (λ o. o >>= (λ key. some (codes (find_type key create_types)))) e

pub found :
    (behind path : Bytes) (dot : ℕ) (view : Bytes) (key : ℕ)
    → extension path ≡ dot ∷ view
    → ext_tmplt (view ++ (0 ∷ behind)) ≡ some key
    → mime_type behind path ≡ some (codes (find_type key (map keyed types)))
found behind path dot view key e f =
    mime_type-key behind path key (ap (key_of behind) e ∙ key_of_lem behind dot view ∙ f)
    ∙ ap (λ rows. some (codes (find_type key rows))) create_types-keyed

-- For a file with an extension whose first four bytes in memory are ASCII: the type is that of the
-- first row of the table with the same four letters, upper and lower case alike, and
-- `application/octet-stream` where there is none. The four bytes are those of the extension, of the
-- zero behind it, and of whatever stands in memory behind that.
pub mime_type-listed :
    (behind path : Bytes) (dot : ℕ) (view : Bytes) (a b c d : ℕ) (more : Bytes)
    → extension path ≡ dot ∷ view
    → view ++ (0 ∷ behind) ≡ a ∷ b ∷ c ∷ d ∷ more
    → AreAscii a b c d
    → mime_type behind path ≡ some (codes (listed_type (view ++ (0 ∷ behind)) types))
mime_type-listed behind path dot view a b c d more e f (ha, hb, hc, hd) =
    found behind path dot view (packed a b c d) e
      (ap ext_tmplt f ∙ ext_tmplt-packed a b c d more ha hb hc hd)
    ∙ ap (λ t. some (codes t))
        (find_type-listed a b c d more (ha, hb, hc, hd) types rows_listed
          ∙ ap (λ memory. listed_type memory types) (sym f))
