-- ===== src/MimeTypes/Listed.antt =====
-- Each row of the table gives its type.
use Prim.Native.String.{String}
use http_router.Base.{
  ℕ, zero, suc, ◌≡◌, refl, sym, ap, ◌∙◌, true, Option, none, some, List, [], ◌∷◌, ◌++◌, map, arith,
  Bytes, codes, all, get_elem?,
}
use http_router.MimeTypes.{ext_u32, ext_tmplt, keyed, array_of, extension, mime_type}
use http_router.MimeTypes.Table.{types}
use http_router.MimeTypes.Rows.{keyed-ascending, find_type-get_elem?}
use http_router.MimeTypes.Keys.{tolower, is_listed, ext_tmplt-packed, row-packed, packed-tolower}
use http_router.MimeTypes.Lookup.{is_row, rows_listed, found}

abbrev key_or_zero : Option ℕ → ℕ
key_or_zero o = elim o [ none ↦ 0 | some key ↦ key ]

four_key :
    (a b c d : ℕ) (more rest : Bytes)
    → all is_listed (tolower a ∷ tolower b ∷ tolower c ∷ tolower d ∷ []) ≡ true
    → ext_tmplt (a ∷ b ∷ c ∷ d ∷ more)
      ≡ some (key_or_zero (ext_tmplt (tolower a ∷ tolower b ∷ tolower c ∷ tolower d ∷ rest)))
four_key a b c d more rest h =
    let ((ha, hb, hc, hd), e) = packed-tolower a b c d h in
    ext_tmplt-packed a b c d more ha hb hc hd
    ∙ ap some (sym e ∙ ap key_or_zero (sym (row-packed _ _ _ _ rest h)))

view_key :
    (view behind : Bytes)
    → is_row (map tolower view ++ (0 ∷ [])) ≡ true
    → ext_tmplt (view ++ (0 ∷ behind))
      ≡ some (key_or_zero (ext_tmplt (map tolower view ++ (0 ∷ []))))
unfolding is_row tolower
view_key [] behind h = cc
view_key (_ ∷ []) behind h = cc
view_key (_ ∷ _ ∷ []) behind h = cc
view_key (a ∷ b ∷ c ∷ []) behind h = four_key a b c 0 behind [] h
view_key (a ∷ b ∷ c ∷ d ∷ more) behind h =
    four_key a b c d (more ++ (0 ∷ behind)) (map tolower more ++ (0 ∷ [])) h

get_elem?-map :
    (rows : List (String × String)) (i : ℕ) (e mime : String)
    → get_elem? rows i ≡ some (e, mime)
    → get_elem? (map keyed rows) i ≡ some (ext_u32 e, mime)
get_elem?-map [] i e mime h = cc
get_elem?-map (row ∷ rows) zero e mime h = cc
get_elem?-map (row ∷ rows) (suc i) e mime h = get_elem?-map rows i e mime h

row_at :
    (rows : List (String × String)) (i : ℕ) (e mime : String)
    → all (λ row. is_row (array_of row.0)) rows ≡ true
    → get_elem? rows i ≡ some (e, mime)
    → is_row (array_of e) ≡ true
row_at [] i e mime h k = cc
row_at (row ∷ rows) zero e mime h k = ground arith
row_at (row ∷ rows) (suc i) e mime h k = ground (arith, row_at rows i e mime)

ext_u32_lem : (e : String) → ext_u32 e ≡ key_or_zero (ext_tmplt (array_of e))
unfolding ext_u32
ext_u32_lem e = refl

-- A file whose extension is the one of a row, in upper or lower case, has the type of that row,
-- whatever stands in memory behind the extension. The rows of two letters, whose text has a zero for
-- the third one, are left out by this, since the extension of a file has none.
pub mime_type-row :
    (behind path : Bytes) (dot : ℕ) (view : Bytes) (i : ℕ) (e mime : String)
    → get_elem? types i ≡ some (e, mime)
    → extension path ≡ dot ∷ view
    → map tolower view ≡ codes e
    → mime_type behind path ≡ some (codes mime)
mime_type-row behind path dot view i e mime row ext same =
    let is : is_row (map tolower view ++ (0 ∷ [])) ≡ true =
      ap (λ t. is_row (t ++ (0 ∷ []))) same ∙ row_at types i e mime rows_listed row in
    found behind path dot view (ext_u32 e) ext (
      view_key view behind is
      ∙ ap (λ t. some (key_or_zero (ext_tmplt (t ++ (0 ∷ []))))) same
      ∙ ap some (sym (ext_u32_lem e)))
    ∙ ap (λ t. some (codes t))
        (find_type-get_elem? (map keyed types) i (ext_u32 e) mime keyed-ascending
          (get_elem?-map types i e mime row))
