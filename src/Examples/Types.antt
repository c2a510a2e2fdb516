-- ===== src/Examples/Types.antt =====
-- Types of files and dates.
use http_router.Base.{◌≡◌, refl, some, [], ◌∷◌, ◌++◌, map, arith, Bytes, codes, length, get_elem?}
use http_router.MimeTypes.{extension, mime_type}
use http_router.MimeTypes.Table.{types}
use http_router.MimeTypes.Keys.{tolower}
use http_router.MimeTypes.Lookup.{listed_type, mime_type-listed}
use http_router.MimeTypes.Listed.{mime_type-row}
use http_router.StaticFiles.Dates.{format_date}
use http_router.StaticFiles.Dates.Columns.{read_date, read_date-format_date}
use http_router.Examples.Files.{sunday, sunday-IsTm}

abbrev page : Bytes
page = codes "/srv/v1.2/a.Html"

page_extension : extension page ≡ codes ".Html"
unfolding extension
page_extension = refl

mime_type-listed_example :
    mime_type [] page ≡ some (codes (listed_type (codes "Html" ++ (0 ∷ [])) types))
mime_type-listed_example =
    mime_type-listed [] page b'.' (codes "Html") b'H' b't' b'm' b'l' (0 ∷ []) page_extension refl
      (omega arith)

html_row : get_elem? types 288 ≡ some ("html", "text/html")
unfolding types
html_row = refl

lower_case : map tolower (codes "Html") ≡ codes "html"
unfolding tolower
lower_case = refl

mime_type-row_example : mime_type [] page ≡ some (codes "text/html")
mime_type-row_example =
    mime_type-row [] page b'.' (codes "Html") 288 "html" "text/html" html_row page_extension
      lower_case

-- Two letters are read together with the memory behind them.
abbrev script : Bytes
script = codes "/srv/a.js"

script_type : mime_type (0 ∷ []) script ≡ some (codes "application/javascript")
unfolding mime_type
script_type = refl

script_type_lost : mime_type (b'x' ∷ []) script ≡ some (codes "application/octet-stream")
unfolding mime_type
script_type_lost = refl

read_date-format_date_example :
    (text : Bytes) × (format_date sunday ≡ some text)
    × (length text ≡ 29)
    × (read_date text ≡ sunday)
read_date-format_date_example = read_date-format_date sunday sunday-IsTm

sunday_text : format_date sunday ≡ some (codes "Sun, 06 Nov 1994 08:49:37 GMT")
unfolding format_date
sunday_text = refl
