-- ===== src/StaticFiles/Dates.antt =====
-- `format_date` of libs/static_files/src/static_files.cc, from what `gmtime` makes of a time, in years
-- from 1900 on.
pub mod Columns
use http_router.Base.{
  ℕ, ◌+◌, Option, none, some, List, [], ◌∷◌, ◌++◌, Bytes, codes, ltb, if◌then◌else◌, ◌>>=◌,
  get_elem?,
}
use http_router.Response.{decimal, digits}

-- `struct tm`
pub record Tm : Type 0 where
  pub tm_sec : ℕ
  pub tm_min : ℕ
  pub tm_hour : ℕ
  pub tm_mday : ℕ
  pub tm_mon : ℕ
  pub tm_year : ℕ
  pub tm_wday : ℕ

abbrev pub wday : List Bytes
wday =
    codes "Sun"
    ∷ codes "Mon"
    ∷ codes "Tue"
    ∷ codes "Wed"
    ∷ codes "Thu"
    ∷ codes "Fri"
    ∷ codes "Sat"
    ∷ []

abbrev pub month : List Bytes
month =
    codes "Jan"
    ∷ codes "Feb"
    ∷ codes "Mar"
    ∷ codes "Apr"
    ∷ codes "May"
    ∷ codes "Jun"
    ∷ codes "Jul"
    ∷ codes "Aug"
    ∷ codes "Sep"
    ∷ codes "Oct"
    ∷ codes "Nov"
    ∷ codes "Dec"
    ∷ []

-- `{:02}`
unfoldable pub padded : ℕ → Bytes
unfolding digits
padded n = if ltb n 10 then b'0' ∷ decimal n else decimal n

-- The text in front of the name of the month, and behind it
abbrev pub date_text : Bytes → Bytes → Tm → Bytes
date_text day mon tm =
    day
    ++ (codes ", "
        ++ (padded tm.tm_mday
            ++ (b' '
                ∷ (mon
                    ++ (b' '
                        ∷ (decimal (1900 + tm.tm_year)
                            ++ (b' '
                                ∷ (padded tm.tm_hour
                                    ++ (b':'
                                        ∷ (padded tm.tm_min
                                            ++ (b':' ∷ (padded tm.tm_sec ++ codes " GMT"))))))))))))

-- `none` is a name out of range.
unfoldable pub format_date : Tm → Option Bytes
unfolding padded digits
format_date tm = do
  day ← get_elem? wday tm.tm_wday
  mon ← get_elem? month tm.tm_mon
  some (date_text day mon tm)
