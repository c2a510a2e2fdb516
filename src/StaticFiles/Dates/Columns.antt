-- ===== src/StaticFiles/Dates/Columns.antt =====
-- That a date can be read back from its columns.
use http_router.Base.{
  ℕ, zero, suc, ◌+◌, ◌-◌, ◌*◌, ◌/◌, ◌%◌, ◌<◌, ◌≡◌, refl, ap, ◌∙◌, true, some, List, [], ◌∷◌, ◌++◌,
  map, arith, Bytes, codes, equal, equal_iff, if◌then◌else◌, ◌>>=◌, get_elem?, length, take, drop,
  passes_run, passes_run-inside,
}
use http_router.Response.{decimal, digits}
use http_router.StaticFiles.Dates.{Tm, wday, month, padded, date_text, format_date}

-- What the C library says of a broken down time, in years of four digits
pub record IsTm (tm : Tm) : Type 0 where
  pub sec : tm.tm_sec < 61
  pub min : tm.tm_min < 60
  pub hour : tm.tm_hour < 24
  pub mday : tm.tm_mday < 32
  pub mon : tm.tm_mon < 12
  pub year : tm.tm_year < 8100
  pub wday : tm.tm_wday < 7

-- The names of the days and of the months in an HTTP date, as RFC 7231 has them
abbrev day_names : List Bytes
day_names = map codes ("Sun" ∷ "Mon" ∷ "Tue" ∷ "Wed" ∷ "Thu" ∷ "Fri" ∷ "Sat" ∷ [])

abbrev month_names : List Bytes
month_names = map codes (
    "Jan" ∷ "Feb" ∷ "Mar" ∷ "Apr" ∷ "May" ∷ "Jun" ∷ "Jul" ∷ "Aug" ∷ "Sep" ∷ "Oct" ∷ "Nov" ∷ "Dec"
    ∷ [])

-- The place of a name
index_of : Bytes → List Bytes → ℕ
unfolding equal
index_of name [] = 0
index_of name (other ∷ names) = if equal other name then 0 else suc (index_of name names)

-- A number in decimal digits, the most significant one first
number : ℕ → Bytes → ℕ
number n [] = n
number n (c ∷ s) = number (n * 10 + (c - 48)) s

column : ℕ → ℕ → Bytes → Bytes
column start count text = take count (drop start text)

-- The fields of an HTTP date, by the columns in which they stand
unfoldable pub read_date : Bytes → Tm
unfolding index_of number column
read_date text = record {
  tm_sec = number 0 (column 23 2 text);
  tm_min = number 0 (column 20 2 text);
  tm_hour = number 0 (column 17 2 text);
  tm_mday = number 0 (column 5 2 text);
  tm_mon = index_of (column 8 3 text) month_names;
  tm_year = number 0 (column 12 4 text) - 1900;
  tm_wday = index_of (column 0 3 text) day_names;
}

two : ℕ → Bytes
two n = (48 + n / 10) ∷ (48 + n % 10) ∷ []

two_digits : passes_run (λ n. equal (padded n) (two n)) 0 61 ≡ true
unfolding passes_run equal padded two
two_digits = refl

padded-two : (n : ℕ) → n < 61 → padded n ≡ two n
padded-two n h =
    (equal_iff _ _).0 (passes_run-inside _ 0 61 n (omega arith) (omega arith) two_digits)

four : ℕ → Bytes
four n = (48 + n / 1000) ∷ (48 + n / 100 % 10) ∷ (48 + n / 10 % 10) ∷ (48 + n % 10) ∷ []

four_digits : passes_run (λ n. equal (decimal (1900 + n)) (four (1900 + n))) 0 8100 ≡ true
unfolding passes_run equal digits four
four_digits = refl

decimal-four : (n : ℕ) → n < 8100 → decimal (1900 + n) ≡ four (1900 + n)
decimal-four n h =
    (equal_iff _ _).0 (passes_run-inside _ 0 8100 n (omega arith) (omega arith) four_digits)

number-two : (n : ℕ) → n < 61 → number 0 (two n) ≡ n
unfolding number two
number-two n h = omega arith

number-four : (n : ℕ) → n < 8100 → number 0 (four (1900 + n)) - 1900 ≡ n
unfolding number four
number-four n h = omega arith

-- The names printed have three letters, and stand at the same place of the names meant.
abbrev IsName : (printed names : List Bytes) → ℕ → Type 0
IsName printed names n =
    (a b c : ℕ) × (get_elem? printed n ≡ some (a ∷ b ∷ c ∷ []))
    × (index_of (a ∷ b ∷ c ∷ []) names ≡ n)

wday-IsName : (n : ℕ) → n < 7 → IsName wday day_names n
unfolding index_of
wday-IsName zero h = (_, _, _, refl, refl)
wday-IsName (suc zero) h = (_, _, _, refl, refl)
wday-IsName (suc (suc zero)) h = (_, _, _, refl, refl)
wday-IsName (suc (suc (suc zero))) h = (_, _, _, refl, refl)
wday-IsName (suc (suc (suc (suc zero)))) h = (_, _, _, refl, refl)
wday-IsName (suc (suc (suc (suc (suc zero))))) h = (_, _, _, refl, refl)
wday-IsName (suc (suc (suc (suc (suc (suc zero)))))) h = (_, _, _, refl, refl)
wday-IsName (suc (suc (suc (suc (suc (suc (suc n))))))) h = absurd (omega arith)

month-IsName : (n : ℕ) → n < 12 → IsName month month_names n
unfolding index_of
month-IsName zero h = (_, _, _, refl, refl)
month-IsName (suc zero) h = (_, _, _, refl, refl)
month-IsName (suc (suc zero)) h = (_, _, _, refl, refl)
month-IsName (suc (suc (suc zero))) h = (_, _, _, refl, refl)
month-IsName (suc (suc (suc (suc zero)))) h = (_, _, _, refl, refl)
month-IsName (suc (suc (suc (suc (suc zero))))) h = (_, _, _, refl, refl)
month-IsName (suc (suc (suc (suc (suc (suc zero)))))) h = (_, _, _, refl, refl)
month-IsName (suc (suc (suc (suc (suc (suc (suc n))))))) h = summer n (omega arith)
  where
    summer : (n : ℕ) → n < 5 → IsName month month_names (suc (suc (suc (suc (suc (suc (suc n)))))))
    summer zero h = (_, _, _, refl, refl)
    summer (suc zero) h = (_, _, _, refl, refl)
    summer (suc (suc zero)) h = (_, _, _, refl, refl)
    summer (suc (suc (suc zero))) h = (_, _, _, refl, refl)
    summer (suc (suc (suc (suc zero)))) h = (_, _, _, refl, refl)
    summer (suc (suc (suc (suc (suc n))))) h = absurd (omega arith)

-- The text, its numbers written out
plain : ℕ → ℕ → ℕ → ℕ → ℕ → ℕ → Tm → Bytes
plain a b c x y z tm =
    a
    ∷ b
    ∷ c
    ∷ (codes ", "
        ++ (two tm.tm_mday
            ++ (b' '
                ∷ x
                ∷ y
                ∷ z
                ∷ b' '
                ∷ (four (1900 + tm.tm_year)
                    ++ (b' '
                        ∷ (two tm.tm_hour
                            ++ (b':'
                                ∷ (two tm.tm_min ++ (b':' ∷ (two tm.tm_sec ++ codes " GMT"))))))))))

date_text-plain :
    (a b c x y z : ℕ) (tm : Tm)
    → IsTm tm
    → date_text (a ∷ b ∷ c ∷ []) (x ∷ y ∷ z ∷ []) tm ≡ plain a b c x y z tm
unfolding plain
date_text-plain a b c x y z tm h =
    rw
      (
        padded-two tm.tm_mday (omega (arith, h.mday)),
        decimal-four tm.tm_year h.year,
        padded-two tm.tm_hour (omega (arith, h.hour)),
        padded-two tm.tm_min (omega (arith, h.min)),
        padded-two tm.tm_sec h.sec,
      )
      refl

read_plain :
    (a b c x y z : ℕ) (tm : Tm)
    → IsTm tm
    → index_of (a ∷ b ∷ c ∷ []) day_names ≡ tm.tm_wday
    → index_of (x ∷ y ∷ z ∷ []) month_names ≡ tm.tm_mon
    → read_date (plain a b c x y z tm) ≡ tm
unfolding read_date plain two four
read_plain a b c x y z tm h e f = λ i. record {
  tm_sec = number-two tm.tm_sec h.sec i;
  tm_min = number-two tm.tm_min (omega (arith, h.min)) i;
  tm_hour = number-two tm.tm_hour (omega (arith, h.hour)) i;
  tm_mday = number-two tm.tm_mday (omega (arith, h.mday)) i;
  tm_mon = f i;
  tm_year = number-four tm.tm_year h.year i;
  tm_wday = e i;
}

format_date_lem :
    (tm : Tm) (day mon : Bytes)
    → get_elem? wday tm.tm_wday ≡ some day
    → get_elem? month tm.tm_mon ≡ some mon
    → format_date tm ≡ some (date_text day mon tm)
unfolding format_date
format_date_lem tm day mon e f =
    ap (λ o. o >>= (λ d. get_elem? month tm.tm_mon >>= (λ m. some (date_text d m tm)))) e
    ∙ ap (λ o. o >>= (λ m. some (date_text day m tm))) f

-- For every broken down time that the C library makes, in a year from 1900 to 9999: a date is
-- printed, it has the 29 bytes of an HTTP date, and each field of the time can be read back from the
-- columns in which it stands, with the names of the days and months that RFC 7231 gives.
pub read_date-format_date :
    (tm : Tm)
    → IsTm tm
    → (text : Bytes) × (format_date tm ≡ some text) × (length text ≡ 29) × (read_date text ≡ tm)
unfolding plain two four
read_date-format_date tm h =
    let (a, b, c, day, e) = wday-IsName tm.tm_wday h.wday in
    let (x, y, z, mon, f) = month-IsName tm.tm_mon h.mon in
    (
      plain a b c x y z tm,
      format_date_lem tm (a ∷ b ∷ c ∷ []) (x ∷ y ∷ z ∷ []) day mon
          ∙ ap some (date_text-plain a b c x y z tm h),
      refl,
      read_plain a b c x y z tm h e f,
    )
