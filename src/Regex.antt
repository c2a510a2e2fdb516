-- ===== src/Regex.antt =====
-- What the code uses of `std::regex`, with its ECMAScript grammar and `std::regex_match`: single bytes,
-- `.`, `[^...]` and `[...]` of single bytes, groups, `|`, `*`, `+` and `?` with their lazy forms,
-- `^`, `$` and `(?=...)`. An expression with more than that is not read: `none`.
pub mod Syntax
use http_router.Base.{
  ℕ, zero, suc, ◌+◌, ◌-◌, ◌*◌, Bool, true, false, not, ◌&&◌, ◌||◌, Option, none, some, List, [],
  ◌∷◌, ◌++◌, Bytes, codes, equal, length, take, leb, ◌==◌, if◌then◌else◌, ◌>>=◌, isalnum, ◌≡◌, refl,
}
use http_router.PathCompiler.Matcher.{Engine}
use http_router.Regex.Syntax.{
  Re, nothing, dot, begin, finish, chr, set, capture, ahead, join, either, repeat, Parsed,
  alternatives_at,
}

-- The submatches so far, the last one first
abbrev pub Caps : Type 0
Caps = List (ℕ × Bytes)

unfoldable pub submatch : ℕ → Caps → Bytes
submatch i [] = []
submatch i ((j, s) ∷ caps) = if j == i then s else submatch i caps

-- What follows an expression: from a place in the text, and the text from there on
abbrev pub Next : Type 0
Next = ℕ → Bytes → Caps → Option Caps

abbrev pub or_try : Option Caps → Option Caps → Option Caps
or_try none other = other
or_try (some caps) other = some caps

abbrev pub first_of : (lazy : Bool) → Option Caps → Option Caps → Option Caps
first_of lazy more stop = if lazy then or_try stop more else or_try more stop

-- `tolower` where case does not count
abbrev pub fold : Bool → ℕ → ℕ
fold icase c = if icase && (leb b'A' c && leb c b'Z') then c + 32 else c

abbrev pub is_in : Bool → List ℕ → ℕ → Bool
is_in icase [] c = false
is_in icase (x ∷ xs) c = fold icase x == fold icase c || is_in icase xs c

abbrev pub when_byte : (ℕ → Bool) → ℕ → Bytes → Caps → Next → Option Caps
when_byte test p [] caps next = none
when_byte test p (c ∷ s) caps next = if test c then next (suc p) s caps else none

abbrev pub when_end : Bytes → Option Caps → Option Caps
when_end [] found = found
when_end (c ∷ s) found = none

-- The rounds of `*`; a round that takes nothing is none.
unfoldable pub rounds :
    (ℕ → Bytes → Caps → Next → Option Caps)
    → (lazy : Bool) → ℕ
    → ℕ
    → Bytes
    → Caps
    → Next
    → Option Caps
rounds once lazy zero p s caps next = none
rounds once lazy (suc fuel) p s caps next =
    first_of lazy
      (once p s caps (λ q t caps'. if q == p then none else rounds once lazy fuel q t caps' next))
      (next p s caps)

-- Backtracking, in the order of the grammar
unfoldable pub run : Bool → Re → ℕ → Bytes → Caps → Next → Option Caps
unfolding rounds
run icase nothing p s caps next = next p s caps
run icase dot p s caps next = when_byte (λ c. not (c == b'\n' || c == b'\r')) p s caps next
run icase begin p s caps next = if p == 0 then next p s caps else none
run icase finish p s caps next = when_end s (next p s caps)
run icase (chr x) p s caps next = when_byte (λ c. fold icase x == fold icase c) p s caps next
run icase (set negated xs) p s caps next =
    when_byte (λ c. if negated then not (is_in icase xs c) else is_in icase xs c) p s caps next
run icase (capture i re) p s caps next =
    run icase re p s caps (λ q t caps'. next q t ((i, take (q - p) s) ∷ caps'))
run icase (ahead re) p s caps next = elim (run icase re p s caps (λ q t caps'. some caps')) [
  | none ↦ none
  | some caps' ↦ next p s caps'
]
run icase (join re other) p s caps next =
    run icase re p s caps (λ q t caps'. run icase other q t caps' next)
run icase (either re other) p s caps next =
    or_try (run icase re p s caps next) (run icase other p s caps next)
run icase (repeat once many lazy re) p s caps next =
    let loop : Next = λ q t caps'. rounds (run icase re) lazy (suc (length t)) q t caps' next in
    if many
    then (if once then run icase re p s caps loop else loop p s caps)
    else (if once
        then run icase re p s caps next
        else first_of lazy (run icase re p s caps next) (next p s caps))

pub record Regex : Type 0 where
  pub icase : Bool
  pub re : Re
  pub groups : ℕ

abbrev pub whole : Bool → Parsed → Option Regex
whole icase (some (re, n, [])) = some (record { icase = icase; re = re; groups = n })
whole icase _ = none

-- `std::regex`; every round of the reading takes a byte of the text, but for those that end a sequence.
unfoldable pub compile : (icase optimize : Bool) → Bytes → Option Regex
unfolding alternatives_at
compile icase optimize s = whole icase (alternatives_at (20 + 2 * length s) 0 s)

abbrev pub submatches : ℕ → ℕ → Caps → List Bytes
submatches i zero caps = []
submatches i (suc n) caps = submatch (suc i) caps ∷ submatches (suc i) n caps

abbrev pub at_end : Next
at_end p s caps = when_end s (some caps)

-- `std::regex_match`: the whole text, and the submatches of the groups
unfoldable pub regex_match : Regex → Bytes → Option (List Bytes)
unfolding run submatch
regex_match r s = elim (run r.icase r.re 0 s [] at_end) [
  | none ↦ none
  | some caps ↦ some (s ∷ submatches 0 r.groups caps)
]

abbrev pub ecma : Engine
ecma = record { Regex = Regex; compile = compile; regex_match = regex_match }
