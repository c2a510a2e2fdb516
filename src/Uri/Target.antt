-- ===== src/Uri/Target.antt =====
-- `split` of uri.cc: a request target into its path and its query.
use http_router.Base.{
  ℕ, zero, suc, ◌≡◌, refl, ap, ◌∙◌, Bool, true, ◌||◌, Option, none, some, [], ◌∷◌, ◌++◌, arith,
  Bytes, Free, find, length, take, drop, ◌==◌, if◌then◌else◌, take-append, drop-append, Bool-cases,
  inl, inr,
}

abbrev pub opens_query : ℕ → Bool
opens_query c = c == b'?' || c == b'#'

-- The `switch` in the loop returns at the first `?` or `#`. The code counts in an `int`: targets are
-- shorter than 2 ^ 31 bytes.
unfoldable pub find_query : Bytes → ℕ
find_query [] = 0
find_query (c ∷ s) = if opens_query c then 0 else suc (find_query s)

-- `substr(1, count)` of the text `?` followed by `s`, where `count` is the place of the first `#`
-- in the whole text, one more than its place in `s`; `npos` takes all.
abbrev pub substr_to : Option ℕ → Bytes → Bytes
substr_to none s = s
substr_to (some i) s = take (suc i) s

unfoldable pub query_of : Bytes → Bytes
query_of [] = []
query_of (c ∷ s) = if c == b'?' then substr_to (find b'#' s) s else []

unfoldable pub split : Bytes → Bytes × Bytes
unfolding query_of find_query
split target =
    let first = take (find_query target) target in (first, query_of (drop (length first) target))

-- A request target as it is put together.
abbrev pub render : Bytes → Option Bytes → Option Bytes → Bytes
render path none none = path
render path none (some fragment) = path ++ (b'#' ∷ fragment)
render path (some query) none = path ++ (b'?' ∷ query)
render path (some query) (some fragment) = path ++ (b'?' ∷ (query ++ (b'#' ∷ fragment)))

-- The query that `split` returns.
abbrev pub kept : Option Bytes → Option Bytes → Bytes
kept none fragment = []
kept (some query) none = query
kept (some query) (some fragment) = query ++ (b'#' ∷ [])

abbrev pub IsQuery : Option Bytes → Type 0
IsQuery none = Unit {0}
IsQuery (some query) = Free (λ c. c == b'#') query

find_query_stop :
    (path : Bytes) (c : ℕ) (s : Bytes)
    → Free opens_query path
    → opens_query c ≡ true
    → find_query (path ++ (c ∷ s)) ≡ length path
unfolding find_query
find_query_stop [] c s h e = ground arith
find_query_stop (p ∷ path) c s h e = ground (arith, find_query_stop path c s h.1 e)

find_query_end : (path : Bytes) → Free opens_query path → find_query path ≡ length path
unfolding find_query
find_query_end [] h = refl
find_query_end (p ∷ path) h = ground (arith, find_query_end path h.1)

find_stop :
    (query s : Bytes)
    → Free (λ c. c == b'#') query
    → find b'#' (query ++ (b'#' ∷ s)) ≡ some (length query)
unfolding find
find_stop [] s h = refl
find_stop (c ∷ query) s h = ground (arith, find_stop query s h.1)

find_none : (query : Bytes) → Free (λ c. c == b'#') query → find b'#' query ≡ none
unfolding find
find_none [] h = refl
find_none (c ∷ query) h = ground (arith, find_none query h.1)

take_past : (q s : Bytes) (c : ℕ) → take (suc (length q)) (q ++ (c ∷ s)) ≡ q ++ (c ∷ [])
take_past [] s c = refl
take_past (x ∷ q) s c = ap (◌∷◌ x) (take_past q s c)

split_at :
    (path : Bytes) (c : ℕ) (s : Bytes)
    → Free opens_query path
    → opens_query c ≡ true
    → split (path ++ (c ∷ s)) ≡ (path, query_of (c ∷ s))
unfolding split
split_at path c s h e =
    rw (find_query_stop path c s h e, take-append path (c ∷ s), drop-append path (c ∷ s))

take_all : (s : Bytes) → take (length s) s ≡ s
take_all [] = refl
take_all (c ∷ s) = ap (◌∷◌ c) (take_all s)

drop_all : (s : Bytes) → drop (length s) s ≡ []
drop_all [] = refl
drop_all (c ∷ s) = drop_all s

split_all : (path : Bytes) → Free opens_query path → split path ≡ (path, [])
unfolding split
split_all path h = rw (find_query_end path h, take_all path, drop_all path)

-- Where the path holds no `?` and no `#`, and the query no `#`, `split` gives back the path, and
-- the query up to its end; of a query that a fragment follows it keeps the `#` too. Without a `?`
-- the query is empty, whether a fragment follows or not.
pub split-render :
    (path : Bytes) (query fragment : Option Bytes)
    → Free opens_query path
    → IsQuery query
    → split (render path query fragment) ≡ (path, kept query fragment)
unfolding query_of
split-render path none none h k = split_all path h
split-render path none (some f) h k = split_at path b'#' f h refl
split-render path (some q) none h k =
    split_at path b'?' q h refl ∙ ap (λ t. (path, t)) (rw (find_none q k))
split-render path (some q) (some f) h k =
    split_at path b'?' (q ++ (b'#' ∷ f)) h refl
    ∙ ap (λ t. (path, t)) (rw (find_stop q f k) (take_past q f b'#'))

find_query-Free : (s : Bytes) → Free opens_query (take (find_query s) s)
unfolding find_query
find_query-Free [] = tt
find_query-Free (c ∷ s) = ground (arith, find_query-Free s)

take-length-take : (n : ℕ) (s : Bytes) → take (length (take n s)) s ≡ take n s
take-length-take zero s = refl
take-length-take (suc n) [] = refl
take-length-take (suc n) (c ∷ s) = ap (◌∷◌ c) (take-length-take n s)

take-drop : (n : ℕ) (s : Bytes) → take n s ++ drop (length (take n s)) s ≡ s
take-drop zero s = refl
take-drop (suc n) [] = refl
take-drop (suc n) (c ∷ s) = ap (◌∷◌ c) (take-drop n s)

-- Nothing, or a text that begins with a query or a fragment
abbrev pub BeginsQuery : Bytes → Type 0
BeginsQuery [] = Unit {0}
BeginsQuery (c ∷ s) = (c == b'?' || c == b'#') ≡ true

rest-BeginsQuery : (s : Bytes) → BeginsQuery (drop (length (take (find_query s) s)) s)
unfolding find_query
rest-BeginsQuery [] = tt
rest-BeginsQuery (c ∷ s) = elim (Bool-cases (opens_query c)) [
  | inl e ↦ rw e e
  | inr e ↦ rw e (rest-BeginsQuery s)
]

-- Whatever the target: the path holds no `?` and no `#`, and it is where the target begins, up to the
-- first of those bytes or to the end.
pub split_path :
    (target : Bytes)
    → Free (λ c. c == b'?' || c == b'#') (split target).0
      × ((rest : Bytes) × ((split target).0 ++ rest ≡ target) × BeginsQuery rest)
unfolding split
split_path target =
    (find_query-Free target, (_, take-drop (find_query target) target, rest-BeginsQuery target))
