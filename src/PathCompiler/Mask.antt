-- ===== src/PathCompiler/Mask.antt =====
-- `parse_matcher`: what `path_regex` finds in a mask, and the tokens made of it. The expression is
-- written out as a scanner: none of its parts can match in two ways, so what a search for it finds
-- at a place is decided byte by byte.
pub mod Total
pub mod Tokens
use http_router.Base.{
  ℕ, zero, suc, ◌+◌, Bool, true, false, not, ◌&&◌, ◌||◌, Option, none, some, List, [], ◌∷◌, ◌++◌,
  Bytes, codes, length, equal, ◌==◌, if◌then◌else◌, ◌>>=◌, isalnum,
}
use http_router.PathCompiler.Key.{Key, KeyName, index, text, as_string, make_key, set_flags}
use http_router.PathCompiler.Escape.{escape_string, escape_group, one_of}

-- `\w`, and `.`, which is no end of a line
unfoldable pub is_word : ℕ → Bool
unfolding isalnum
is_word c = isalnum c || c == b'_'

abbrev pub is_dot : ℕ → Bool
is_dot c = not (c == b'\n' || c == b'\r')

abbrev read_one : ℕ → Bytes × Bytes → Bytes × Bytes
read_one c (run, rest) = (c ∷ run, rest)

-- `\w+` and what is behind it
unfoldable pub word_run : Bytes → Bytes × Bytes
unfolding is_word
word_run [] = ([], [])
word_run (c ∷ s) = let more = read_one c (word_run s) in if is_word c then more else ([], c ∷ s)

-- `(?:\\.|[^\\()])+`
unfoldable pub inner_run : Bytes → Bytes × Bytes
unfolding one_of
inner_run [] = ([], [])
inner_run (c ∷ []) = if one_of (codes "\\()") c then ([], c ∷ []) else (c ∷ [], [])
inner_run (c ∷ d ∷ s) =
    let plain = read_one c (inner_run (d ∷ s)) in
    let escaped = read_one c (read_one d (inner_run s)) in
    if c == b'\\'
    then (if is_dot d then escaped else ([], c ∷ d ∷ s))
    else if one_of (codes "()") c
    then ([], c ∷ d ∷ s)
    else plain

abbrev closed : Bytes × Bytes → Option (Bytes × Bytes)
closed ([], rest) = none
closed (c ∷ run, []) = none
closed (c ∷ run, d ∷ rest) = if d == b')' then some (c ∷ run, rest) else none

-- `\(` ... `\)` around the run
unfoldable pub group_at : Bytes → Option (Bytes × Bytes)
unfolding inner_run
group_at [] = none
group_at (c ∷ s) = if c == b'(' then closed (inner_run s) else none

-- `(?: ... )?`: nothing is captured where it fails.
abbrev pub or_nothing : Option (Bytes × Bytes) → Bytes → Bytes × Bytes
or_nothing none s = ([], s)
or_nothing (some found) s = found

-- `([+*?])?`
unfoldable pub modifier_at : Bytes → Bytes × Bytes
unfolding one_of
modifier_at [] = ([], [])
modifier_at (c ∷ s) = if one_of (codes "+*?") c then (c ∷ [], s) else ([], c ∷ s)

-- The submatches 2 to 7; one that took no part is empty.
pub record Found : Type 0 where
  pub prefix : Bytes
  pub name : Bytes
  pub capture : Bytes
  pub group : Bytes
  pub modifier : Bytes
  pub asterisk : Bool

abbrev with_modifier : Bytes → Bytes → Bytes → Bytes → Bytes × Bytes → Found × Bytes
with_modifier prefix name capture group (modifier, rest) = (
  record {
    prefix = prefix;
    name = name;
    capture = capture;
    group = group;
    modifier = modifier;
    asterisk = false;
  },
  rest,
)

-- `\:(\w+)(?:\( ... \))?`, behind the colon
unfoldable pub named_at : Bytes → Bytes × Bytes → Option (Found × Bytes)
named_at prefix ([], rest) = none
named_at prefix (c ∷ name, rest) =
    let (capture, behind) = or_nothing (group_at rest) rest in
    some (with_modifier prefix (c ∷ name) capture [] (modifier_at behind))

grouped_at : Bytes → Option (Bytes × Bytes) → Option (Found × Bytes)
grouped_at prefix none = none
grouped_at prefix (some (group, rest)) = some (with_modifier prefix [] [] group (modifier_at rest))

abbrev star : Bytes → Found
star prefix = record {
  prefix = prefix;
  name = [];
  capture = [];
  group = [];
  modifier = [];
  asterisk = true;
}

-- The parameter behind its prefix
unfoldable pub body_at : Bytes → Bytes → Option (Found × Bytes)
unfolding named_at grouped_at group_at modifier_at word_run
body_at prefix [] = none
body_at prefix (c ∷ s) =
    if c == b':'
    then named_at prefix (word_run s)
    else if c == b'('
    then grouped_at prefix (group_at (c ∷ s))
    else if c == b'*'
    then some (star prefix, s)
    else none

pub data Match : Type 0 where
  escaped : ℕ → Match
  param : Found → Match

abbrev as_param : Option (Found × Bytes) → Option (Match × Bytes)
as_param none = none
as_param (some (found, rest)) = some (param found, rest)

escape_at : Bytes → Option (Match × Bytes)
escape_at [] = none
escape_at (d ∷ s) = if is_dot d then some (escaped d, s) else none

-- What `path_regex` matches at the head of a text, and the text behind the match.
unfoldable pub match_at : Bytes → Option (Match × Bytes)
unfolding body_at escape_at
match_at [] = none
match_at (c ∷ s) =
    if c == b'\\'
    then escape_at s
    else if c == b'/' || c == b'.'
    then as_param (body_at (c ∷ []) s)
    else as_param (body_at [] (c ∷ s))

pub record Scan : Type 0 where
  pub out : List Key
  pub path : Bytes
  pub key : ℕ

-- `if (!path.empty()) out.push_back(key::as_string(std::move(path)));`
abbrev pub flush : Bytes → List Key → List Key
flush [] out = out
flush (c ∷ path) out = out ++ (as_string (c ∷ path) ∷ [])

abbrev pub or_else : Bytes → Bytes → Bytes
or_else [] other = other
or_else (c ∷ s) other = c ∷ s

abbrev pub is_empty : Bytes → Bool
is_empty [] = true
is_empty (c ∷ s) = false

-- `std::string{1, mask[index]}` is the text of the byte 1 and of the next byte: with a list in
-- braces, the constructor from a list of characters is taken.
abbrev pub next_of : Bytes → Bytes
next_of [] = []
next_of (c ∷ rest) = 1 ∷ c ∷ []

unfoldable pub pattern_of : Found → Bytes → Bytes
pattern_of f delimiter = elim (or_else f.capture f.group) [
  | [] ↦ if f.asterisk then codes ".*" else codes "[^" ++ (escape_string delimiter ++ codes "]+?")
  | c ∷ s ↦ escape_group (c ∷ s)
]

-- The key of a match; `rest` is the mask behind it.
unfoldable pub key_of : Found → Bytes → KeyName → Key
unfolding pattern_of equal
key_of f rest value =
    let next = next_of rest in
    let partial = not (is_empty f.prefix) && (not (is_empty next) && not (equal next f.prefix)) in
    let repeat = equal f.modifier (codes "+") || equal f.modifier (codes "*") in
    let optional = equal f.modifier (codes "?") || equal f.modifier (codes "*") in
    let delimiter = or_else f.prefix (codes "/") in
    set_flags f.asterisk optional repeat partial
      (make_key value f.prefix delimiter (pattern_of f delimiter))

-- The end of a round for a parameter
unfoldable pub push_key : Found → Bytes → Scan → Scan
unfolding key_of
push_key f rest st = elim f.name [
  | [] ↦ record {
    out = flush st.path st.out ++ (key_of f rest (index st.key) ∷ []);
    path = [];
    key = suc st.key;
  }
  | c ∷ name ↦ record st {
    out = flush st.path st.out ++ (key_of f rest (text (c ∷ name)) ∷ []);
    path = [];
  }
]

-- The search for the next match, byte by byte, and the loop over the matches. What no match holds
-- goes to `path`. `none` means that the fuel ran out (never: Mask/Total).
unfoldable pub scan : ℕ → Bytes → Scan → Option (List Key)
scan zero mask st = none
scan (suc fuel) [] st = some (flush st.path st.out)
scan (suc fuel) (c ∷ mask) st = elim (match_at (c ∷ mask)) [
  | none ↦ scan fuel mask (record st { path = st.path ++ (c ∷ []) })
  | some (escaped d, rest) ↦ scan fuel rest (record st { path = st.path ++ (d ∷ []) })
  | some (param f, rest) ↦ scan fuel rest (push_key f rest st)
]

abbrev pub start : Scan
start = record { out = []; path = []; key = 0 }

unfoldable pub parse_matcher : Bytes → Option (List Key)
unfolding scan match_at push_key
parse_matcher mask = scan (suc (length mask)) mask start
