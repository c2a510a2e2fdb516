-- ===== src/Uri/Parser.antt =====
-- `query_parser` of uri.cc. The pointer `it` is the list of the bytes from it to `end`, and `after`
-- is the memory behind the text that is parsed.
pub mod Tokens
pub mod Fields
pub mod Calls
pub mod Pieces
pub mod RoundTrip
use http_router.Base.{
  ℕ, zero, suc, ◌-◌, Bool, true, false, ◌||◌, Option, none, some, [], ◌∷◌, ◌++◌, Bytes, length,
  ◌==◌, if◌then◌else◌, ◌>>=◌,
}
use http_router.Uri.Escape.{query_urldecode}
use http_router.Uri.Query.{Query, empty, add, set}

abbrev pub is_amp : ℕ → Bool
is_amp c = c == b'&'

abbrev pub is_separator : ℕ → Bool
is_separator c = c == b'=' || c == b'&'

-- Where `look_for` leaves `it`.
unfoldable pub look_for : (ℕ → Bool) → Bytes → Bytes
look_for stops [] = []
look_for stops (c ∷ it) = if stops c then c ∷ it else look_for stops it

-- `query_urldecode(start, it - start)`
abbrev pub token : Bytes → Bytes → Bytes → Option Bytes
token after start it = query_urldecode (start ++ after) (length start - length it)

-- `if (is('='))` and its `else`, with `it` behind the name
unfoldable pub parse_value : Bytes → Bytes → Query → Bytes → Option (Query × Bytes)
parse_value after name q [] = some (set name q, [])
parse_value after name q (c ∷ it) =
    if c == b'='
    then (do
      value ← token after it (look_for is_amp it)
      some (add name value q, look_for is_amp it))
    else some (set name q, c ∷ it)

-- `if (!is('&')) break; ++it;`
unfoldable pub parse_next : (Bytes → Query → Option Query) → Query → Bytes → Option Query
parse_next next q [] = some q
parse_next next q (c ∷ it) = if is_amp c then next it q else some q

-- One round of the loop; `next` is the rounds that follow.
unfoldable pub parse_round : (Bytes → Query → Option Query) → Bytes → Bytes → Query → Option Query
parse_round next after it q = do
  name ← token after it (look_for is_separator it)
  (q', rest) ← parse_value after name q (look_for is_separator it)
  parse_next next q' rest

-- The loop, with as many rounds as the fuel.
unfoldable pub parse_loop : ℕ → Bytes → Bytes → Query → Option Query
parse_loop zero after it q = none
parse_loop (suc fuel) after [] q = some q
parse_loop (suc fuel) after (c ∷ it) q = parse_round (parse_loop fuel after) after (c ∷ it) q

-- `if (!str.empty() && str.front() == '?') str = str.substr(1);`
abbrev pub drop_mark : Bytes → Bytes
drop_mark [] = []
drop_mark (c ∷ s) = if c == b'?' then s else c ∷ s

-- A round takes a byte at least, so the fuel is enough (Parser/Fields).
unfoldable pub parse : Bytes → Bytes → Option Query
unfolding parse_loop parse_round parse_next parse_value look_for
parse str after = parse_loop (suc (length str)) after (drop_mark str) empty
