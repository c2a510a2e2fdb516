-- ===== src/PathCompiler/Describe.antt =====
-- `description::make`: the regular expression of a list of tokens, and its keys.
pub mod Keys
pub mod Slash
pub mod Groups
pub mod Ends
pub mod Captures
use http_router.Base.{
  last, drop_last, last-append, drop_last-append, split_last, ℕ, zero, suc, ◌+◌, Bool, true, false,
  not, ◌&&◌, ◌||◌, Option, none, some, List, [], ◌∷◌, ◌++◌, Bytes, codes, ◌==◌, if◌then◌else◌,
  ◌>>=◌,
}
use http_router.PathCompiler.Key.{Key, KeyName, index, text, Compile}
use http_router.PathCompiler.Escape.{escape_string}
use http_router.PathCompiler.Mask.{parse_matcher}

pub record Description : Type 0 where
  pub route : Bytes
  pub keys : List Key

-- `std::get<std::string>`, which throws on an index
abbrev pub get_string : KeyName → Option Bytes
get_string (index i) = none
get_string (text s) = some s

-- `back() == '/'`; an empty text has no last byte, and counts as ending in another one.
unfoldable pub ends_in_slash : Bytes → Bool
unfolding last
ends_in_slash s = elim (last s) [ none ↦ false | some c ↦ c == b'/' ]

unfoldable pub ends_with_slash : List Key → Bool
unfolding ends_in_slash last
ends_with_slash tokens = elim (last tokens) [
  | none ↦ false
  | some k ↦ k.is_string && (elim (get_string k.value) [ none ↦ false | some s ↦ ends_in_slash s ])
]

-- The token that takes the rest of the path; `none` is the null pointer.
unfoldable pub rest_of : List Key → Compile → Option Key
unfolding ends_with_slash last
rest_of tokens options = elim (last tokens) [
  | none ↦ none
  | some k ↦
      if k.is_string || (not options.take_rest || ends_with_slash tokens) then none else some k
]

-- The text of a parameter
unfoldable pub capture_of : Key → Bytes
capture_of k =
    let once = codes "(?:" ++ (k.pattern ++ codes ")") in
    if k.repeat
    then once ++ (codes "(?:" ++ (escape_string k.prefix ++ (once ++ codes ")*")))
    else once

unfoldable pub param_text : Key → Bytes
unfolding capture_of
param_text k =
    let prefix = escape_string k.prefix in
    let capture = codes "(" ++ (capture_of k ++ codes ")") in
    if k.optional
    then (if k.partial
        then prefix ++ (capture ++ codes "?")
        else codes "(?:" ++ (prefix ++ (capture ++ codes ")?")))
    else prefix ++ capture

-- The loop over the tokens: what it appends to `route` and to `keys`.
abbrev prepend : Bytes → Bytes × List Key → Bytes × List Key
prepend s (route, keys) = (s ++ route, keys)

abbrev prepend_key : Key → Bytes × List Key → Bytes × List Key
prepend_key k (route, keys) = (param_text k ++ route, k ∷ keys)

unfoldable pub tokens_text : List Key → Option (Bytes × List Key)
unfolding param_text
tokens_text [] = some ([], [])
tokens_text (k ∷ tokens) =
    let more = tokens_text tokens in
    if k.is_string
    then (do s ← get_string k.value; r ← more; some (prepend (escape_string s) r))
    else (do r ← more; some (prepend_key k r))

-- What stands behind the tokens where none takes the rest
unfoldable pub finish : Bool → Compile → Bytes → Bytes
unfolding drop_last
finish slash options route =
    let open_end =
      if options.strict
      then route
      else (if slash then drop_last (drop_last route) else route) ++ codes "(?:\\/(?=$))?" in
    if options.end
    then open_end ++ codes "$"
    else if not options.strict || not slash
    then open_end ++ codes "(?=\\/|$)"
    else open_end

unfoldable pub make_from : Option Key → List Key → Compile → Option Description
unfolding finish tokens_text
make_from none tokens options = do
  (route, keys) ← tokens_text tokens
  some (record { route = b'^' ∷ finish (ends_with_slash tokens) options route; keys = keys })
make_from (some rest) tokens options = do
  (route, keys) ← tokens_text (drop_last tokens)
  some (record {
    route = b'^' ∷ (route ++ (escape_string rest.prefix ++ codes "(.*)"));
    keys = keys ++ (rest ∷ []);
  })

-- `none` is `std::bad_variant_access`.
unfoldable pub make : List Key → Compile → Option Description
unfolding make_from rest_of
make tokens options = make_from (rest_of tokens options) tokens options

unfoldable pub make_mask : Bytes → Compile → Option Description
unfolding make parse_matcher
make_mask mask options = do tokens ← parse_matcher mask; make tokens options
