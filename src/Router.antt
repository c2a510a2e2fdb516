-- ===== src/Router.antt =====
-- `router` of router.cc and router.hh, and `route` of route.hh.
pub mod Prefixes
pub mod UpDir
pub mod Print
pub mod Answers
pub mod Config
use http_router.Base.{
  last, drop_last, last-append, drop_last-append, split_last, ℕ, zero, suc, Bool, true, false, not,
  ◌&&◌, ◌||◌, Option, none, some, List, [], ◌∷◌, Bytes, codes, equal, starts_with, ends_with,
  contains, length, get_or, ltb, ◌==◌, if◌then◌else◌, ◌>>=◌,
}
use http_router.Beast.{Beast, Verb}
use http_router.Request.{Request}
use http_router.Response.{Response, stock_response, internal_error, bad_request, not_found}
use http_router.Filters.{
  Filtering, carry_on, finished, Filter, supports_pre, supports_send, supports_post,
}
use http_router.PathCompiler.Key.{Compile}
use http_router.PathCompiler.Matcher.{Engine, Params, Matcher, make_matcher, matches}

abbrev is_slash : ℕ → Bool
is_slash c = c == b'/'

-- The last two lines of `prefixes`; `none` is `back()` of an empty view.
abbrev continues : Bytes → Bytes → Option Bool
continues prefix resource = do
  end ← last prefix
  some (get_or resource (length prefix) 0 == b'/' || end == b'/')

unfoldable pub prefixes : Bytes → Bytes → Option Bool
unfolding last starts_with
prefixes prefix resource =
    if length prefix == 0 && starts_with (codes "/") resource
    then some true
    else if ltb (length resource) (length prefix)
    then some false
    else if not (starts_with prefix resource)
    then some false
    else if length resource == length prefix
    then some true
    else continues prefix resource

unfoldable pub has_up_dir : Bytes → Bool
unfolding ends_with contains
has_up_dir resource = ends_with (codes "/..") resource || contains (codes "/../") resource

-- The guard at the head of `handle_request`
unfoldable pub is_illegal : Bytes → Bool
unfolding has_up_dir
is_illegal [] = true
is_illegal (c ∷ s) = not (c == b'/') || has_up_dir (c ∷ s)

module _ (b : Beast) (engine : Engine) (Out : Type 0) where
  -- `route`; `none` is an empty delegate.
  pub record Route : Type 0 where
    pub mask : Bytes
    pub matcher : Matcher engine
    pub callback : Option (Response b Out → Params → Option (Response b Out))

  -- The constructor; `none` is an exception.
  unfoldable pub make_route :
      Bytes → Option (Response b Out → Params → Option (Response b Out)) → Compile → Option Route
  unfolding make_matcher
  make_route mask callback options = do
    matcher ← make_matcher engine mask options
    some (record { mask = mask; matcher = matcher; callback = callback })

  unfoldable pub call : Route → Response b Out → Params → Option (Response b Out)
  unfolding stock_response
  call route resp params = elim route.callback [
    | some callback ↦ callback resp params
    | none ↦ stock_response b Out 500 (codes "Routing misconfigured") resp
  ]

  abbrev pub RouteList : Type 0
  RouteList = List (Verb × List Route)

  abbrev pub FilterList : Type 0
  FilterList = List (Bytes × Filter b Out)

  pub record Router : Type 0 where
    pub routes : RouteList
    pub filters : FilterList

  -- `routes.find`
  unfoldable pub find_verb : Verb → RouteList → Option (List Route)
  unfolding equal
  find_verb verb [] = none
  find_verb verb ((v, list) ∷ routes) =
      let more = find_verb verb routes in if equal v verb then some list else more

  -- The loop over the filters in `handle_request`
  unfoldable pub preprocess :
      FilterList → Bytes → Response b Out → Option (Filtering × Response b Out)
  unfolding prefixes
  preprocess [] resource resp = some (carry_on, resp)
  preprocess ((prefix, filter) ∷ filters) resource resp =
      if not (supports_pre b Out filter)
      then preprocess filters resource resp
      else elim (prefixes prefix resource) [
        | none ↦ none
        | some false ↦ preprocess filters resource resp
        | some true ↦ elim (filter.preproc resp prefix) [
          | none ↦ none
          | some (finished, resp') ↦ some (finished, resp')
          | some (carry_on, resp') ↦ preprocess filters resource resp'
        ]
      ]

  -- The loop over the routes
  unfoldable pub find_route : List Route → Bytes → Params → Option (Route × Params)
  unfolding matches
  find_route [] resource params = none
  find_route (route ∷ routes) resource params =
      let (matched, params') = matches engine route.matcher resource params in
      let rest = find_route routes resource params' in
      if matched then some (route, params') else rest

  -- What `handle_request` does behind the filters
  unfoldable pub dispatch : RouteList → Verb → Bytes → Response b Out → Option (Response b Out)
  unfolding find_verb find_route call not_found stock_response
  dispatch [] verb resource resp = not_found b Out resource resp
  dispatch (first ∷ routes) verb resource resp = elim (find_verb verb (first ∷ routes)) [
    | none ↦ bad_request b Out (codes "Unknown HTTP-method") resp
    | some list ↦ elim (find_route list resource []) [
      | none ↦ not_found b Out resource resp
      | some (route, params) ↦ call route resp params
    ]
  ]

  abbrev unless_finished :
      (Response b Out → Option (Response b Out))
      → Filtering × Response b Out
      → Option (Response b Out)
  unless_finished more (finished, resp) = some resp
  unless_finished more (carry_on, resp) = more resp

  -- `handle_request`, whose path is that of the response's request. The request, a reference to a
  -- constant, is the same all along.
  unfoldable pub handle_path : Router → Bytes → Response b Out → Option (Response b Out)
  unfolding is_illegal preprocess dispatch stock_response
  handle_path router resource resp =
      if is_illegal resource then bad_request b Out (codes "Illegal resource path") resp else do
        done ← preprocess router.filters resource resp
        unless_finished (dispatch router.routes resp.req.req.method resource) done

  abbrev pub handle_request : Router → Response b Out → Option (Response b Out)
  handle_request router resp = handle_path router resp.req.decoded_path resp

  -- The loops of `before_send` and `after_send`
  unfoldable pub sending_from : FilterList → Request → b.Header → Option b.Header
  unfolding prefixes
  sending_from [] req header = some header
  sending_from ((prefix, filter) ∷ filters) req header =
      if not (supports_send b Out filter)
      then sending_from filters req header
      else elim (prefixes prefix req.decoded_path) [
        | none ↦ none
        | some false ↦ sending_from filters req header
        | some true ↦ do
          header' ← filter.sending req header prefix
          sending_from filters req header'
      ]

  unfoldable pub postproc_from : FilterList → Request → b.Header → ℕ → Option b.Header
  unfolding prefixes
  postproc_from [] req header transmitted = some header
  postproc_from ((prefix, filter) ∷ filters) req header transmitted =
      if not (supports_post b Out filter)
      then postproc_from filters req header transmitted
      else elim (prefixes prefix req.decoded_path) [
        | none ↦ none
        | some false ↦ postproc_from filters req header transmitted
        | some true ↦ do
          header' ← filter.postproc req header transmitted prefix
          postproc_from filters req header' transmitted
      ]

  abbrev pub before_send : Router → Request → b.Header → Option b.Header
  before_send router req header = sending_from router.filters req header

  abbrev pub after_send : Router → Request → b.Header → ℕ → Option b.Header
  after_send router req header transmitted = postproc_from router.filters req header transmitted
