-- ===== src/Router/Config.antt =====
-- `router::cfg` of router.cc and router.hh: what is added to a configuration, and the router that it
-- is compiled into. The unordered map of handlers is an association list in some order.
pub mod Maps
pub mod Compiled
use http_router.Base.{
  ℕ, Bool, true, false, not, Option, none, some, List, [], ◌∷◌, ◌++◌, map, Bytes, codes, equal,
  ◌==◌, ◌||◌, last, drop_last, if◌then◌else◌, ◌>>=◌,
}
use http_router.Beast.{Beast, Verb}
use http_router.Response.{Response}
use http_router.Filters.{Filter}
use http_router.PathCompiler.Describe.{ends_in_slash}
use http_router.PathCompiler.Key.{Compile}
use http_router.PathCompiler.Matcher.{Engine, Params}
use http_router.Router.{Route, make_route, RouteList, FilterList, Router}

-- `map[verb]`, which makes an entry where there is none, and a change of it
unfoldable pub at_verb {ℓ} :
    {A : Type ℓ} → Verb → (List A → List A) → List (Verb × List A) → List (Verb × List A)
unfolding equal
at_verb verb change [] = (verb, change []) ∷ []
at_verb verb change ((v, xs) ∷ entries) =
    let more = at_verb verb change entries in
    if equal v verb then (v, change xs) ∷ entries else (v, xs) ∷ more

module _ (b : Beast) (engine : Engine) (Out : Type 0) where
  abbrev pub Callback : Type 0
  Callback = Option (Response b Out → Params → Option (Response b Out))

  pub record Handler : Type 0 where
    pub mask : Bytes
    pub callback : Callback
    pub options : Compile

  abbrev pub Handlers : Type 0
  Handlers = List (Verb × List Handler)

  mutual
    pub data Cfg : Type 0 where
      cfg : Handlers → FilterList b engine Out → Subs → Cfg

    -- `routers_`, each `sub` with its mask and its configuration
    pub data Subs : Type 0 where
      no_subs : Subs
      sub : Subs → Bytes → Cfg → Subs

  abbrev pub new_cfg : Cfg
  new_cfg = cfg [] [] no_subs

  unfoldable pub add : Bytes → Callback → Verb → Compile → Cfg → Cfg
  unfolding at_verb
  add path cb verb options (cfg handlers filters routers) =
      cfg
        (at_verb verb (λ hs. hs ++ (record { mask = path; callback = cb; options = options } ∷ []))
          handlers)
        filters routers

  abbrev pub get : Bytes → Callback → Compile → Cfg → Cfg
  get path cb options c = add path cb (codes "GET") options c

  abbrev pub getish : Bytes → Callback → Compile → Cfg → Cfg
  getish path cb options c =
      add path cb (codes "HEAD") options (add path cb (codes "GET") options c)

  unfoldable pub append : Bytes → Cfg → Cfg → Cfg
  append path next (cfg handlers filters routers) = cfg handlers filters (sub routers path next)

  unfoldable pub use_filter : Bytes → Filter b Out → Cfg → Cfg
  unfolding ends_in_slash drop_last
  use_filter path filt (cfg handlers filters routers) =
      cfg handlers (filters ++ (((if ends_in_slash path then drop_last path else path), filt) ∷ []))
        routers

  -- The loops of `surrender` over the handlers and the filters
  abbrev pub prefixed : Bytes → Handler → Handler
  prefixed prefix handler = record handler { mask = prefix ++ handler.mask }

  unfoldable pub give_handlers : Bytes → Handlers → Handlers → Handlers
  unfolding at_verb
  give_handlers prefix [] dst = dst
  give_handlers prefix ((key, list) ∷ handlers) dst =
      give_handlers prefix handlers (at_verb key (λ hs. hs ++ map (prefixed prefix) list) dst)

  unfoldable pub give_filters : Bytes → FilterList b engine Out → FilterList b engine Out
  give_filters prefix [] = []
  give_filters prefix ((path, filter) ∷ filters) =
      (prefix ++ path, filter) ∷ give_filters prefix filters

  -- The configurations that give away what they hold are gone behind the call.
  unfoldable mutual
    unfolding give_handlers give_filters

    pub surrender :
        Bytes → Cfg → Handlers × FilterList b engine Out → Handlers × FilterList b engine Out
    surrender prefix (cfg handlers filters routers) (dst, out) =
        surrender_all routers
          (give_handlers prefix handlers dst, out ++ give_filters prefix filters)

    pub surrender_all :
        Subs → Handlers × FilterList b engine Out → Handlers × FilterList b engine Out
    surrender_all no_subs dst = dst
    surrender_all (sub routers mask next) dst = surrender mask next (surrender_all routers dst)

  -- `handler::compile` for each handler of a list
  unfoldable pub compile_all : List Handler → Option (List (Route b engine Out))
  unfolding make_route
  compile_all [] = some []
  compile_all (handler ∷ handlers) = do
    route ← make_route b engine Out handler.mask handler.callback handler.options
    routes ← compile_all handlers
    some (route ∷ routes)

  -- The loop of `compiled`
  unfoldable pub compile_handlers :
      Handlers → RouteList b engine Out → Option (RouteList b engine Out)
  unfolding compile_all at_verb
  compile_handlers [] routes = some routes
  compile_handlers ((verb, handlers) ∷ more) routes = do
    list ← compile_all handlers
    compile_handlers more (at_verb verb (λ rs. rs ++ list) routes)

  -- The router, and the configuration behind the call, which is empty. `none` is an exception of a
  -- route's constructor.
  unfoldable pub compiled : Cfg → Option (Router b engine Out × Cfg)
  unfolding surrender_all compile_handlers
  compiled (cfg handlers filters routers) =
      let (all, out) = surrender_all routers (handlers, filters) in
      do routes ← compile_handlers all []; some (record { routes = routes; filters = out }, new_cfg)
