-- ===== src/Router/Config/Compiled.antt =====
-- What a compiled router holds of a tree of configurations.
use http_router.Base.{
  ◌≡◌, refl, sym, ap, ◌∙◌, Bool, true, false, Option, none, some, List, [], ◌∷◌, ◌++◌, map,
  append-nil, append_assoc, Bytes, equal, if◌then◌else◌, Bool-cases, some_of_bind, inl, inr,
}
use mathlib.Core.Path.{ap₂}
use mathlib.Core.List.{map-append}
use mathlib.Core.Option.{some-injective}
use http_router.Beast.{Beast, Verb}
use http_router.PathCompiler.Matcher.{Engine, Matcher, make_matcher}
use http_router.Router.{Route, make_route, RouteList, FilterList, Router, find_verb}
use http_router.Router.Config.{
  at_verb, Handler, Callback, Handlers, Cfg, cfg, Subs, no_subs, sub, prefixed, give_handlers,
  give_filters, surrender, surrender_all, compile_all, compile_handlers, compiled, new_cfg,
}
use http_router.Router.Config.Maps.{at, met, IsMap, at-at_verb, at_verb-IsMap, met-at}

module _ (b : Beast) (engine : Engine) (Out : Type 0) where
  -- A handler under a mask of another configuration
  abbrev under : Bytes → Handler b engine Out → Handler b engine Out
  under prefix handler = record {
    mask = prefix ++ handler.mask;
    callback = handler.callback;
    options = handler.options;
  }

  abbrev mutual
    -- The handlers of a verb in a tree, in order, each mask behind the mask under which its own
    -- configuration was appended
    pub collected : Verb → Bytes → Cfg b engine Out → List (Handler b engine Out)
    collected verb prefix (cfg handlers filters routers) =
        map (under prefix) (met verb handlers) ++ collected_subs verb routers

    pub collected_subs : Verb → Subs b engine Out → List (Handler b engine Out)
    collected_subs verb no_subs = []
    collected_subs verb (sub routers mask next) =
        collected_subs verb routers ++ collected verb mask next

  give_step :
      (verb : Verb) (prefix : Bytes) (key : Verb) (list : List (Handler b engine Out))
      (handlers dst : Handlers b engine Out) (same : Bool)
      → (if same then at verb dst ++ map (prefixed b engine Out prefix) list else at verb dst)
          ++ map (prefixed b engine Out prefix) (met verb handlers)
        ≡ at verb dst
          ++ map
              (prefixed b engine Out prefix)
              (if same then list ++ met verb handlers else met verb handlers)
  give_step verb prefix key list handlers dst false = refl
  give_step verb prefix key list handlers dst true =
      append_assoc (at verb dst) _ _
      ∙ ap (◌++◌ (at verb dst))
          (sym (map-append (prefixed b engine Out prefix) list (met verb handlers)))

  at-give_handlers :
      (verb : Verb) (prefix : Bytes) (handlers dst : Handlers b engine Out)
      → at verb (give_handlers b engine Out prefix handlers dst)
        ≡ at verb dst ++ map (prefixed b engine Out prefix) (met verb handlers)
  unfolding give_handlers
  at-give_handlers verb prefix [] dst = sym (append-nil (at verb dst))
  at-give_handlers verb prefix ((key, list) ∷ handlers) dst =
      at-give_handlers verb prefix handlers
        (at_verb key (λ hs. hs ++ map (prefixed b engine Out prefix) list) dst)
      ∙ ap (λ hs. hs ++ map (prefixed b engine Out prefix) (met verb handlers))
          (at-at_verb key (λ hs. hs ++ map (prefixed b engine Out prefix) list) verb dst)
      ∙ give_step verb prefix key list handlers dst (equal key verb)

  give_handlers-IsMap :
      (prefix : Bytes) (handlers dst : Handlers b engine Out)
      → IsMap dst
      → IsMap (give_handlers b engine Out prefix handlers dst)
  unfolding give_handlers
  give_handlers-IsMap prefix [] dst h = h
  give_handlers-IsMap prefix ((key, list) ∷ handlers) dst h =
      give_handlers-IsMap prefix handlers _
        (at_verb-IsMap key (λ hs. hs ++ map (prefixed b engine Out prefix) list) dst h)

  abbrev Given : Type 0
  Given = Handlers b engine Out × FilterList b engine Out

  mutual
    unfolding surrender

    at-surrender :
        (verb : Verb) (prefix : Bytes) (c : Cfg b engine Out) (d : Given)
        → (at verb (surrender b engine Out prefix c d).0 ≡ at verb d.0 ++ collected verb prefix c)
          × (IsMap d.0 → IsMap (surrender b engine Out prefix c d).0)
    at-surrender verb prefix (cfg handlers filters routers) (dst, out) =
        let (same, keeps) = at-surrender_all verb routers (
          give_handlers b engine Out prefix handlers dst,
          out ++ give_filters b engine Out prefix filters,
        ) in
        (
          same
              ∙ ap (λ hs. hs ++ collected_subs verb routers)
                  (at-give_handlers verb prefix handlers dst)
              ∙ append_assoc (at verb dst) (map (prefixed b engine Out prefix) (met verb handlers))
                  (collected_subs verb routers),
          (λ h. keeps (give_handlers-IsMap prefix handlers dst h)),
        )

    at-surrender_all :
        (verb : Verb) (routers : Subs b engine Out) (d : Given)
        → (at verb (surrender_all b engine Out routers d).0
            ≡ at verb d.0 ++ collected_subs verb routers)
          × (IsMap d.0 → IsMap (surrender_all b engine Out routers d).0)
    at-surrender_all verb no_subs d = (sym (append-nil (at verb d.0)), (λ h. h))
    at-surrender_all verb (sub routers mask next) d =
        let (first, keeps) = at-surrender_all verb routers d in
        let (second, keeps') = at-surrender verb mask next (surrender_all b engine Out routers d) in
        (
          second
              ∙ ap (λ hs. hs ++ collected verb mask next) first
              ∙ append_assoc (at verb d.0) (collected_subs verb routers) (collected verb mask next),
          (λ h. keeps' (keeps h)),
        )

  -- The mask, the callback and the matcher, if there is one
  abbrev pub Entry : Type 0
  Entry = Bytes × Callback b engine Out × Option (Matcher engine)

  abbrev pub handler_entry : Handler b engine Out → Entry
  handler_entry h = (h.mask, h.callback, make_matcher engine h.mask h.options)

  abbrev pub route_entry : Route b engine Out → Entry
  route_entry r = (r.mask, r.callback, some r.matcher)

  make_route-entry :
      (handler : Handler b engine Out) (route : Route b engine Out)
      → make_route b engine Out handler.mask handler.callback handler.options ≡ some route
      → route_entry route ≡ handler_entry handler
  unfolding make_route
  make_route-entry handler route e =
      let (matcher, made, same) =
        some_of_bind (make_matcher engine handler.mask handler.options) _ route e in
      ap route_entry (sym (some-injective _ _ same))
      ∙ ap (λ m. (handler.mask, handler.callback, m)) (sym made)

  compile_all-entries :
      (handlers : List (Handler b engine Out)) (routes : List (Route b engine Out))
      → compile_all b engine Out handlers ≡ some routes
      → map route_entry routes ≡ map handler_entry handlers
  unfolding compile_all
  compile_all-entries [] routes e = ap (map route_entry) (sym (some-injective _ _ e))
  compile_all-entries (handler ∷ handlers) routes e =
      let (route, made, more) =
        some_of_bind (make_route b engine Out handler.mask handler.callback handler.options) _
          routes e in
      let (rest, all, same) = some_of_bind (compile_all b engine Out handlers) _ routes more in
      ap (map route_entry) (sym (some-injective _ _ same))
      ∙ ap₂ ◌∷◌ (make_route-entry handler route made) (compile_all-entries handlers rest all)

  entries_step :
      (same : Bool) (routes list : List (Route b engine Out))
      (handlers more : List (Handler b engine Out))
      → map route_entry list ≡ map handler_entry handlers
      → map route_entry (if same then routes ++ list else routes) ++ map handler_entry more
        ≡ map route_entry routes ++ map handler_entry (if same then handlers ++ more else more)
  entries_step false routes list handlers more e = refl
  entries_step true routes list handlers more e =
      ap (λ ms. ms ++ map handler_entry more)
        (map-append route_entry routes list ∙ ap (◌++◌ (map route_entry routes)) e)
      ∙ append_assoc (map route_entry routes) (map handler_entry handlers) (map handler_entry more)
      ∙ ap (◌++◌ (map route_entry routes)) (sym (map-append handler_entry handlers more))

  compile_handlers-entries :
      (verb : Verb) (handlers : Handlers b engine Out) (routes out : RouteList b engine Out)
      → compile_handlers b engine Out handlers routes ≡ some out
      → map route_entry (at verb out)
        ≡ map route_entry (at verb routes) ++ map handler_entry (met verb handlers)
  unfolding compile_handlers
  compile_handlers-entries verb [] routes out e =
      ap (λ rs. map route_entry (at verb rs)) (sym (some-injective _ _ e))
      ∙ sym (append-nil (map route_entry (at verb routes)))
  compile_handlers-entries verb ((key, handlers) ∷ more) routes out e =
      let (list, all, same) = some_of_bind (compile_all b engine Out handlers) _ out e in
      compile_handlers-entries verb more (at_verb key (λ rs. rs ++ list) routes) out same
      ∙ ap (λ rs. map route_entry rs ++ map handler_entry (met verb more))
          (at-at_verb key (λ rs. rs ++ list) verb routes)
      ∙ entries_step (equal key verb) (at verb routes) list handlers (met verb more)
          (compile_all-entries handlers list all)

  -- What a router has for a verb
  abbrev pub entries_of : Option (List (Route b engine Out)) → List Entry
  entries_of none = []
  entries_of (some routes) = map route_entry routes

  abbrev pub entries_for : Verb → Router b engine Out → List Entry
  entries_for verb router = entries_of (find_verb b engine Out verb router.routes)

  entries_of-find_verb :
      (verb : Verb) (routes : RouteList b engine Out)
      → entries_of (find_verb b engine Out verb routes) ≡ map route_entry (at verb routes)
  unfolding find_verb
  entries_of-find_verb verb [] = refl
  entries_of-find_verb verb ((v, list) ∷ routes) = elim (Bool-cases (equal v verb)) [
    | inl e ↦ rw e refl
    | inr e ↦ rw e (entries_of-find_verb verb routes)
  ]

  -- The routes of a compiled router for each verb are exactly the handlers of the tree of
  -- configurations, none lost and none twice: first the configuration's own, then those of each
  -- appended one in the order of the calls. The mask of each has in front the mask under which its
  -- own configuration was appended, and not the masks of the configurations farther up; each has the
  -- callback of its handler, and the matcher that is made of that mask with its options. The
  -- configuration is left empty.
  pub compiled-entries :
      (verb : Verb) (handlers : Handlers b engine Out) (filters : FilterList b engine Out)
      (routers : Subs b engine Out) (router : Router b engine Out) (left : Cfg b engine Out)
      → IsMap handlers
      → compiled b engine Out (cfg handlers filters routers) ≡ some (router, left)
      → (entries_for verb router
          ≡ map handler_entry (at verb handlers ++ collected_subs verb routers))
        × (left ≡ new_cfg b engine Out)
  unfolding compiled
  compiled-entries verb handlers filters routers router left h e =
      let all = (surrender_all b engine Out routers (handlers, filters)).0 in
      let (given, keeps) = at-surrender_all verb routers (handlers, filters) in
      let (routes, built, same) =
        some_of_bind (compile_handlers b engine Out all []) _ (router, left) e in
      let pair = some-injective _ _ same in
      (
        ap (λ p. entries_for verb p.0) (sym pair)
            ∙ entries_of-find_verb verb routes
            ∙ compile_handlers-entries verb all [] routes built
            ∙ ap (map handler_entry) (met-at verb all (keeps h) ∙ given),
        ap (λ p. p.1) (sym pair),
      )
