-- ===== src/Router/Print.antt =====
-- `router::print`: what it writes, and to which stream.
use http_router.Base.{
  ℕ, ◌≡◌, refl, ap, ◌∙◌, Bool, true, false, not, ◌&&◌, Option, none, some, List, [], ◌∷◌, ◌++◌, map,
  arith, Bytes, codes, equal, equal_iff, ◌==◌, if◌then◌else◌, Bool-cases, inl, inr,
}
use http_router.Beast.{Beast, Verb}
use http_router.Response.{decimal}
use http_router.Filters.{Supports}
use http_router.PathCompiler.Matcher.{Engine}
use http_router.Router.{Route, RouteList, FilterList, Router}

pub data Stream : Type 0 where
  standard_output standard_error : Stream

abbrev pub Output : Type 0
Output = List (Stream × Bytes)

abbrev bar : Bool → Output
bar first = if first then [] else (standard_output, codes " |") ∷ []

-- The macro `IF`, for a flag and what comes behind it
abbrev flagged : Bool → Bytes → (Bool → Output) → Bool → Output
flagged flag name rest first =
    if flag then bar first ++ ((standard_output, name) ∷ rest false) else rest first

abbrev others : ℕ → Bool → Output
others other first =
    if other == 0 then [] else bar first ++ ((standard_output, b' ' ∷ decimal other) ∷ [])

unfoldable pub flags_output : Supports → Output
flags_output type =
    if not type.pre && (not type.send && (not type.post && type.other == 0))
    then (standard_output, codes "NONE") ∷ []
    else flagged type.pre (codes " PRE-PROC")
        (flagged type.send (codes " PRE-SEND")
          (flagged type.post (codes " POST-PROC") (others type.other)))
        true

-- `add_route`
unfoldable pub add_route : Bytes → Bytes → List (Bytes × Bytes) → List (Bytes × Bytes)
unfolding equal
add_route path method [] = (path, method) ∷ []
add_route path method ((p, methods) ∷ list) =
    let more = add_route path method list in
    if equal p path then (p, methods ++ (b'|' ∷ method)) ∷ list else (p, methods) ∷ more

-- The loops over the routes, on the pairs of a mask and a method in their order
unfoldable pub add_routes : List (Bytes × Bytes) → List (Bytes × Bytes) → List (Bytes × Bytes)
unfolding add_route
add_routes [] list = list
add_routes ((path, method) ∷ pairs) list = add_routes pairs (add_route path method list)

abbrev pub route_output : List (Bytes × Bytes) → Output
route_output [] = []
route_output ((path, methods) ∷ list) =
    (standard_error, codes "[ROUTE] " ++ (methods ++ (codes " '" ++ (path ++ codes "'\n"))))
    ∷ route_output list

module _ (b : Beast) (engine : Engine) (Out : Type 0) where
  abbrev pub verb_pairs : Verb → List (Route b engine Out) → List (Bytes × Bytes)
  verb_pairs verb [] = []
  verb_pairs verb (handler ∷ handlers) = (handler.mask, verb) ∷ verb_pairs verb handlers

  abbrev pub route_pairs : RouteList b engine Out → List (Bytes × Bytes)
  route_pairs [] = []
  route_pairs ((verb, handlers) ∷ routes) = verb_pairs verb handlers ++ route_pairs routes

  abbrev pub filters_output : FilterList b engine Out → Output
  filters_output [] = []
  filters_output ((prefix, filter) ∷ filters) =
      ((standard_error, codes "[FILTER] '" ++ (prefix ++ (codes "/' -> " ++ filter.name)))
        ∷ flags_output filter.type)
      ++ ((standard_output, codes "\n") ∷ filters_output filters)

  unfoldable pub print : Router b engine Out → Output
  unfolding flags_output add_routes
  print router =
      filters_output router.filters ++ route_output (add_routes (route_pairs router.routes) [])

-- The methods of a mask, in order, joined by `|`
abbrev joined : Option Bytes → Bytes → Option Bytes
joined none method = some method
joined (some methods) method = some (methods ++ (b'|' ∷ method))

abbrev pub methods_of : Bytes → List (Bytes × Bytes) → Option Bytes → Option Bytes
methods_of path [] before = before
methods_of path ((p, method) ∷ pairs) before =
    methods_of path pairs (if equal p path then joined before method else before)

abbrev pub listed : Bytes → List (Bytes × Bytes) → Option Bytes
listed path [] = none
listed path ((p, methods) ∷ list) = if equal p path then some methods else listed path list

-- Each mask has one line.
abbrev pub IsListedOnce : List (Bytes × Bytes) → Type 0
IsListedOnce [] = Unit {0}
IsListedOnce ((p, methods) ∷ list) = (listed p list ≡ none) × IsListedOnce list

listed-add_route :
    (path p method : Bytes) (list : List (Bytes × Bytes))
    → listed path (add_route p method list)
      ≡ (if equal p path then joined (listed path list) method else listed path list)
unfolding add_route
listed-add_route path p method [] = refl
listed-add_route path p method ((q, methods) ∷ list) =
    ground (
      arith,
      equal_iff q p,
      equal_iff q path,
      equal_iff p path,
      listed-add_route path p method list,
    )

add_route-IsListedOnce :
    (p method : Bytes) (list : List (Bytes × Bytes))
    → IsListedOnce list
    → IsListedOnce (add_route p method list)
unfolding add_route
add_route-IsListedOnce p method [] h = (refl, tt)
add_route-IsListedOnce p method ((q, methods) ∷ list) h = elim (Bool-cases (equal q p)) [
  | inl e ↦ rw e h
  | inr e ↦ rw e (
    listed-add_route q p method list ∙ ground (arith, h.0, equal_iff q p, equal_iff p q),
    add_route-IsListedOnce p method list h.1,
  )
]

add_routes_lem :
    (path : Bytes) (pairs list : List (Bytes × Bytes))
    → IsListedOnce list
    → (listed path (add_routes pairs list) ≡ methods_of path pairs (listed path list))
      × IsListedOnce (add_routes pairs list)
unfolding add_routes
add_routes_lem path [] list h = (refl, h)
add_routes_lem path ((p, method) ∷ pairs) list h =
    let (same, once) =
      add_routes_lem path pairs (add_route p method list)
        (add_route-IsListedOnce p method list h) in
    (same ∙ ap (methods_of path pairs) (listed-add_route path p method list), once)

module _ (b : Beast) (engine : Engine) (Out : Type 0) where
  -- The methods that have a route of the mask, as a walk over the routes meets them
  abbrev met_routes : Bytes → Verb → List (Route b engine Out) → Option Bytes → Option Bytes
  met_routes path verb [] before = before
  met_routes path verb (route ∷ routes) before =
      met_routes path verb routes (if equal route.mask path then joined before verb else before)

  abbrev pub methods_in : Bytes → RouteList b engine Out → Option Bytes → Option Bytes
  methods_in path [] before = before
  methods_in path ((verb, routes) ∷ more) before =
      methods_in path more (met_routes path verb routes before)

  -- The line of a mask with its methods
  abbrev line : Bytes × Bytes → Stream × Bytes
  line (path, methods) =
      (standard_error, codes "[ROUTE] " ++ (methods ++ (codes " '" ++ (path ++ codes "'\n"))))

  methods_of-verb_pairs :
      (path : Bytes) (verb : Verb) (routes : List (Route b engine Out))
      (more : List (Bytes × Bytes)) (before : Option Bytes)
      → methods_of path (verb_pairs b engine Out verb routes ++ more) before
        ≡ methods_of path more (met_routes path verb routes before)
  methods_of-verb_pairs path verb [] more before = refl
  methods_of-verb_pairs path verb (route ∷ routes) more before =
      methods_of-verb_pairs path verb routes more
        (if equal route.mask path then joined before verb else before)

  methods_of-route_pairs :
      (path : Bytes) (routes : RouteList b engine Out) (before : Option Bytes)
      → methods_of path (route_pairs b engine Out routes) before ≡ methods_in path routes before
  methods_of-route_pairs path [] before = refl
  methods_of-route_pairs path ((verb, handlers) ∷ routes) before =
      methods_of-verb_pairs path verb handlers (route_pairs b engine Out routes) before
      ∙ methods_of-route_pairs path routes (met_routes path verb handlers before)

  route_output-lines : (list : List (Bytes × Bytes)) → route_output list ≡ map line list
  route_output-lines [] = refl
  route_output-lines (row ∷ list) = ap (◌∷◌ (line row)) (route_output-lines list)

  -- The lines that are printed of routes: one for each mask that has a route, and in it the methods
  abbrev pub IsListing : RouteList b engine Out → Output → Type 0
  IsListing routes output =
      (list : List (Bytes × Bytes)) × (output ≡ map line list)
      × IsListedOnce list
      × ((path : Bytes) → listed path list ≡ methods_in path routes none)

  -- Behind the lines of the filters, `print` writes to the standard error stream one line for each mask
  -- that has a route of any method, and none for another: the mask, and the methods that have a
  -- route of it, once for each such route in the order of the routes, with a `|` between them.
  pub print-IsListing :
      (router : Router b engine Out)
      → (output : Output) × (print b engine Out router
          ≡ filters_output b engine Out router.filters ++ output)
        × IsListing router.routes output
  unfolding print
  print-IsListing router =
      let pairs = route_pairs b engine Out router.routes in
      (
        route_output (add_routes pairs []),
        refl,
        (
          add_routes pairs [],
          route_output-lines (add_routes pairs []),
          (add_routes_lem [] pairs [] tt).1,
          (λ path.
              (add_routes_lem path pairs [] tt).0 ∙ methods_of-route_pairs path router.routes none),
        ),
      )
