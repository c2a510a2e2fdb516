-- ===== src/Router/Answers.antt =====
-- That what stands behind `handle_request` answers: how often a response's sender is called.
pub mod Requests
use http_router.Base.{
  ℕ, zero, suc, ◌+◌, ◌≡◌, ◌⊎◌, ◌↔◌, inl, inr, refl, ap, sym, subst, ◌∙◌, Bool, true, false, ◌&&◌,
  ◌||◌, not, Option, none, some, List, [], ◌∷◌, ◌++◌, arith, Bytes, codes, equal, ◌==◌,
  if◌then◌else◌, ◌>>=◌, Bool-cases, Option-cases, List-cases, ==_iff, All,
}
use http_router.Beast.{Beast, Field, content_type, Status, Verb}
use http_router.Request.{Request}
use http_router.Response.{
  Response, Sender, Message, Body, string_body, unset, connected, message_of, not_found_text,
  stock_page, ContentLength, set, result, send, stock_response, not_found, bad_request,
}
use http_router.Filters.{Filtering, carry_on, finished, Filter, supports_pre}
use http_router.PathCompiler.Matcher.{Engine, Params, matches}
use http_router.Router.{
  is_illegal, prefixes, Route, call, RouteList, FilterList, Router, find_verb, preprocess,
  find_route, dispatch, unless_finished, handle_path, handle_request,
}
use mathlib.Core.Option.{some-injective}
use http_router.Router.Prefixes.{prefixes-IsUnder}

module _ (b : Beast) (engine : Engine) (Out : Type 0) where
  -- A sender that takes every message of the request
  abbrev pub Takes : Response b Out → Type 0
  Takes resp =
      (msg : Message b) (out : Out) → (out' : Out) × (resp.sender resp.req msg out ≡ some out')

  -- So many calls of a sender
  abbrev pub Calls : Sender b Out → Request → ℕ → Out → Out → Type 0
  Calls sender req zero out out' = out ≡ out'
  Calls sender req (suc n) out out' =
      (before : Out) × (msg : Message b) × Calls sender req n out before
      × (sender req msg before ≡ some out')

  -- The same request and sender, and so many calls of it between the two
  pub record Sends (n : ℕ) (resp resp' : Response b Out) : Type 0 where
    pub same_sender : resp'.sender ≡ resp.sender
    pub same_req : resp'.req ≡ resp.req
    pub calls : Calls resp.sender resp.req n resp.out resp'.out

  abbrev pub IsAnswered : ℕ → Response b Out → Option (Response b Out) → Type 0
  IsAnswered n resp after = (resp' : Response b Out) × (after ≡ some resp') × Sends n resp resp'

  abbrev pub answers : Filtering → ℕ
  answers carry_on = 0
  answers finished = 1

  -- A filter that answers exactly where it stops the others, for the paths under its prefix
  pub record AnswersFilter (prefix : Bytes) (f : Filter b Out) : Type 0 where
    pub preprocessed :
        (resp : Response b Out) (s : Bytes)
        → Takes resp
        → resp.req.decoded_path ≡ b'/' ∷ s
        → prefixes prefix (b'/' ∷ s) ≡ some true
        → (done : Filtering) × (resp' : Response b Out) × (f.preproc resp prefix
            ≡ some (done, resp'))
          × Sends (answers done) resp resp'

  abbrev pub AnswersCallback : Option (Response b Out → Params → Option (Response b Out)) → Type 0
  AnswersCallback none = Unit {0}
  AnswersCallback (some callback) =
      (resp : Response b Out) (params : Params)
      → Takes resp
      → IsAnswered 1 resp (callback resp params)

  abbrev pub AnswersRoutes : List (Route b engine Out) → Type 0
  AnswersRoutes = All (λ route. AnswersCallback route.callback)

  pub record AnswersRouter (router : Router b engine Out) : Type 0 where
    pub filters_answer : All (λ (prefix, f). AnswersFilter prefix f) router.filters
    pub routes_answer : All (λ (verb, routes). AnswersRoutes routes) router.routes

  send-some :
      (body : Body b) (length : ContentLength) (resp : Response b Out) (out : Out)
      → resp.sender resp.req (message_of b body length resp.header) resp.out ≡ some out
      → send b Out body length resp
        ≡ some (record resp { header = b.moved (connected b resp.header); out = out })
  unfolding send
  send-some body length resp out e = rw (e, send)

  pub send-answers :
      (body : Body b) (length : ContentLength) (resp : Response b Out)
      → Takes resp
      → IsAnswered 1 resp (send b Out body length resp)
  send-answers body length resp takes =
      let (out, e) = takes (message_of b body length resp.header) resp.out in
      (
        _,
        send-some body length resp out e,
        record {
          same_sender = refl;
          same_req = refl;
          calls = (resp.out, message_of b body length resp.header, refl, e);
        },
      )

  pub stock_response-answers :
      (st : Status) (msg : Bytes) (resp : Response b Out)
      → Takes resp
      → IsAnswered 1 resp (stock_response b Out st msg resp)
  unfolding stock_response
  stock_response-answers st msg resp takes =
      let (resp', e, s) =
        send-answers (string_body (stock_page st (b.obsolete_reason st) msg)) unset
          (set b Out content_type (codes "text/html; charset=UTF-8") (result b Out st resp))
          takes in
      (resp', e, record { same_sender = s.same_sender; same_req = s.same_req; calls = s.calls })

  not_found-answers :
      (resource : Bytes) (resp : Response b Out)
      → Takes resp
      → IsAnswered 1 resp (not_found b Out resource resp)
  unfolding not_found
  not_found-answers resource resp takes =
      stock_response-answers 404 (not_found_text resource) resp takes

  call-answers :
      (route : Route b engine Out) (resp : Response b Out) (params : Params)
      → AnswersCallback route.callback
      → Takes resp
      → IsAnswered 1 resp (call b engine Out route resp params)
  unfolding call
  call-answers route resp params h takes = elim (Option-cases route.callback) [
    | inl e ↦ rw (e, call) (stock_response-answers 500 (codes "Routing misconfigured") resp takes)
    | inr (callback, e) ↦ rw (e, call) ((rw e at h) resp params takes)
  ]

  find_verb-answers :
      (verb : Verb) (routes : RouteList b engine Out) (list : List (Route b engine Out))
      → All (λ (verb, routes). AnswersRoutes routes) routes
      → find_verb b engine Out verb routes ≡ some list
      → AnswersRoutes list
  unfolding find_verb
  find_verb-answers verb [] list h e = cc
  find_verb-answers verb ((v, routes) ∷ more) list h e = elim (Bool-cases (equal v verb)) [
    | inl same ↦ subst AnswersRoutes (some-injective _ _ (rw same at e)) h.0
    | inr other ↦ find_verb-answers verb more list h.1 (rw other at e)
  ]

  find_route-answers :
      (routes : List (Route b engine Out)) (resource : Bytes) (params : Params)
      (route : Route b engine Out) (params' : Params)
      → AnswersRoutes routes
      → find_route b engine Out routes resource params ≡ some (route, params')
      → AnswersCallback route.callback
  unfolding find_route
  find_route-answers [] resource params route params' h e = cc
  find_route-answers (r ∷ routes) resource params route params' h e =
      elim (Bool-cases (matches engine r.matcher resource params).0) [
        | inl hit ↦ subst (λ p. AnswersCallback p.0.callback) (some-injective _ _ (rw hit at e)) h.0
        | inr miss ↦
            find_route-answers routes resource (matches engine r.matcher resource params).1 route
              params' h.1 (rw miss at e)
      ]

  pub dispatch-answers :
      (routes : RouteList b engine Out) (verb : Verb) (resource : Bytes) (resp : Response b Out)
      → All (λ (verb, routes). AnswersRoutes routes) routes
      → Takes resp
      → IsAnswered 1 resp (dispatch b engine Out routes verb resource resp)
  unfolding dispatch
  dispatch-answers [] verb resource resp h takes = not_found-answers resource resp takes
  dispatch-answers (first ∷ routes) verb resource resp h takes =
      elim (Option-cases (find_verb b engine Out verb (first ∷ routes))) [
        | inl e ↦
            rw (e, dispatch) (stock_response-answers 400 (codes "Unknown HTTP-method") resp takes)
        | inr (list, e) ↦ elim (Option-cases (find_route b engine Out list resource [])) [
          | inl f ↦ rw (e, f, dispatch) (not_found-answers resource resp takes)
          | inr ((route, params), f) ↦
              rw (e, f, dispatch)
                (call-answers route resp params
                  (find_route-answers list resource [] route params
                    (find_verb-answers verb (first ∷ routes) list h e) f)
                  takes)
        ]
      ]
