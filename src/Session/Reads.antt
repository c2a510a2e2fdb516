-- ===== src/Session/Reads.antt =====
-- What a session makes of a request.
use http_router.Base.{
  ℕ, suc, ◌≡◌, refl, sym, ap, subst, Bool, true, false, some, Bytes, length, leb, if◌then◌else◌,
  Bool-cases, inl, inr, some_of_bind,
}
use mathlib.Core.Option.{some-injective}
use http_router.Beast.{Beast}
use http_router.Request.{BeastRequest, Request, make_request}
use http_router.Response.{Message, Response}
use http_router.PathCompiler.Matcher.{Engine}
use http_router.Router.{Router, before_send, handle_request}
use http_router.Router.Answers.{AnswersRouter}
use http_router.Router.Answers.Requests.{handle_request-answers}
use http_router.Session.{
  limit, Queue, is_full, queue_send, send_response, Session, read_request, response_for, read_more,
  on_read,
}
use http_router.Session.Order.{IsSent, queue_send-IsSent}

module _ (b : Beast) (engine : Engine) where
  -- No filter fails on the header of a message for the request; and so for every request.
  abbrev pub Prepares : Router b engine (Queue b) → Request → Type 0
  Prepares router req =
      (header : b.Header)
      → (header' : b.Header) × (before_send b engine (Queue b) router req header ≡ some header')

  abbrev pub PreparesAll : Router b engine (Queue b) → Type 0
  PreparesAll router = (req : Request) → Prepares router req

  send_response-takes :
      (router : Router b engine (Queue b)) (req : Request) (msg : Message b) (q : Queue b)
      → Prepares router req
      → (q' : Queue b) × (send_response b engine router req msg q ≡ some q')
  unfolding send_response
  send_response-takes router req msg q h =
      let (header, e) = h msg.header in
      (queue_send b (record msg { header = header }) q, rw (e, send_response) refl)

  send_response-IsSent :
      (router : Router b engine (Queue b)) (req : Request) (msg : Message b) (q q' : Queue b)
      → send_response b engine router req msg q ≡ some q'
      → (msg' : Message b) × IsSent b msg' q q'
  unfolding send_response
  send_response-IsSent router req msg q q' e =
      let (header, _, same) =
        some_of_bind (before_send b engine (Queue b) router req msg.header) _ q' e in
      (
        record msg { header = header },
        subst (IsSent b _ q) (some-injective _ _ same) (queue_send-IsSent b q _),
      )

  pub record IsRead (msg : Message b) (s s' : Session b engine) : Type 0 where
    pub queued : IsSent b msg s.queue s'.queue
    pub reads_on : s'.reads ≡ (if leb limit (length s'.queue.items) then s.reads else suc s.reads)
    pub same_router : s'.router ≡ s.router

  reads_where :
      (q : Queue b) (reads : ℕ) (full : Bool)
      → is_full b q ≡ full
      → (if full then reads else suc reads)
        ≡ (if leb limit (length q.items) then reads else suc reads)
  unfolding is_full
  reads_where q reads full e = ap (λ f. if f then reads else suc reads) (sym e)

  read_more-IsRead :
      (msg : Message b) (s : Session b engine) (q : Queue b)
      → IsSent b msg s.queue q
      → IsRead msg s (read_more b engine (record s { queue = q }))
  read_more-IsRead msg s q h = elim (Bool-cases (is_full b q)) [
    | inl e ↦
        rw e (record { queued = h; reads_on = reads_where q s.reads true e; same_router = refl })
    | inr e ↦
        rw e (record { queued = h; reads_on = reads_where q s.reads false e; same_router = refl })
  ]

  on_read_lem :
      (s : Session b engine) (req : BeastRequest) (after : Bytes) (request : Request)
      (resp : Response b (Queue b))
      → make_request req s.remote after ≡ some request
      → handle_request b engine (Queue b) s.router (response_for b engine s req request) ≡ some resp
      → on_read b engine (read_request req after) s
        ≡ some (read_more b engine (record s { queue = resp.out }))
  unfolding on_read
  on_read_lem s req after request resp e f = rw (e, f, on_read) refl

  -- For each request that could be read, `on_read` ends without a fault and queues exactly one
  -- message, behind all that went before. It then reads on exactly where the queue is not full. What is
  -- relied on: the router answers each request once, and its filters prepare the header of every
  -- message for this request without a fault, as a sending one without a prefix does not for `OPTIONS *`, whose path has no
  -- slash in front.
  pub on_read-answers :
      (s : Session b engine) (req : BeastRequest) (after : Bytes) (request : Request)
      → AnswersRouter b engine (Queue b) s.router
      → Prepares s.router request
      → make_request req s.remote after ≡ some request
      → (msg : Message b) × (s' : Session b engine) × (on_read b engine (read_request req after) s
          ≡ some s')
        × IsRead msg s s'
  on_read-answers s req after request h prepares made =
      let (resp, answered, sends) =
        handle_request-answers b engine (Queue b) s.router (response_for b engine s req request) h
          (λ msg q. send_response-takes s.router request msg q prepares) in
      let (before, given, same, sent) = sends.calls in
      let (msg, is) = send_response-IsSent s.router request given before resp.out sent in
      (
        msg,
        _,
        on_read_lem s req after request resp made answered,
        read_more-IsRead msg s resp.out (subst (λ q. IsSent b msg q resp.out) (sym same) is),
      )
