-- ===== src/Session/Flow/Sound.antt =====
-- That every session is sound: bounded, never stuck, and with one answer for each request.
use http_router.Base.{
  ℕ, suc, ◌≡◌, refl, sym, ap, subst, ◌∙◌, Bool, true, false, not, ◌||◌, some, [], ◌∷◌, arith, Bytes,
  length, length-append, if◌then◌else◌, some_of_bind,
}
use mathlib.Core.Option.{some-injective}
use http_router.Beast.{Beast}
use http_router.Request.{BeastRequest, make_request}
use http_router.PathCompiler.Matcher.{Engine}
use http_router.Router.{Router}
use http_router.Router.Answers.{AnswersRouter}
use http_router.Session.{Queue, queue_on_write, Session, read_request, on_read, on_write, do_read}
use http_router.Session.Order.{outgoing, queue_on_write-IsWritten}
use http_router.Session.Reads.{PreparesAll, on_read-answers}
use http_router.Session.Flow.{
  with_reads, with_writes, Reaches, begins, gets, loses, writes, IsFlowing, IsStep, gets-IsFlowing,
  loses-IsFlowing, wrote-IsFlowing, begins-IsFlowing,
}

module _ (b : Beast) (engine : Engine) where
  -- How many requests a session has got
  abbrev pub requests :
      {router : Router b engine (Queue b)} {reading writing : Bool} {s : Session b engine}
      → Reaches b engine router reading writing s
      → ℕ
  requests (begins server_name remote) = 0
  requests (gets s' n req after r e f) = suc (requests r)
  requests (loses s' n read r e k f) = requests r
  requests (writes s' n error r e f) = requests r

  pub record IsSound (router : Router b engine (Queue b)) (reading writing : Bool) (count : ℕ)
      (s : Session b engine) : Type 0 where
    pub same_router : s.router ≡ router
    pub flow : IsFlowing b engine reading writing s
    pub answered : length (outgoing b s.queue) ≡ count

  gets-IsSound :
      (router : Router b engine (Queue b)) (writing : Bool) (count n : ℕ) (s s' : Session b engine)
      (req : BeastRequest) (after : Bytes)
      → AnswersRouter b engine (Queue b) router
      → PreparesAll b engine router
      → IsSound router true writing count s
      → s.reads ≡ suc n
      → on_read b engine (read_request req after) (with_reads b engine n s) ≡ some s'
      → IsSound router true writing (suc count) s'
  unfolding on_read
  gets-IsSound router writing count n s s' req after answers prepares h e f =
      let (request, made, _) = some_of_bind (make_request req s.remote after) _ s' f in
      let (msg, s'', ran, is) =
        on_read-answers b engine (with_reads b engine n s) req after request
          (subst (AnswersRouter b engine (Queue b)) (sym h.same_router) answers)
          (subst (PreparesAll b engine) (sym h.same_router) prepares request) made in
      subst (IsSound router true writing (suc count)) (some-injective _ _ (sym ran ∙ f)) (record {
        same_router = is.same_router ∙ h.same_router;
        flow = gets-IsFlowing b engine writing msg n s s'' h.flow e is;
        answered =
            ap length is.queued.order
            ∙ omega (arith, length-append (outgoing b s.queue) (msg ∷ []), h.answered);
      })

  ended :
      (reading writing shutdown : Bool) (n : ℕ) (s : Session b engine)
      → IsFlowing b engine reading writing s
      → s.queue.writes ≡ suc n
      → IsFlowing b engine reading false
          (record s { queue = record s.queue { writes = n }; shutdown = shutdown })
  ended reading writing shutdown n s h e = record {
    at_most = h.at_most;
    reads = h.reads;
    writes = ground (arith, h.writes, e);
    read_end = h.read_end;
    write_end = ground (arith, h.writes, e);
  }

  abbrev written : Bool → Queue b → Session b engine → Session b engine
  written was_full q s =
      if was_full then do_read b engine (record s { queue = q }) else record s { queue = q }

  wrote_same :
      (was_full : Bool) (q : Queue b) (s : Session b engine)
      → outgoing b q ≡ outgoing b s.queue
      → ((written was_full q s).router ≡ s.router)
        × (outgoing b (written was_full q s).queue ≡ outgoing b s.queue)
  wrote_same true q s e = (refl, e)
  wrote_same false q s e = (refl, e)

  on_write_lem :
      (n : ℕ) (s : Session b engine) (was_full : Bool) (q : Queue b)
      → queue_on_write b (record s.queue { writes = n }) ≡ some (was_full, q)
      → on_write b engine false false (with_writes b engine n s) ≡ some (written was_full q s)
  unfolding on_write
  on_write_lem n s was_full q e = rw (e, on_write) refl

  write_flow :
      (reading writing close error : Bool) (n : ℕ) (s s' : Session b engine)
      → IsFlowing b engine reading writing s
      → s.queue.writes ≡ suc n
      → on_write b engine close error (with_writes b engine n s) ≡ some s'
      → IsStep b engine reading (not (error || close)) s s'
  unfolding on_write
  write_flow reading writing close true n s s' h e f =
      subst (IsStep b engine reading false s) (some-injective _ _ f)
        (ended reading writing s.shutdown n s h e, refl, refl)
  write_flow reading writing true false n s s' h e f =
      subst (IsStep b engine reading false s) (some-injective _ _ f)
        (ended reading writing true n s h e, refl, refl)
  write_flow reading false false false n s s' h e f = absurd (omega (arith, h.writes, e))
  write_flow reading true false false n s s' h e f =
      let (was_full, q, ran, k) =
        queue_on_write-IsWritten b (record s.queue { writes = n }) (ground (arith, h.writes, e)) in
      subst (IsStep b engine reading true s)
        (some-injective _ _ (sym (on_write_lem n s was_full q ran) ∙ f))
        (
          wrote-IsFlowing b engine reading n s was_full q h e k,
          (wrote_same was_full q s k.order).0,
          (wrote_same was_full q s k.order).1,
        )

  stepped :
      (router : Router b engine (Queue b)) (r w r' w' : Bool) (count : ℕ) (s s' : Session b engine)
      → IsSound router r w count s
      → IsStep b engine r' w' s s'
      → IsSound router r' w' count s'
  stepped router r w r' w' count s s' h (flow, same, order) = record {
    same_router = same ∙ h.same_router;
    flow = flow;
    answered = ap length order ∙ h.answered;
  }

  -- Whatever requests a connection brings, and in whichever order its reads and writes complete: at
  -- most eight messages wait in the queue, which has been given one for each request; while the connection is up exactly one read is outstanding where the queue is not full and none
  -- where it is, and exactly one write where there are items, so that no session comes to a
  -- halt. Behind the end of the stream nothing more is read; and behind a failed write, or a
  -- message that closes the connection, nothing more is written, whatever is still queued. What is
  -- relied on is what the router relies on, and that the filters prepare the header of every message
  -- without a fault.
  pub Reaches-IsSound :
      (router : Router b engine (Queue b)) (reading writing : Bool) (s : Session b engine)
      → AnswersRouter b engine (Queue b) router
      → PreparesAll b engine router
      → (r : Reaches b engine router reading writing s)
      → IsSound router reading writing (requests r) s
  Reaches-IsSound router reading writing s answers prepares (begins server_name remote) = record {
    same_router = refl;
    flow = begins-IsFlowing b engine router server_name remote;
    answered = refl;
  }
  Reaches-IsSound router reading writing s answers prepares (gets s' n req after r e f) =
      gets-IsSound router writing (requests r) n _ s' req after answers prepares
        (Reaches-IsSound router true writing _ answers prepares r) e f
  Reaches-IsSound router reading writing s answers prepares (loses s' n read r e k f) =
      stepped router true writing false writing (requests r) _ s'
        (Reaches-IsSound router true writing _ answers prepares r)
        (loses-IsFlowing b engine writing n _ s' read
          (Reaches-IsSound router true writing _ answers prepares r).flow e k f)
  Reaches-IsSound router reading writing s answers prepares (writes s' n error r e f) =
      stepped router reading _ reading writing (requests r) _ s'
        (Reaches-IsSound router reading _ _ answers prepares r)
        (write_flow reading _ _ error n _ s'
          (Reaches-IsSound router reading _ _ answers prepares r).flow e f)
