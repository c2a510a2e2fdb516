-- ===== src/Session/Flow.antt =====
-- The session as a whole: the states that its events lead to, and what a read and a write keep.
pub mod Sound
use http_router.Base.{
  ℕ, zero, suc, ◌+◌, ◌≤◌, ◌<◌, ◌≡◌, ◌⊎◌, refl, sym, ap, subst, ◌∙◌, Bool, true, false, not, ◌&&◌,
  ◌||◌, Option, none, some, List, [], ◌∷◌, ◌++◌, arith, Bytes, length, length-append, leb, ◌==◌,
  if◌then◌else◌, ◌>>=◌, Bool-cases, Option-cases, inl, inr, some_of_bind,
}
use mathlib.Core.Option.{some-injective}
use http_router.Beast.{Beast}
use http_router.Request.{BeastRequest, Request, make_request}
use http_router.Response.{Message}
use http_router.PathCompiler.Matcher.{Engine}
use http_router.Router.{Router}
use http_router.Router.Answers.{AnswersRouter}
use http_router.Session.{
  limit, Queue, queue_on_write, Session, new_session, session_run, Read, end_of_stream, read_error,
  read_request, on_read, on_write, do_read, do_close,
}
use http_router.Session.Order.{outgoing, IsSent, IsWritten, queue_on_write-IsWritten}
use http_router.Session.Reads.{PreparesAll, IsRead, on_read-answers}

module _ (b : Beast) (engine : Engine) where
  -- `need_eof` of the message that is being written, bound when its write was started
  abbrev pub closes : List (Message b) → Bool
  closes [] = false
  closes (front ∷ items) = b.need_eof front.header

  abbrev pub with_reads : ℕ → Session b engine → Session b engine
  with_reads n s = record s { reads = n }

  abbrev pub with_writes : ℕ → Session b engine → Session b engine
  with_writes n s = record s { queue = record s.queue { writes = n } }

  -- The states of a session. `reading` is false behind the end of the stream or an error of a read,
  -- `writing` behind an error of a write or a message that closes the connection.
  pub data Reaches (router : Router b engine (Queue b))
      : (reading writing : Bool) → Session b engine → Type 0 where
    begins :
        (server_name remote : Bytes)
        → Reaches router true true
            (session_run b engine (new_session b engine router server_name remote))
    gets :
        {writing : Bool} {s : Session b engine} (s' : Session b engine) (n : ℕ) (req : BeastRequest)
        (after : Bytes)
        → Reaches router true writing s
        → s.reads ≡ suc n
        → on_read b engine (read_request req after) (with_reads n s) ≡ some s'
        → Reaches router true writing s'
    loses :
        {writing : Bool} {s : Session b engine} (s' : Session b engine) (n : ℕ) (read : Read)
        → Reaches router true writing s
        → s.reads ≡ suc n
        → (read ≡ end_of_stream) ⊎ (read ≡ read_error)
        → on_read b engine read (with_reads n s) ≡ some s'
        → Reaches router false writing s'
    writes :
        {reading writing : Bool} {s : Session b engine} (s' : Session b engine) (n : ℕ)
        (error : Bool)
        → Reaches router reading writing s
        → s.queue.writes ≡ suc n
        → on_write b engine (closes s.queue.items) error (with_writes n s) ≡ some s'
        → Reaches router reading (not (error || closes s.queue.items)) s'

  -- The operations that are outstanding, by the number of items
  abbrev pub reads_due : Bool → ℕ → ℕ
  reads_due reading n = if reading then (if leb limit n then 0 else 1) else 0

  abbrev pub writes_due : Bool → ℕ → ℕ
  writes_due writing n = if writing then (if n == 0 then 0 else 1) else 0

  pub record IsFlowing (reading writing : Bool) (s : Session b engine) : Type 0 where
    pub at_most : length s.queue.items ≤ limit
    pub reads : s.reads ≡ reads_due reading (length s.queue.items)
    pub writes : s.queue.writes ≡ writes_due writing (length s.queue.items)
    pub read_end : (if reading then 0 else suc (length s.queue.items)) ≤ limit
    pub write_end : (if writing then 0 else 1) ≤ length s.queue.items

  pub begins-IsFlowing :
      (router : Router b engine (Queue b)) (server_name remote : Bytes)
      → IsFlowing true true (session_run b engine (new_session b engine router server_name remote))
  begins-IsFlowing router server_name remote = record {
    at_most = omega arith;
    reads = refl;
    writes = refl;
    read_end = omega arith;
    write_end = omega arith;
  }

  pub gets-IsFlowing :
      (writing : Bool) (msg : Message b) (n : ℕ) (s s' : Session b engine)
      → IsFlowing true writing s
      → s.reads ≡ suc n
      → IsRead b engine msg (with_reads n s) s'
      → IsFlowing true writing s'
  gets-IsFlowing writing msg n s s' h e k = record {
    at_most = ground (arith, h.reads, e, k.queued.more);
    reads = ground (arith, h.reads, e, k.queued.more, k.reads_on);
    writes = ground (arith, h.writes, h.write_end, k.queued.more, k.queued.started);
    read_end = omega arith;
    write_end = ground (arith, h.write_end, k.queued.more);
  }

  -- A step that queues nothing
  abbrev pub IsStep : Bool → Bool → Session b engine → Session b engine → Type 0
  IsStep reading writing s s' =
      IsFlowing reading writing s'
      × (s'.router ≡ s.router)
      × (outgoing b s'.queue ≡ outgoing b s.queue)

  end_lem :
      (n : ℕ) (s : Session b engine)
      → on_read b engine end_of_stream (with_reads n s) ≡ some (do_close b engine (with_reads n s))
  unfolding on_read
  end_lem n s = refl

  error_lem :
      (n : ℕ) (s : Session b engine)
      → on_read b engine read_error (with_reads n s) ≡ some (with_reads n s)
  unfolding on_read
  error_lem n s = refl

  lost :
      (writing shutdown : Bool) (n : ℕ) (s : Session b engine)
      → IsFlowing true writing s
      → s.reads ≡ suc n
      → IsFlowing false writing (record s { reads = n; shutdown = shutdown })
  lost writing shutdown n s h e = record {
    at_most = h.at_most;
    reads = ground (arith, h.reads, e);
    writes = h.writes;
    read_end = ground (arith, h.reads, e);
    write_end = h.write_end;
  }

  pub loses-IsFlowing :
      (writing : Bool) (n : ℕ) (s s' : Session b engine) (read : Read)
      → IsFlowing true writing s
      → s.reads ≡ suc n
      → (read ≡ end_of_stream) ⊎ (read ≡ read_error)
      → on_read b engine read (with_reads n s) ≡ some s'
      → IsStep false writing s s'
  loses-IsFlowing writing n s s' read h e (inl end) f =
      subst (IsStep false writing s)
        (some-injective _ _
          (sym (end_lem n s) ∙ ap (λ r. on_read b engine r (with_reads n s)) (sym end) ∙ f))
        (lost writing true n s h e, refl, refl)
  loses-IsFlowing writing n s s' read h e (inr error) f =
      subst (IsStep false writing s)
        (some-injective _ _
          (sym (error_lem n s) ∙ ap (λ r. on_read b engine r (with_reads n s)) (sym error) ∙ f))
        (lost writing s.shutdown n s h e, refl, refl)

  pub wrote-IsFlowing :
      (reading : Bool) (n : ℕ) (s : Session b engine) (was_full : Bool) (q : Queue b)
      → IsFlowing reading true s
      → s.queue.writes ≡ suc n
      → IsWritten b (record s.queue { writes = n }) was_full q
      → IsFlowing reading true
          (if was_full then do_read b engine (record s { queue = q }) else record s { queue = q })
  wrote-IsFlowing reading n s true q h e k = record {
    at_most = ground (arith, h.at_most, k.fewer);
    reads = ground (arith, h.reads, h.at_most, h.read_end, k.fewer, k.full);
    writes = ground (arith, h.writes, e, k.fewer, k.started);
    read_end = ground (arith, h.read_end, k.fewer);
    write_end = omega arith;
  }
  wrote-IsFlowing reading n s false q h e k = record {
    at_most = ground (arith, h.at_most, k.fewer);
    reads = ground (arith, h.reads, h.at_most, h.read_end, k.fewer, k.full);
    writes = ground (arith, h.writes, e, k.fewer, k.started);
    read_end = ground (arith, h.read_end, k.fewer);
    write_end = omega arith;
  }
