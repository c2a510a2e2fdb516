-- ===== src/Session.antt =====
-- `http_session` of server/http_session.cc and http_session.hh, with its queue. The operations that
-- it leaves to the stream are counted: reads and writes that are outstanding; each event is the
-- completion of one of them. `none` is a failed assertion or undefined behaviour.
pub mod Order
pub mod Reads
pub mod Flow
use http_router.Base.{
  ℕ, zero, suc, ◌-◌, Bool, true, false, not, ◌&&◌, ◌||◌, Option, none, some, List, [], ◌∷◌, ◌++◌,
  Bytes, length, leb, ltb, ◌==◌, if◌then◌else◌, ◌>>=◌,
}
use http_router.Beast.{Beast, server}
use http_router.Request.{BeastRequest, Request, make_request}
use http_router.Response.{Message, Response, make_response, set}
use http_router.PathCompiler.Matcher.{Engine}
use http_router.Router.{Router, before_send, sending_from, handle_request}

-- `queue::limit`
abbrev pub limit : ℕ
limit = 8

-- What a read ends with; `after` is what stands in memory behind the target.
pub data Read : Type 0 where
  end_of_stream read_error : Read
  read_request : BeastRequest → (after : Bytes) → Read

module _ (b : Beast) where
  -- `wire` holds the messages whose `async_write` was started, in order.
  pub record Queue : Type 0 where
    pub items : List (Message b)
    pub wire : List (Message b)
    pub writes : ℕ

  abbrev pub empty_queue : Queue
  empty_queue = record { items = []; wire = []; writes = 0 }

  unfoldable pub is_full : Queue → Bool
  is_full q = leb limit (length q.items)

  -- `(*items_.front())()`, where there is an item
  unfoldable pub start_front : List (Message b) → Queue → Queue
  start_front [] q = q
  start_front (front ∷ items) q = record {
    items = front ∷ items;
    wire = q.wire ++ (front ∷ []);
    writes = suc q.writes;
  }

  unfoldable pub queue_send : Message b → Queue → Queue
  unfolding start_front
  queue_send msg q =
      let items = q.items ++ (msg ∷ []) in
      let pushed = record q { items = items } in
      if length items == 1 then start_front items pushed else pushed

  -- Behind the assertion
  unfoldable pub erase_front : List (Message b) → Queue → Option Queue
  unfolding start_front
  erase_front [] q = none
  erase_front (front ∷ items) q = some (start_front items (record q { items = items }))

  -- `queue::on_write`
  unfoldable pub queue_on_write : Queue → Option (Bool × Queue)
  unfolding is_full erase_front
  queue_on_write q = do q' ← erase_front q.items q; some (is_full q, q')

  module _ (engine : Engine) where
    unfoldable pub send_response :
        Router b engine Queue → Request → Message b → Queue → Option Queue
    unfolding queue_send sending_from
    send_response router req msg q = do
      header ← before_send b engine Queue router req msg.header
      some (queue_send (record msg { header = header }) q)

    pub record Session : Type 0 where
      pub router : Router b engine Queue
      pub server_name : Bytes
      pub remote : Bytes
      pub queue : Queue
      pub reads : ℕ
      pub shutdown : Bool

    -- The constructor
    abbrev pub new_session : Router b engine Queue → Bytes → Bytes → Session
    new_session router server_name remote = record {
      router = router;
      server_name = server_name;
      remote = remote;
      queue = empty_queue;
      reads = 0;
      shutdown = false;
    }

    -- `do_read` and `do_close`: what they ask of the stream
    abbrev pub do_read : Session → Session
    do_read s = record s { reads = suc s.reads }

    abbrev pub do_close : Session → Session
    do_close s = record s { shutdown = true }

    abbrev pub session_run : Session → Session
    session_run s = do_read s

    -- The response that `on_read` hands over to the router
    abbrev pub response_for : Session → BeastRequest → Request → Response b Queue
    response_for s req request =
        let resp =
          set b Queue server s.server_name
            (make_response b Queue req.version request (send_response s.router) s.queue) in
        record resp { header = b.set_keep_alive (req.keep_alive || ltb 10 req.version) resp.header }

    abbrev read_more : Session → Session
    read_more s = if not (is_full s.queue) then do_read s else s

    -- `on_read`, of a read that is no more outstanding
    unfoldable pub on_read : Read → Session → Option Session
    unfolding make_request send_response is_full
    on_read end_of_stream s = some (do_close s)
    on_read read_error s = some s
    on_read (read_request req after) s = do
      request ← make_request req s.remote after
      resp ← handle_request b engine Queue s.router (response_for s req request)
      some (read_more (record s { queue = resp.out }))

    -- `on_write`, of a write that is no more outstanding
    unfoldable pub on_write : (close error : Bool) → Session → Option Session
    unfolding queue_on_write
    on_write close true s = some s
    on_write true false s = some (do_close s)
    on_write false false s = do
      (was_full, queue) ← queue_on_write s.queue
      some (if was_full then do_read (record s { queue = queue }) else record s { queue = queue })
