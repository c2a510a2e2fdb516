-- ===== src/Listener/Serving.antt =====
-- What a listener does for as long as it runs.
use http_router.Base.{
  ℕ, suc, ◌+◌, ◌≡◌, ◌≢◌, refl, sym, ap, ◌∙◌, Bool, List, [], ◌∷◌, ◌++◌, arith, Bytes, codes, length,
  length-append, map, append-nil, subst, inl, inr, Bool-cases, ◌==◌, All, All-append,
}
use mathlib.Core.List.{map-append}
use http_router.Beast.{Beast}
use http_router.PathCompiler.Matcher.{Engine}
use http_router.Router.{Router}
use http_router.Session.{Queue, Session}
use http_router.Listener.SetUp.{
  first_failure, set_up, host_name_lem, listen-run_at, left_by, untouched,
}
use http_router.Listener.{
  port, system_error, other_exception, full_name, find_port, next_accept, Asio, Accepted,
  accept_error, no_remote, connection_from, Listener, listen, on_accept, Port, fail_text, run_at,
}

module _ (b : Beast) (engine : Engine) (asio : Asio) where
  abbrev pub with_accepts : ℕ → Listener b engine asio → Listener b engine asio
  with_accepts n l = record l { accepts = n }

  -- The listeners that a call of `listen` with a port leads to, by the accepts that completed
  pub data Serves (start : Listener b engine asio) : Listener b engine asio → Type 0 where
    starts : Serves start start
    accepts :
        {l : Listener b engine asio} (n : ℕ) (accepted : Accepted)
        → Serves start l
        → l.accepts ≡ suc n
        → Serves start (on_accept b engine asio accepted (with_accepts n l))

  abbrev pub met : Accepted → List Bytes
  met (connection_from remote) = remote ∷ []
  met _ = []

  abbrev pub failed : Accepted → ℕ
  failed (connection_from remote) = 0
  failed _ = 1

  -- The remote ends of the connections so far, and the number of failures
  abbrev pub remotes : {start l : Listener b engine asio} → Serves start l → List Bytes
  remotes starts = []
  remotes (accepts n accepted r e) = remotes r ++ met accepted

  abbrev pub failures : {start l : Listener b engine asio} → Serves start l → ℕ
  failures starts = 0
  failures (accepts n accepted r e) = failures r + failed accepted

  -- A session of the listener: it has begun to read, and answers by the router.
  abbrev pub IsOwn : Bytes → Router b engine (Queue b) → Session b engine → Type 0
  IsOwn name handler s = (s.router ≡ handler) × (s.server_name ≡ name) × (s.reads ≡ 1)

  pub record IsServing (name : Bytes) (handler : Router b engine (Queue b)) (texts : ℕ)
      (remotes : List Bytes) (failures : ℕ) (l : Listener b engine asio) : Type 0 where
    pub one_accept : l.accepts ≡ 1
    pub same_router : l.router ≡ handler
    pub same_name : l.server_name ≡ name
    pub own : All (IsOwn name handler) l.sessions
    pub each_connection : map (λ s. s.remote) l.sessions ≡ remotes
    pub each_failure : length l.reports ≡ texts + failures

  reported :
      (name : Bytes) (handler : Router b engine (Queue b)) (texts : ℕ) (remotes : List Bytes)
      (f n : ℕ) (text : Bytes) (l : Listener b engine asio)
      → IsServing name handler texts remotes f l
      → l.accepts ≡ suc n
      → IsServing name handler texts
          (remotes ++ [])
          (f + 1)
          (record l { reports = l.reports ++ (text ∷ []); accepts = suc n })
  reported name handler texts remotes f n text l h e = record {
    one_accept = omega (arith, h.one_accept, e);
    same_router = h.same_router;
    same_name = h.same_name;
    own = h.own;
    each_connection = h.each_connection ∙ sym (append-nil remotes);
    each_failure = omega (arith, length-append l.reports (text ∷ []), h.each_failure);
  }

  on_accept-IsServing :
      (name : Bytes) (handler : Router b engine (Queue b)) (texts : ℕ) (remotes : List Bytes)
      (f n : ℕ) (accepted : Accepted) (l : Listener b engine asio)
      → IsServing name handler texts remotes f l
      → l.accepts ≡ suc n
      → IsServing name handler texts
          (remotes ++ met accepted)
          (f + failed accepted)
          (on_accept b engine asio accepted (with_accepts n l))
  unfolding on_accept
  on_accept-IsServing name handler texts remotes f n (accept_error message) l h e =
      reported name handler texts remotes f n (fail_text (codes "accept") message) l h e
  on_accept-IsServing name handler texts remotes f n (no_remote message) l h e =
      reported name handler texts remotes f n (fail_text (codes "accept/remote_endpoint") message) l
        h e
  on_accept-IsServing name handler texts remotes f n (connection_from remote) l h e = record {
    one_accept = omega (arith, h.one_accept, e);
    same_router = h.same_router;
    same_name = h.same_name;
    own =
        All-append (IsOwn name handler) l.sessions _ h.own ((h.same_router, h.same_name, refl), tt);
    each_connection =
        map-append (λ s. s.remote) l.sessions _ ∙ ap (λ r. r ++ (remote ∷ [])) h.each_connection;
    each_failure = omega (arith, h.each_failure);
  }

  -- A listener with nothing done
  abbrev IsIdle : Bytes → Router b engine (Queue b) → Listener b engine asio → Type 0
  IsIdle name handler l =
      (l.accepts ≡ 0) × (l.sessions ≡ []) × (l.router ≡ handler) × (l.server_name ≡ name)

  abbrev IsStarted : Bytes → Router b engine (Queue b) → Listener b engine asio → Type 0
  IsStarted name handler l =
      (l.accepts ≡ 1) × (l.sessions ≡ []) × (l.router ≡ handler) × (l.server_name ≡ name)

  find_port-IsIdle :
      (q : Port) (name : Bytes) (handler : Router b engine (Queue b)) (l : Listener b engine asio)
      → IsIdle name handler l
      → IsIdle name handler (find_port b engine asio q l).1
  find_port-IsIdle (port p) name handler l h = h
  find_port-IsIdle (system_error message) name handler l h = h
  find_port-IsIdle other_exception name handler l h = h

  run_at-IsStarted :
      (p : ℕ) (name : Bytes) (handler : Router b engine (Queue b)) (l : Listener b engine asio)
      → IsIdle name handler l
      → (run_at b engine asio (p, l)).0.port ≢ 0
      → IsStarted name handler (run_at b engine asio (p, l)).1
  run_at-IsStarted p name handler l (e, f, g, h) some_port = elim (Bool-cases (p == 0)) [
    | inl zero_port ↦ absurd (some_port (rw zero_port refl))
    | inr other ↦
        let ran = host_name_lem b engine asio asio.host_name (next_accept b engine asio l) in
        rw other (
          ap (λ k. k.accepts) ran ∙ ap suc e,
          ap (λ k. k.sessions) ran ∙ f,
          ap (λ k. k.router) ran ∙ g,
          ap (λ k. k.server_name) ran ∙ h,
        )
  ]

  Serves-from :
      (name : Bytes) (handler : Router b engine (Queue b)) (start : Listener b engine asio)
      → IsStarted name handler start
      → {l : Listener b engine asio} (r : Serves start l)
      → IsServing name handler (length start.reports) (remotes r) (failures r) l
  Serves-from name handler start (e, f, g, h) starts = record {
    one_accept = e;
    same_router = g;
    same_name = h;
    own = rw f tt;
    each_connection = ap (map (λ s. s.remote)) f;
    each_failure = omega arith;
  }
  Serves-from name handler start h (accepts {l} n accepted r e) =
      on_accept-IsServing name handler (length start.reports) (remotes r) (failures r) n accepted l
        (Serves-from name handler start h r) e

  -- Where `listen` gives a port, and in whichever way each accept ends: exactly one accept is
  -- outstanding at any time, so that no failure ends the serving; each connection has one session, in
  -- the order in which they came, which has begun to read, with the router and the name that were
  -- given to `listen`; and each failure of an accept is reported once.
  pub listen-IsServing :
      (endpoint : asio.Endpoint) (handler : Router b engine (Queue b)) (server_name : Bytes)
      (reuse : Bool)
      → (listen b engine asio endpoint handler server_name reuse).0.port ≢ 0
      → {l : Listener b engine asio}
        (r : Serves (listen b engine asio endpoint handler server_name reuse).1 l)
      → IsServing
          (full_name b engine asio server_name)
          handler
          (length (listen b engine asio endpoint handler server_name reuse).1.reports)
          (remotes r)
          (failures r)
          l
  listen-IsServing endpoint handler server_name reuse some_port r =
      let left =
        first_failure b engine asio (set_up b engine asio endpoint reuse) asio.new_acceptor in
      let name = full_name b engine asio server_name in
      let started =
        subst (λ r. r.0.port ≢ 0 → IsStarted name handler r.1)
          (sym (listen-run_at b engine asio endpoint handler server_name reuse))
          (let x =
              find_port b engine asio (asio.local_port left.1)
                (left_by b engine asio left (untouched b engine asio name handler)) in
            run_at-IsStarted x.0 name handler x.1 (
              find_port-IsIdle (asio.local_port left.1) name handler
                (left_by b engine asio left (untouched b engine asio name handler))
                (refl, refl, refl, refl))) in
      Serves-from name handler _ (started some_port) r
