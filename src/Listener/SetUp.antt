-- ===== src/Listener/SetUp.antt =====
-- What `listen` leaves, whichever call of the set-up fails.
use http_router.Base.{
  ℕ, suc, ◌≡◌, refl, sym, ap, subst, ◌∙◌, Bool, none, some, List, [], ◌∷◌, ◌++◌, Bytes, codes,
  append-nil, ◌==◌, if◌then◌else◌, Bool-cases, inl, inr, ==_iff,
}
use http_router.Beast.{Beast}
use http_router.PathCompiler.Matcher.{Engine}
use http_router.Router.{Router}
use http_router.Session.{Queue}
use http_router.Listener.{
  Asio, ErrorCode, Listener, LocalEndpoint, Port, port, system_error, other_exception, fail_text,
  checked, attempt, make_listener, find_port, run_at, run, listen, full_name, host_name,
  next_accept,
}

-- The port that is taken: none where the question for it ends in an exception
abbrev pub port_number : Port → ℕ
port_number (port p) = p
port_number _ = 0

abbrev pub port_texts : Port → List Bytes
port_texts (system_error message) = fail_text (codes "local_endpoint") message ∷ []
port_texts _ = []

abbrev pub host_texts : ErrorCode → List Bytes
host_texts (some message) = fail_text (codes "host_name") message ∷ []
host_texts none = []

module _ (b : Beast) (engine : Engine) (asio : Asio) where
  abbrev pub Step : Type 0
  Step = Bytes × (asio.Acceptor → ErrorCode × asio.Acceptor)

  -- The steps up to the first that fails: what is reported, and the acceptor that is left
  unfoldable pub first_failure : List Step → asio.Acceptor → List Bytes × asio.Acceptor
  first_failure [] acceptor = ([], acceptor)
  first_failure ((what, step) ∷ steps) acceptor = elim (step acceptor).0 [
    | some message ↦ (fail_text what message ∷ [], (step acceptor).1)
    | none ↦ first_failure steps (step acceptor).1
  ]

  abbrev pub set_up : asio.Endpoint → Bool → List Step
  set_up endpoint reuse =
      (codes "open", asio.acceptor_open endpoint)
      ∷ (codes "set_option", asio.set_reuse_address reuse)
      ∷ (codes "bind", asio.acceptor_bind endpoint)
      ∷ (codes "listen", asio.acceptor_listen)
      ∷ []

  nested : List Step → Listener b engine asio → Listener b engine asio
  nested [] l = l
  nested ((what, step) ∷ steps) l = attempt b engine asio what step (nested steps) l

  abbrev pub left_by : List Bytes × asio.Acceptor → Listener b engine asio → Listener b engine asio
  left_by (texts, acceptor) l = record l { acceptor = acceptor; reports = l.reports ++ texts }

  step_lem :
      (what : Bytes) (steps : List Step) (r : ErrorCode × asio.Acceptor)
      (l : Listener b engine asio)
      → ((k : Listener b engine asio) → nested steps k ≡ left_by (first_failure steps k.acceptor) k)
      → checked b engine asio what (nested steps) r l
        ≡ left_by
            (elim r.0 [
              | some message ↦ (fail_text what message ∷ [], r.1)
              | none ↦ first_failure steps r.1
            ])
            l
  step_lem what steps (some message, acceptor) l ih = refl
  step_lem what steps (none, acceptor) l ih = ih (record l { acceptor = acceptor })

  nested_lem :
      (steps : List Step) (l : Listener b engine asio)
      → nested steps l ≡ left_by (first_failure steps l.acceptor) l
  unfolding nested first_failure
  nested_lem [] l = sym (λ i. record l { reports = append-nil l.reports i })
  nested_lem ((what, step) ∷ steps) l = step_lem what steps (step l.acceptor) l (nested_lem steps)

  abbrev pub untouched : Bytes → Router b engine (Queue b) → Listener b engine asio
  untouched server_name router = record {
    acceptor = asio.new_acceptor;
    server_name = server_name;
    router = router;
    accepts = 0;
    sessions = [];
    reports = [];
  }

  pub make_listener_lem :
      (endpoint : asio.Endpoint) (server_name : Bytes) (router : Router b engine (Queue b))
      (reuse : Bool)
      → make_listener b engine asio endpoint server_name router reuse
        ≡ left_by
            (first_failure (set_up endpoint reuse) asio.new_acceptor)
            (untouched server_name router)
  unfolding make_listener nested
  make_listener_lem endpoint server_name router reuse =
      nested_lem (set_up endpoint reuse) (untouched server_name router)

  -- What is left of the set-up: its reports, and the acceptor
  abbrev pub Left : Type 0
  Left = List Bytes × asio.Acceptor

  pub record IsSetUp (left : Left) (given : LocalEndpoint) (l : Listener b engine asio)
      : Type 0 where
    pub given_port : given.port ≡ port_number (asio.local_port left.1)
    pub pending : l.accepts ≡ (if given.port == 0 then 0 else 1)
    pub texts :
        l.reports
        ≡ left.0
          ++ (port_texts (asio.local_port left.1)
              ++ (if given.port == 0 then [] else host_texts asio.host_name.0))
    pub same_acceptor : l.acceptor ≡ left.1

  pub host_name_lem :
      (r : ErrorCode × Bytes) (l : Listener b engine asio)
      → (host_name b engine asio r l).1 ≡ record l { reports = l.reports ++ host_texts r.0 }
  host_name_lem (some message, result) l = refl
  host_name_lem (none, result) l = sym (λ i. record l { reports = append-nil l.reports i })

  abbrev IsOutcome :
      (p : ℕ) (texts : List Bytes) (l : Listener b engine asio)
      → LocalEndpoint × Listener b engine asio
      → Type 0
  IsOutcome p texts l (given, l') =
      (given.port ≡ p)
      × (l'.accepts ≡ (if given.port == 0 then 0 else 1))
      × (l'.reports
          ≡ l.reports ++ (texts ++ (if given.port == 0 then [] else host_texts asio.host_name.0)))
      × (l'.acceptor ≡ l.acceptor)

  run_at-IsOutcome :
      (p : ℕ) (l : Listener b engine asio)
      → l.accepts ≡ 0
      → IsOutcome p [] l (run_at b engine asio (p, l))
  run_at-IsOutcome p l e = elim (Bool-cases (p == 0)) [
    | inl zero_port ↦
        rw zero_port (sym ((==_iff p 0).0 zero_port), e, sym (append-nil l.reports), refl)
    | inr some_port ↦
        let ran = host_name_lem asio.host_name (next_accept b engine asio l) in
        rw some_port (
          refl,
          rw some_port (ap (λ k. k.accepts) ran ∙ ap suc e),
          rw some_port (ap (λ k. k.reports) ran),
          ap (λ k. k.acceptor) ran,
        )
  ]

  -- `run`, from a listener that has no accept outstanding
  find_port-IsOutcome :
      (q : Port) (l : Listener b engine asio)
      → l.accepts ≡ 0
      → IsOutcome
          (port_number q)
          (port_texts q)
          l
          (run_at b engine asio (find_port b engine asio q l))
  find_port-IsOutcome (port p) l e = run_at-IsOutcome p l e
  find_port-IsOutcome (system_error message) l e = (refl, e, refl, refl)
  find_port-IsOutcome other_exception l e = (refl, e, sym (append-nil l.reports), refl)

  run_lem :
      (l : Listener b engine asio)
      → run b engine asio l
        ≡ run_at b engine asio (find_port b engine asio (asio.local_port l.acceptor) l)
  unfolding run
  run_lem l = refl

  listen_lem :
      (endpoint : asio.Endpoint) (handler : Router b engine (Queue b)) (server_name : Bytes)
      (reuse : Bool)
      → listen b engine asio endpoint handler server_name reuse
        ≡ run b engine asio (
            make_listener b engine asio endpoint
              (full_name b engine asio server_name)
              handler
              reuse)
  unfolding listen
  listen_lem endpoint handler server_name reuse = refl

  pub listen-run_at :
      (endpoint : asio.Endpoint) (handler : Router b engine (Queue b)) (server_name : Bytes)
      (reuse : Bool)
      → let left = first_failure (set_up endpoint reuse) asio.new_acceptor in
        listen b engine asio endpoint handler server_name reuse
        ≡ run_at b engine asio (
            find_port b engine asio
              (asio.local_port left.1)
              (left_by left (untouched (full_name b engine asio server_name) handler)))
  listen-run_at endpoint handler server_name reuse =
      listen_lem endpoint handler server_name reuse
      ∙ ap (run b engine asio)
          (make_listener_lem endpoint (full_name b engine asio server_name) handler reuse)
      ∙ run_lem _

  of_run :
      (left : Left) (name : Bytes) (handler : Router b engine (Queue b))
      (r : LocalEndpoint × Listener b engine asio)
      → IsOutcome
          (port_number (asio.local_port left.1))
          (port_texts (asio.local_port left.1))
          (left_by left (untouched name handler))
          r
      → IsSetUp left r.0 r.1
  of_run left name handler r (p, accepts, texts, acceptor) = record {
    given_port = p;
    pending = accepts;
    texts = texts;
    same_acceptor = acceptor;
  }

  -- Whatever the calls of Asio return: `listen` makes the calls of the set-up up to the first that
  -- fails, and reports that one alone. The port that it gives is that of the acceptor, whether the
  -- set-up failed or not; one accept is outstanding where there is a port, and none where there is
  -- not. Failures of the calls for the port and for the name of the host are reported too.
  pub listen-IsSetUp :
      (endpoint : asio.Endpoint) (handler : Router b engine (Queue b)) (server_name : Bytes)
      (reuse : Bool)
      → let (given, l) = listen b engine asio endpoint handler server_name reuse in
        IsSetUp (first_failure (set_up endpoint reuse) asio.new_acceptor) given l
  listen-IsSetUp endpoint handler server_name reuse =
      let left = first_failure (set_up endpoint reuse) asio.new_acceptor in
      let name = full_name b engine asio server_name in
      subst (λ r. IsSetUp left r.0 r.1) (sym (listen-run_at endpoint handler server_name reuse))
        (of_run left name handler _ (
          find_port-IsOutcome (asio.local_port left.1) (left_by left (untouched name handler))
            refl))
