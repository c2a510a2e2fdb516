-- ===== src/Listener.antt =====
-- libs/http-router/src/server/server.cc with include/http-router/server.hh, and `fail` of
-- server/beast.hh. The acceptor and the name of the host are a parameter. Accepts that are
-- outstanding are counted, sessions that were started and texts on the standard error stream are
-- listed; the event of a listener is the completion of an accept.
pub mod Serving
pub mod SetUp
use http_router.Base.{
  ℕ, zero, suc, Bool, true, false, Option, none, some, List, [], ◌∷◌, ◌++◌, Bytes, codes, length,
  ◌==◌, if◌then◌else◌,
}
use http_router.Beast.{Beast}
use http_router.PathCompiler.Matcher.{Engine}
use http_router.Router.{Router}
use http_router.Session.{Queue, Session, new_session, session_run}

-- How the question for the port ends: with a port, or with one of two kinds of exception
pub data Port : Type 0 where
  port : ℕ → Port
  system_error : (message : Bytes) → Port
  other_exception : Port

-- `error_code`: the message of an error, or none
abbrev pub ErrorCode : Type 0
ErrorCode = Option Bytes

-- What the code uses of Boost.Asio
pub record Asio : Type 1 where
  pub Acceptor : Type 0
  pub Endpoint : Type 0
  pub new_acceptor : Acceptor
  pub acceptor_open : Endpoint → Acceptor → ErrorCode × Acceptor
  pub set_reuse_address : Bool → Acceptor → ErrorCode × Acceptor
  pub acceptor_bind : Endpoint → Acceptor → ErrorCode × Acceptor
  pub acceptor_listen : Acceptor → ErrorCode × Acceptor
  pub local_port : Acceptor → Port
  pub host_name : ErrorCode × Bytes
  pub version_string : Bytes

-- `local_endpoint`
pub record LocalEndpoint : Type 0 where
  pub interface : Bytes
  pub port : ℕ

abbrev pub no_endpoint : LocalEndpoint
no_endpoint = record { interface = []; port = 0 }

-- `fail`, where `ui_to_utf8` is the identity
abbrev pub fail_text : Bytes → Bytes → Bytes
fail_text what message = codes "http-router: " ++ (what ++ (codes ": " ++ (message ++ (10 ∷ []))))

-- What an accept ends with: an error, or a socket whose remote endpoint is or is not to be had
pub data Accepted : Type 0 where
  accept_error : (message : Bytes) → Accepted
  no_remote : (message : Bytes) → Accepted
  connection_from : (remote : Bytes) → Accepted

module _ (b : Beast) (engine : Engine) (asio : Asio) where
  pub record Listener : Type 0 where
    pub acceptor : asio.Acceptor
    pub server_name : Bytes
    pub router : Router b engine (Queue b)
    pub accepts : ℕ
    pub sessions : List (Session b engine)
    pub reports : List Bytes

  abbrev pub fail : Bytes → Bytes → Listener → Listener
  fail message what l = record l { reports = l.reports ++ (fail_text what message ∷ []) }

  -- One step of the constructor, `if (ec) { fail(ec, what); return; }` behind it
  abbrev pub checked :
      Bytes → (Listener → Listener) → ErrorCode × asio.Acceptor → Listener → Listener
  checked what next (some message, acceptor) l =
      fail message what (record l { acceptor = acceptor })
  checked what next (none, acceptor) l = next (record l { acceptor = acceptor })

  abbrev pub attempt :
      Bytes
      → (asio.Acceptor → ErrorCode × asio.Acceptor)
      → (Listener → Listener)
      → Listener
      → Listener
  attempt what step next l = checked what next (step l.acceptor) l

  -- The constructor
  unfoldable pub make_listener : asio.Endpoint → Bytes → Router b engine (Queue b) → Bool → Listener
  make_listener endpoint server_name router reuse_address_opt =
      attempt (codes "open") (asio.acceptor_open endpoint)
        (attempt (codes "set_option") (asio.set_reuse_address reuse_address_opt) (
          attempt (codes "bind") (asio.acceptor_bind endpoint)
            (attempt (codes "listen") asio.acceptor_listen (λ l. l))))
        (record {
          acceptor = asio.new_acceptor;
          server_name = server_name;
          router = router;
          accepts = 0;
          sessions = [];
          reports = [];
        })

  abbrev pub next_accept : Listener → Listener
  next_accept l = record l { accepts = suc l.accepts }

  abbrev pub host_name : ErrorCode × Bytes → Listener → Bytes × Listener
  host_name (some message, result) l = (codes "localhost", fail message (codes "host_name") l)
  host_name (none, result) l = (result, l)

  -- The lambda in `run`
  abbrev pub find_port : Port → Listener → ℕ × Listener
  find_port (port p) l = (p, l)
  find_port (system_error message) l = (0, fail message (codes "local_endpoint") l)
  find_port other_exception l = (0, l)

  abbrev pub run_at : ℕ × Listener → LocalEndpoint × Listener
  run_at (p, l) =
      if p == 0
      then (no_endpoint, l)
      else let (interface, l') = host_name asio.host_name (next_accept l) in
        (record { interface = interface; port = p }, l')

  unfoldable pub run : Listener → LocalEndpoint × Listener
  run l = run_at (find_port (asio.local_port l.acceptor) l)

  -- `std::make_shared<http_session>(...)->run()`
  abbrev pub start_session : Bytes → Listener → Listener
  start_session remote l = record l {
    sessions =
        l.sessions
        ++ (session_run b engine (new_session b engine l.router l.server_name remote) ∷ []);
  }

  -- `on_accept`, of an accept that is no more outstanding
  unfoldable pub on_accept : Accepted → Listener → Listener
  on_accept (accept_error message) l = next_accept (fail message (codes "accept") l)
  on_accept (no_remote message) l = next_accept (fail message (codes "accept/remote_endpoint") l)
  on_accept (connection_from remote) l = next_accept (start_session remote l)

  abbrev pub full_name : Bytes → Bytes
  full_name server_name =
      if length server_name == 0
      then asio.version_string
      else server_name ++ (b' ' ∷ asio.version_string)

  unfoldable pub listen :
      asio.Endpoint → Router b engine (Queue b) → Bytes → Bool → LocalEndpoint × Listener
  unfolding make_listener run
  listen endpoint handler server_name reuse_address_opt =
      run (make_listener endpoint (full_name server_name) handler reuse_address_opt)
