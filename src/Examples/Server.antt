-- ===== src/Examples/Server.antt =====
-- Listeners, over an acceptor that knows its port.
use http_router.Base.{ℕ, ◌≡◌, ◌≢◌, refl, true, none, some, [], arith, codes, length}
use http_router.Router.{Router}
use http_router.Session.{Queue}
use http_router.Listener.{
  Asio, port, LocalEndpoint, Listener, listen, on_accept, connection_from, no_remote, full_name,
}
use http_router.Listener.SetUp.{first_failure, set_up, IsSetUp, listen-IsSetUp}
use http_router.Listener.Serving.{
  Serves, starts, accepts, IsServing, remotes, failures, with_accepts, listen-IsServing,
}
use http_router.Examples.Http.{beast}
use http_router.Examples.Sessions.{literal}

-- An acceptor is its port; `acceptor_listen` fails, as where another process listens there already.
abbrev in_use : Asio
in_use = record {
  Acceptor = ℕ;
  Endpoint = ℕ;
  new_acceptor = 0;
  acceptor_open = λ endpoint acceptor. (none, acceptor);
  set_reuse_address = λ reuse acceptor. (none, acceptor);
  acceptor_bind = λ endpoint acceptor. (none, endpoint);
  acceptor_listen = λ acceptor. (some (codes "in use"), acceptor);
  local_port = λ acceptor. port acceptor;
  host_name = (none, codes "host");
  version_string = codes "Beast";
}

abbrev idle : Router beast literal (Queue beast)
idle = record { routes = []; filters = [] }

abbrev result : LocalEndpoint × Listener beast literal in_use
result = listen beast literal in_use 9000 idle (codes "server") true

listen-IsSetUp_example :
    IsSetUp beast literal in_use
      (first_failure beast literal in_use (set_up beast literal in_use 9000 true) 0)
      result.0
      result.1
listen-IsSetUp_example = listen-IsSetUp beast literal in_use 9000 idle (codes "server") true

-- The port is given although nothing listens there, and the one report tells of it.
half_open : (result.0.port ≡ 9000) × (length result.1.reports ≡ 1) × (result.1.accepts ≡ 1)
unfolding listen
half_open = (refl, refl, refl)

given : result.0.port ≢ 0
unfolding listen
given e = absurd (omega (arith, e))

one_waits :
    (on_accept beast literal in_use
      (no_remote (codes "gone"))
      (with_accepts beast literal in_use 0 result.1)).accepts
    ≡ 1
unfolding on_accept
one_waits = refl

met_two : Serves beast literal in_use result.1 (
    on_accept beast literal in_use (connection_from (codes "1.2.3.4")) (
      with_accepts beast literal in_use 0 (
        on_accept beast literal in_use
          (no_remote (codes "gone"))
          (with_accepts beast literal in_use 0 result.1))))
met_two =
    accepts 0 (connection_from (codes "1.2.3.4"))
      (accepts 0 (no_remote (codes "gone")) starts half_open.2) one_waits

listen-IsServing_example :
    IsServing beast literal in_use
      (full_name beast literal in_use (codes "server"))
      idle
      (length result.1.reports)
      (remotes beast literal in_use met_two)
      (failures beast literal in_use met_two)
      (on_accept beast literal in_use (connection_from (codes "1.2.3.4")) (
        with_accepts beast literal in_use 0 (
          on_accept beast literal in_use
            (no_remote (codes "gone"))
            (with_accepts beast literal in_use 0 result.1))))
listen-IsServing_example =
    listen-IsServing beast literal in_use 9000 idle (codes "server") true given met_two
