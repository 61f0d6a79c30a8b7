-- ===== src/Tests/Startup.antt =====
-- The start of the servers on a small system with a stale socket, and main on it.
use spyre_health_checker.Base.{
  ℕ, ◌≡◌, ◌↔◌, ◌⊎◌, refl, true, false, not, List, [], ◌∷◌, none, some, Text, codes, text_eq, any,
  keep, in_order, All, pos, if◌then◌else◌,
}
use spyre_health_checker.Types.{Outcome, ok, err}
use spyre_health_checker.Healthcheck.{Tick}
use spyre_health_checker.Utils.Metrics.{registered}
use spyre_health_checker.Server.Queue
use spyre_health_checker.Server.Queue.{HealthServer, stopped, Run, done, next, register, stop}
use spyre_health_checker.Server.Ready.{handle_readyz}
use spyre_health_checker.Server.Authorize.{Peer, tls, NamesOrganisation}
use spyre_health_checker.Server.Setup.{
  serve_path, start_health_http_server, stop_server, Os, Service, unlinked, not_exist, new_server,
  start_secure_grpc_server, secure_server, require_and_verify_client_cert, version_tls12,
}
use spyre_health_checker.Server.Setup.Started.{readyz_iff, served_authorized, is_stop}
use spyre_health_checker.Main.{Host}
use spyre_health_checker.Main.Flags.{default_flags}
use spyre_health_checker.Main.Startup.{Surroundings, main_run, ticked, signalled}
use spyre_health_checker.Main.Startup.Ending.{Ends, CanRun, main_run-Ends}
use spyre_health_checker.Tests.Publish.{all_there, failing, later}
use spyre_health_checker.Tests.Ras.{host}

-- The world is the list of the files that are there. A path can be listened on if it is free.
abbrev os : Os (List Text) Text
os = record {
  remove = λ files path.
      if any (text_eq path) files
      then (unlinked, keep (λ file. not (text_eq path file)) files)
      else (not_exist, files);
  load_key_pair = λ files cert key. ok (codes "key pair");
  read_file = λ files path. ok (codes "pem");
  certificates_in = λ pem. record { organization = codes "IBM" ∷ [] } ∷ [];
  listen = λ files path.
      if any (text_eq path) files
      then (some (codes "address already in use"), files)
      else (none, path ∷ files);
  shutdown = λ files server. (none, files);
  graceful_stop = λ files server. files;
  metrics = λ flags. (200, []);
}

abbrev socket : Text
socket = codes "checker.sock"

abbrev stale : List Text
stale = socket ∷ codes "ca.crt" ∷ []

abbrev fresh : Service Text
fresh = (new_server later failing).1

started_over_stale_socket :
    (start_secure_grpc_server os stale fresh socket [] [] []).1 ≡ socket ∷ codes "ca.crt" ∷ []
unfolding start_secure_grpc_server text_eq
started_over_stale_socket = refl

abbrev flags : HealthServer
flags = (start_secure_grpc_server os stale fresh socket [] [] []).2.flags

abbrev served : HealthServer
served = record flags { streaming = true; waiting = 1 ∷ [] }

abbrev shut : HealthServer
shut = record served { ready = false; is_closed = true }

-- One client registers, and then Stop is called.
client_then_stop : Run flags (Queue.registered 1 ∷ stopped ∷ []) shut
unfolding start_secure_grpc_server text_eq new_server
client_then_stop = next register (next (stop refl refl) done)

readyz_iff_example : (handle_readyz shut ≡ (200, codes "Ready")) ↔ (
    ((start_secure_grpc_server os stale fresh socket [] [] []).0 ≡ none)
    × All (λ e. is_stop e ≡ false) (Queue.registered 1 ∷ stopped ∷ []))
readyz_iff_example = readyz_iff os later failing stale socket [] [] [] client_then_stop

abbrev peer : Peer
peer = tls (record { organization = codes "IBM" ∷ [] } ∷ [])

abbrev handler : Peer → Outcome Text (Unit {0})
handler p = ok tt

served_authorized_example :
    (require_and_verify_client_cert ≡ require_and_verify_client_cert)
    × (version_tls12 ≡ version_tls12)
    × ((NamesOrganisation peer
          × ((secure_server os socket (codes "key pair") (codes "pem")).stream_interceptor peer
                handler
              ≡ handler peer))
        ⊎ ((¬ NamesOrganisation peer)
            × ((e : Text) × ((secure_server os socket
                      (codes "key pair")
                      (codes "pem")).stream_interceptor
                    peer handler
                  ≡ err e))))
unfolding start_secure_grpc_server text_eq
served_authorized_example =
    served_authorized os later failing stale socket [] [] [] peer handler refl

-- What the health endpoints of a service answer.
abbrev probe : Service Text → Text → ℕ × Text
probe s path = elim s.health_http_server [
  | none ↦ (0, [])
  | some server ↦ serve_path server.handlers path s.flags
]

not_ready_yet :
    probe (start_health_http_server fresh 8080) (codes "/readyz") ≡ (503, codes "Not Ready")
unfolding start_health_http_server serve_path text_eq new_server
not_ready_yet = refl

alive : probe (start_health_http_server fresh 8080) (codes "/healthz") ≡ (200, codes "OK")
unfolding start_health_http_server serve_path text_eq
alive = refl

not_served :
    probe (start_health_http_server fresh 8080) (codes "/metrics")
    ≡ (404, codes "404 page not found\n")
unfolding start_health_http_server serve_path text_eq
not_served = refl

-- Stop leaves no socket behind.
socket_removed :
    elim (stop_server os
      (start_secure_grpc_server os stale fresh socket [] [] []).1
      (start_secure_grpc_server os stale fresh socket [] [] []).2) [ none ↦ stale | some r ↦ r.0 ]
    ≡ codes "ca.crt" ∷ []
unfolding start_secure_grpc_server stop_server text_eq new_server
socket_removed = refl

-- A host with a RAS error, on which main is started with the interval of one nanosecond.
abbrev env : Surroundings (List Text) Text
env = record {
  getenv = λ name. [];
  arch = codes "amd64";
  os = os;
  parse_duration = λ interval. ok (pos 1);
  registration = registered;
  has_cluster_config = true;
  has_kube_client = true;
}

abbrev tick : Tick Host
tick = record { world = host; stat = all_there; range = in_order }

main_run-Ends_example :
    Ends
      (CanRun env (default_flags env.getenv) stale tick)
      (main_run env (default_flags env.getenv) stale tick tick (ticked tick ∷ signalled ∷ []))
main_run-Ends_example =
    main_run-Ends env (default_flags env.getenv) stale tick tick (ticked tick ∷ signalled ∷ [])
