-- ===== src/Server/Setup.antt =====
-- pkg/server/server.go: NewServer, the start of the three servers, and Stop. What the operating system and the
-- libraries answer is an argument.
pub mod Started
use spyre_health_checker.Base.{
  ℕ, Bool, true, false, List, [], ◌∷◌, ◌++◌, Option, none, some, Text, codes, text_eq, decimal,
  if◌then◌else◌,
}
use spyre_health_checker.Types.{Outcome, ok, err}
use spyre_health_checker.Healthcheck.{Vitals, Tick, update_states}
use spyre_health_checker.Server.Queue.{HealthServer, started_server}
use spyre_health_checker.Server.Ready.{handle_readyz}
use spyre_health_checker.Server.Authorize.{Certificate, Peer, authorize_stream, authorize_unary}

-- `tls.ClientAuthType`
pub data ClientAuth : Type 0 where
  no_client_cert request_client_cert require_any_client_cert : ClientAuth
  verify_client_cert_if_given require_and_verify_client_cert : ClientAuth

-- `tls.Config`, for a type of key pairs
pub record TlsConfig (K : Type 0) : Type 0 where
  pub certificate : K
  pub min_version : ℕ
  pub client_cas : List Certificate
  pub client_auth : ClientAuth

-- `tls.VersionTLS12`
abbrev pub version_tls12 : ℕ
version_tls12 = 0x0303

-- A gRPC server that serves the health service on a socket.
pub record GrpcServer (K : Type 0) : Type 0 where
  pub creds : TlsConfig K
  pub stream_interceptor : Peer → (Peer → Outcome Text (Unit {0})) → Outcome Text (Unit {0})
  pub unary_interceptor : Peer → Text → (Peer → Text → Outcome Text Text) → Outcome Text Text
  pub socket : Text

-- A handler answers with a status and a body.
abbrev pub Handler : Type 0
Handler = HealthServer → ℕ × Text

-- An HTTP server, with the paths of its `ServeMux`.
pub record HttpServer : Type 0 where
  pub addr : Text
  pub handlers : List (Text × Handler)

-- The fields of `healthServer` that hold the servers, next to its flags.
pub record Service (K : Type 0) : Type 0 where
  pub flags : HealthServer
  pub socket : Text
  pub grpc_server : Option (GrpcServer K)
  pub health_http_server : Option HttpServer
  pub metrics_http_server : Option HttpServer

-- What `os.Remove` does.
pub data Removal : Type 0 where
  unlinked not_exist : Removal
  remove_failed : Text → Removal

-- The calls that the servers make, which read or change a world `W`: `os.Remove`, `tls.LoadX509KeyPair`,
-- `os.ReadFile`, the certificates that `AppendCertsFromPEM` finds, `net.Listen`, which may give an error,
-- `http.Server.Shutdown`, `grpc.Server.GracefulStop`, and what `promhttp` answers.
pub record Os (W K : Type 0) : Type 0 where
  pub remove : W → Text → Removal × W
  pub load_key_pair : W → Text → Text → Outcome Text K
  pub read_file : W → Text → Outcome Text Text
  pub certificates_in : Text → List Certificate
  pub listen : W → Text → Option Text × W
  pub shutdown : W → HttpServer → Option Text × W
  pub graceful_stop : W → GrpcServer K → W
  pub metrics : Handler

-- `SetLogger`: without a logger, one that does nothing is set.
unfoldable pub set_logger : {L : Type 0} → L → Option L → L
set_logger nop none = nop
set_logger nop (some l) = l

-- `NewServer` refreshes the vitals and sets nothing up.
unfoldable pub new_server : {H K : Type 0} → Tick H → Vitals H → Vitals H × Service K
unfolding update_states
new_server t v = (
  (update_states t.stat t.range t.world v).0,
  record {
    flags = record started_server { ready = false };
    socket = [];
    grpc_server = none;
    health_http_server = none;
    metrics_http_server = none;
  },
)

-- `/healthz`
unfoldable pub handle_healthz : Handler
handle_healthz flags = (200, codes "OK")

-- What a `ServeMux` answers for a path without a trailing slash or dots.
unfoldable pub serve_path : List (Text × Handler) → Text → Handler
serve_path [] path flags = (404, codes "404 page not found\n")
serve_path ((pattern, handler) ∷ handlers) path flags =
    let rest = serve_path handlers path flags in
    if text_eq pattern path then handler flags else rest

-- `StartHealthHTTPServer`; it never fails, since the socket is opened later.
unfoldable pub start_health_http_server : {K : Type 0} → Service K → ℕ → Service K
unfolding handle_readyz handle_healthz decimal
start_health_http_server s port = record s {
  health_http_server = some (record {
    addr = b':' ∷ decimal port;
    handlers = (codes "/healthz", handle_healthz) ∷ (codes "/readyz", handle_readyz) ∷ [];
  });
}

module _ {W K : Type 0} (os : Os W K) where
  removal_error : Removal → Option Text
  removal_error unlinked = none
  removal_error not_exist = none
  removal_error (remove_failed e) = some e

  -- `safeRemove`
  unfoldable pub safe_remove : W → Text → Option Text × W
  unfolding removal_error
  safe_remove w [] = (none, w)
  safe_remove w (c ∷ path) = let (result, w') = os.remove w (c ∷ path) in (removal_error result, w')

  -- The server that `StartSecureGRPCServer` sets up, from the key pair and the bytes of the CA file. What
  -- `AppendCertsFromPEM` returns is ignored.
  unfoldable pub secure_server : Text → K → Text → GrpcServer K
  secure_server socket cert ca_cert = record {
    creds = record {
      certificate = cert;
      min_version = version_tls12;
      client_cas = os.certificates_in ca_cert;
      client_auth = require_and_verify_client_cert;
    };
    stream_interceptor = authorize_stream;
    unary_interceptor = authorize_unary;
    socket = socket;
  }

  -- From `net.Listen` on.
  unfoldable pub listen_and_serve : W → Service K → Text → K → Text → Option Text × W × Service K
  unfolding secure_server
  listen_and_serve w s socket cert ca_cert =
      let (failure, w') = os.listen w socket in
      elim failure [
        | some e ↦ (some e, w', s)
        | none ↦ (
          none,
          w',
          record s {
            flags = record (s.flags) { ready = true };
            socket = socket;
            grpc_server = some (secure_server socket cert ca_cert);
          },
        )
      ]

  -- `StartSecureGRPCServer`, with the error that it returns
  unfoldable pub start_secure_grpc_server :
      W → Service K → Text → Text → Text → Text → Option Text × W × Service K
  unfolding safe_remove listen_and_serve
  start_secure_grpc_server w s socket tls_cert_path tls_key_path ca_cert_path =
      let w' = (safe_remove w socket).1 in
      elim (os.load_key_pair w' tls_cert_path tls_key_path) [
        | err e ↦ (some (codes "failed to load TLS credentials: " ++ e), w', s)
        | ok cert ↦ elim (os.read_file w' ca_cert_path) [
          | err e ↦ (some (codes "failed to read CA certification: " ++ e), w', s)
          | ok ca_cert ↦ listen_and_serve w' s socket cert ca_cert
        ]
      ]

  -- `StartMetricsHTTPServer`
  unfoldable pub start_metrics_http_server : Service K → ℕ → Service K
  unfolding decimal
  start_metrics_http_server s port = record s {
    metrics_http_server =
        some
          (record { addr = b':' ∷ decimal port; handlers = (codes "/metrics", os.metrics) ∷ [] });
  }

  shut_down : W → Option HttpServer → W
  shut_down w none = w
  shut_down w (some server) = (os.shutdown w server).1

  stop_grpc : W → Option (GrpcServer K) → W
  stop_grpc w none = w
  stop_grpc w (some server) = os.graceful_stop w server

  -- `Stop`. Errors of the shutdowns are logged only. There is no result where closing the queue panics.
  unfoldable pub stop_server : W → Service K → Option (W × Service K)
  unfolding safe_remove shut_down stop_grpc
  stop_server w s =
      if s.flags.is_closed
      then none
      else (let w₁ = shut_down w s.health_http_server in
          let w₂ = shut_down w₁ s.metrics_http_server in
          let w₃ = stop_grpc w₂ s.grpc_server in
          some (
            (safe_remove w₃ s.socket).1,
            record s { flags = record (s.flags) { ready = false; is_closed = true } },
          ))
