-- ===== src/Main/Flags.antt =====
-- cmd/health-checker/main.go: the flags, and what main makes of them alone.
use spyre_health_checker.Base.{ℕ, Bool, false, true, [], Text, codes, text_eq, split, if◌then◌else◌}
use spyre_health_checker.Reporter.CardHealth.{CardHealthClient, new_card_health_client, set_debug}
use spyre_health_checker.Reporter.Ras.{RasReporter, new_ras_reporter, set_allowed_namespaces}
use spyre_health_checker.Main.{get_env_or_default}

-- The flags; a port is not negative.
pub record Flags : Type 0 where
  pub debug : Bool
  pub socket : Text
  pub timer : Text
  pub enabled_reporters : Text
  pub health_port : ℕ
  pub metrics_port : ℕ
  pub tls_cert : Text
  pub tls_key : Text
  pub tls_ca : Text
  pub ras_watcher_namespaces : Text
  pub card_health_socket : Text
  pub card_health_server_name : Text

-- The flags of a command line without arguments, from the values of the environment variables.
unfoldable pub default_flags : (Text → Text) → Flags
unfolding get_env_or_default
default_flags getenv = record {
  debug = false;
  socket = codes "/usr/local/etc/device-plugins/health/checker.sock";
  timer = codes "1h";
  enabled_reporters = codes "lspci";
  health_port = 8080;
  metrics_port = 8081;
  tls_cert =
      get_env_or_default (getenv (codes "SPYRE_TLS_CERT"))
        (codes "/etc/spyre-health-checker/certs/tls.crt");
  tls_key =
      get_env_or_default (getenv (codes "SPYRE_TLS_KEY"))
        (codes "/etc/spyre-health-checker/certs/tls.key");
  tls_ca =
      get_env_or_default (getenv (codes "SPYRE_TLS_CA"))
        (codes "/etc/spyre-health-checker/certs/ca.crt");
  ras_watcher_namespaces = [];
  card_health_socket =
      get_env_or_default (getenv (codes "CARDHEALTH_GRPC_SOCKET"))
        (codes "/var/run/cardmgmt-health-check-api/health-check-api.sock");
  card_health_server_name =
      get_env_or_default (getenv (codes "CARDHEALTH_TLS_SERVER_NAME")) (codes "spyre-components");
}

-- `rasReporter` in main
unfoldable pub configured_ras : Text → RasReporter
unfolding set_allowed_namespaces
configured_ras namespaces =
    if text_eq namespaces []
    then new_ras_reporter
    else set_allowed_namespaces new_ras_reporter (split b',' namespaces)

-- `cardHealthClient` in main
unfoldable pub configured_client : Flags → CardHealthClient
unfolding new_card_health_client set_debug
configured_client flags =
    let client =
      new_card_health_client flags.card_health_socket flags.tls_cert flags.tls_key flags.tls_ca
        flags.card_health_server_name in
    if flags.debug then set_debug client true else client
