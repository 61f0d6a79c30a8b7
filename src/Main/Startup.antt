-- ===== src/Main/Startup.antt =====
-- cmd/health-checker/main.go: main, from the flags to the loop of refreshes. What it asks of the environment, of
-- the cluster and of the libraries is an argument.
pub mod Ending
use spyre_health_checker.Base.{
  ℕ, ℤ, is_positive, Bool, true, false, List, [], ◌∷◌, Option, none, some, Text, codes, text_eq,
  split, if◌then◌else◌,
}
use spyre_health_checker.Types.{Outcome, ok, err}
use spyre_health_checker.Healthcheck.{Vitals, Tick, new_vitals}
use spyre_health_checker.Reporter.Lspci.{lspci_reporter}
use spyre_health_checker.Reporter.CardHealth.{CardHealthClient, new_card_health_client, set_debug}
use spyre_health_checker.Reporter.Ras.{RasReporter, new_ras_reporter, set_allowed_namespaces}
use spyre_health_checker.Utils.Interval.{IntervalError, parse_interval}
use spyre_health_checker.Utils.Metrics.{Labels, Registration, init_metrics}
use spyre_health_checker.Server.Setup.{
  Service, Os, new_server, start_secure_grpc_server, start_health_http_server,
  start_metrics_http_server, stop_server,
}
use spyre_health_checker.Main.{Host, build_reporters, get_env_or_default}
use spyre_health_checker.Main.Flags.{Flags, configured_ras, configured_client}
use spyre_health_checker.Main.Refresh.{Monitor, initial_check, periodic_check}

-- The environment variables, the architecture, the system calls, `time.ParseDuration`, what the registry answers,
-- and whether the configuration and the client of the cluster can be had.
pub record Surroundings (W K : Type 0) : Type 0 where
  pub getenv : Text → Text
  pub arch : Text
  pub os : Os W K
  pub parse_duration : Text → Outcome Text ℤ
  pub registration : Registration
  pub has_cluster_config : Bool
  pub has_kube_client : Bool

-- What main has made, and the node whose pods the RAS reporter watches.
pub record MainState (W K : Type 0) : Type 0 where
  pub world : W
  pub service : Service K
  pub monitor : Monitor Host
  pub ras : RasReporter
  pub card_health_client : CardHealthClient
  pub watched_node : Option Text

-- Why main ends: `logger.Fatalf` for the gRPC server, the exit for the interval, or a panic.
pub data Exit : Type 0 where
  start_failed : Text → Exit
  bad_interval : IntervalError → Exit
  panicked : Text → Exit

-- What main meets in its loop: a tick, or SIGTERM or SIGINT, which the context takes over. The loop does not
-- ask for the context; only the watcher of the pods ends with it.
pub data LoopEvent : Type 0 where
  ticked : Tick Host → LoopEvent
  signalled : LoopEvent

-- `NodeName` of internal/utils/global.go
abbrev pub node_name : {W K : Type 0} → Surroundings W K → Text
node_name env = env.getenv (codes "NODE_NAME")

module _ {W K : Type 0} (env : Surroundings W K) (flags : Flags) where
  -- `vitals` in main
  unfoldable pub configured_vitals : Vitals Host
  unfolding build_reporters new_vitals
  configured_vitals =
      new_vitals (lspci_reporter (λ host. host.lspci))
        (build_reporters (env.getenv (codes "PSEUDO_DEVICE_MODE")) env.arch flags.enabled_reporters)

  -- Up to the start of the gRPC server, with its error.
  unfoldable pub launch : W → Tick Host → Option Text × MainState W K
  unfolding configured_vitals configured_ras configured_client
  launch w boot =
      let (vitals, s) = new_server {K = K} boot configured_vitals in
      let (failure, w', s') =
        start_secure_grpc_server env.os w s flags.socket flags.tls_cert flags.tls_key
          flags.tls_ca in
      (
        failure,
        record {
          world = w';
          service = s';
          monitor = record { vitals = vitals; series = []; updates = [] };
          ras = configured_ras flags.ras_watcher_namespaces;
          card_health_client = configured_client flags;
          watched_node = none;
        },
      )

  unfoldable pub serve_http : MainState W K → MainState W K
  unfolding start_health_http_server start_metrics_http_server
  serve_http m = record m {
    service =
        start_metrics_http_server env.os (start_health_http_server m.service flags.health_port)
          flags.metrics_port;
  }

  -- `s.Stop()`, called or deferred
  unfoldable pub stopped_main : MainState W K → MainState W K
  unfolding stop_server
  stopped_main m = elim (stop_server env.os m.world m.service) [
    | none ↦ m
    | some r ↦ record m { world = r.0; service = r.1 }
  ]

  -- The RAS reporter watches the pods of the node where main runs in a cluster.
  unfoldable pub start_watcher : MainState W K → MainState W K
  start_watcher m =
      if env.has_cluster_config
      then if env.has_kube_client then record m { watched_node = some (node_name env) } else m
      else m

  -- One round of the loop, or a signal.
  unfoldable pub handle_loop_event : MainState W K → LoopEvent → MainState W K
  unfolding periodic_check
  handle_loop_event m (ticked t) = record m { monitor = periodic_check (node_name env) t m.monitor }
  handle_loop_event m signalled = record m { watched_node = none }

  unfoldable pub main_loop : MainState W K → List LoopEvent → MainState W K
  unfolding handle_loop_event
  main_loop m [] = m
  main_loop m (event ∷ events) = main_loop (handle_loop_event m event) events

  -- From `time.NewTicker` on, which panics unless the interval is positive.
  unfoldable pub tick_loop : ℤ → List LoopEvent → MainState W K → MainState W K × Option Exit
  unfolding main_loop stopped_main
  tick_loop interval events m =
      if is_positive interval
      then (main_loop m events, none)
      else (stopped_main m, some (panicked (codes "non-positive interval for NewTicker")))

  -- The first refresh, once the gauge is registered.
  unfoldable pub first_check : Tick Host → List Labels → MainState W K → MainState W K
  unfolding initial_check
  first_check first series m = record m {
    monitor = initial_check (node_name env) first (record (m.monitor) { series = series });
  }

  -- From the start of the watcher on.
  unfoldable pub monitor_devices :
      ℤ → Tick Host → List LoopEvent → MainState W K → MainState W K × Option Exit
  unfolding start_watcher tick_loop first_check init_metrics
  monitor_devices interval first events m =
      let watched = start_watcher m in
      elim (init_metrics env.registration) [
        | err e ↦ (stopped_main watched, some (panicked e))
        | ok series ↦ tick_loop interval events (first_check first series watched)
      ]

  -- From the test of the parsed interval on.
  unfoldable pub with_interval :
      Outcome IntervalError ℤ
      → Tick Host
      → List LoopEvent
      → MainState W K
      → MainState W K × Option Exit
  unfolding monitor_devices stopped_main
  with_interval (err e) first events m = (stopped_main m, some (bad_interval e))
  with_interval (ok interval) first events m = monitor_devices interval first events m

  -- From the test of the error of `StartSecureGRPCServer` on.
  unfoldable pub with_server :
      Option Text → Tick Host → List LoopEvent → MainState W K → MainState W K × Option Exit
  unfolding serve_http parse_interval with_interval
  with_server (some e) first events m = (m, some (start_failed e))
  with_server none first events m =
      with_interval (parse_interval env.parse_duration flags.timer) first events (serve_http m)

  -- `main`, as far as the given ticks and signals go; without an exit it is in its loop.
  unfoldable pub main_run : W → Tick Host → Tick Host → List LoopEvent → MainState W K × Option Exit
  unfolding launch with_server
  main_run w boot first events =
      let (failure, m) = launch w boot in with_server failure first events m
