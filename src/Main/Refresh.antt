-- ===== src/Main/Refresh.antt =====
-- cmd/health-checker/main.go: the refreshes of main, and what they leave in the vitals and the gauge.
use spyre_health_checker.Base.{List, [], ◌∷◌, none, some, Text}
use spyre_health_checker.Types.{DeviceState}
use spyre_health_checker.Healthcheck.{Vitals, Tick, update_states, get_vital_states}
use spyre_health_checker.Utils.Metrics.{Labels, update_device_metrics}

-- The vitals, the series of the gauge, and the arguments of the calls of UpdateHealths, the last one first.
pub record Monitor (W : Type 0) : Type 0 where
  pub vitals : Vitals W
  pub series : List Labels
  pub updates : List (List DeviceState)

module _ {W : Type 0} (node : Text) where
  -- `s.UpdateHealths(states)` and `utils.UpdateDeviceMetrics(states)`
  unfoldable pub publish : Monitor W → Monitor W
  unfolding get_vital_states update_device_metrics
  publish m = record m {
    series = update_device_metrics node m.series (get_vital_states m.vitals);
    updates = get_vital_states m.vitals ∷ m.updates;
  }

  abbrev pub refreshed : Tick W → Monitor W → Monitor W
  refreshed t m = record m { vitals = (update_states t.stat t.range t.world m.vitals).0 }

  -- The first refresh of main publishes nothing if it fails.
  unfoldable pub initial_check : Tick W → Monitor W → Monitor W
  unfolding update_states publish
  initial_check t m = elim (update_states t.stat t.range t.world m.vitals).1 [
    | some e ↦ refreshed t m
    | none ↦ publish (refreshed t m)
  ]

  -- One round of the loop over the ticker: it publishes whether or not the refresh failed.
  unfoldable pub periodic_check : Tick W → Monitor W → Monitor W
  unfolding update_states publish
  periodic_check t m = publish (refreshed t m)

  unfoldable pub periodic_checks : List (Tick W) → Monitor W → Monitor W
  unfolding periodic_check
  periodic_checks [] m = m
  periodic_checks (t ∷ ticks) m = periodic_checks ticks (periodic_check t m)

  -- `NewServer` refreshes the vitals once, then main does.
  unfoldable pub start_up : Tick W → Tick W → Vitals W → Monitor W
  unfolding initial_check
  start_up t u v = initial_check u (refreshed t (record { vitals = v; series = []; updates = [] }))
