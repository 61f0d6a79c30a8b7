-- ===== src/Reporter/Ras/Invariant.antt =====
-- What the scan of every log keeps true of the recorded errors, the whole watch keeps true of them.
use spyre_health_checker.Base.{
  inl, inr, Bool, true, false, not, ◌&&◌, Bool-cases, List, [], ◌∷◌, Option, none, some, Text,
  text_eq, if◌then◌else◌, Dict,
}
use spyre_health_checker.Types.{DeviceState, Outcome, ok, err}
use spyre_health_checker.Reporter.Ras.{RasReporter, add_ras_error}
use spyre_health_checker.Reporter.Ras.Pods.{
  Pod, Container, Cluster, ApiError, forbidden, unauthorized, other_error, PodLogOptions, skip_pod,
  pod_failed,
}
use spyre_health_checker.Reporter.Ras.Logs.{
  scan_stream, scan_log, next_pci, is_empty, contains_ras_error,
}
use spyre_health_checker.Reporter.Ras.Watch.{
  after_error, scan_container_logs, is_crash, log_options, scan_container, scan_containers,
  fetch_and_scan_logs, Event, is_change, handle_event, handle_events, Cycle, watch_pods, start,
}

-- What the record of one error keeps true, the scan of a log does.
pub scan_invariant :
    (P : Dict DeviceState → Type 0)
    → ((a : Text) (d : Dict DeviceState) → P d → P (add_ras_error a d))
    → (last : Text) (d : Dict DeviceState) (lines : List Text) → P d
    → P (scan_log last d lines)
unfolding scan_log
scan_invariant P add last d [] p = p
scan_invariant P add last d (line ∷ lines) p =
    scan_invariant P add (next_pci last line)
      (if contains_ras_error line && not (is_empty (next_pci last line))
        then add_ras_error (next_pci last line) d
        else d)
      lines (go (contains_ras_error line && not (is_empty (next_pci last line))))
  where
    go : (b : Bool) → P (if b then add_ras_error (next_pci last line) d else d)
    go true = add (next_pci last line) d p
    go false = p

module _ (P : Dict DeviceState → Type 0)
    (keep : (d : Dict DeviceState) (text : Text) → P d → P (scan_stream d text)) where
  error_invariant : (r : RasReporter) (e : ApiError) → P r.errors → P (after_error r e).errors
  unfolding after_error
  error_invariant r forbidden p = p
  error_invariant r unauthorized p = p
  error_invariant r other_error p = p

  logs_invariant :
      (r : RasReporter) (cluster : Cluster) (pod : Pod) (opts : PodLogOptions)
      → P r.errors
      → P (scan_container_logs r cluster pod opts).errors
  unfolding scan_container_logs
  logs_invariant r cluster pod opts p = go (cluster.get_logs pod.namespace pod.name opts)
    where
      go :
          (o : Outcome ApiError Text)
          → P (
              RasReporter.errors (elim o [
                | err e ↦ after_error r e
                | ok text ↦ record r { errors = scan_stream r.errors text }
              ]))
      go (err e) = error_invariant r e p
      go (ok text) = keep r.errors text p

  container_invariant :
      (r : RasReporter) (cluster : Cluster) (pod : Pod) (c : Container)
      → P r.errors
      → P (scan_container r cluster pod c).errors
  unfolding scan_container
  container_invariant r cluster pod c p =
      elim (Bool-cases (not (is_crash pod c) && not (text_eq pod.phase pod_failed))) [
        | inl e ↦ rw e p
        | inr e ↦ rw e (logs_invariant r cluster pod (log_options pod c) p)
      ]

  containers_invariant :
      (r : RasReporter) (cluster : Cluster) (pod : Pod) (containers : List Container)
      → P r.errors
      → P (scan_containers r cluster pod containers).errors
  unfolding scan_containers
  containers_invariant r cluster pod [] p = p
  containers_invariant r cluster pod (c ∷ containers) p =
      containers_invariant (scan_container r cluster pod c) cluster pod containers
        (container_invariant r cluster pod c p)

  event_invariant : (r : RasReporter) (event : Event) → P r.errors → P (handle_event r event).errors
  unfolding handle_event fetch_and_scan_logs
  event_invariant r event p = go (is_change event.type) event.object
    where
      go :
          (change : Bool) (o : Option Pod)
          → P (
              RasReporter.errors (
                if not change then r else elim o [
                  | none ↦ r
                  | some pod ↦
                      if skip_pod r.allowed_namespaces event.cluster pod
                      then r
                      else fetch_and_scan_logs r event.cluster pod
                ]))
      go false o = p
      go true none = p
      go true (some pod) = elim (Bool-cases (skip_pod r.allowed_namespaces event.cluster pod)) [
        | inl e ↦ rw e p
        | inr e ↦ rw e (containers_invariant r event.cluster pod pod.containers p)
      ]

  events_invariant :
      (r : RasReporter) (events : List Event) → P r.errors → P (handle_events r events).errors
  unfolding handle_events
  events_invariant r [] p = p
  events_invariant r (event ∷ events) p =
      events_invariant (handle_event r event) events (event_invariant r event p)

  watch_invariant : (r : RasReporter) (cycle : Cycle) → P r.errors → P (watch_pods r cycle).errors
  unfolding watch_pods
  watch_invariant r cycle p = go cycle.watch
    where
      go :
          (o : Outcome ApiError (List Event))
          → P (
              RasReporter.errors
                (elim o [ err e ↦ after_error r e | ok events ↦ handle_events r events ]))
      go (err e) = error_invariant r e p
      go (ok events) = events_invariant r events p

  pub start_invariant :
      (r : RasReporter) (cycles : List Cycle) → P r.errors → P (start r cycles).errors
  unfolding start
  start_invariant r [] p = p
  start_invariant r (cycle ∷ cycles) p =
      let q = watch_invariant r cycle p in
      elim (Bool-cases (watch_pods r cycle).disabled) [
        | inl e ↦ rw e q
        | inr e ↦ elim (Bool-cases cycle.is_done) [
          | inl d ↦ rw e (rw d q)
          | inr d ↦ rw e (rw d (start_invariant (watch_pods r cycle) cycles q))
        ]
      ]
