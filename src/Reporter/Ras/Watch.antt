-- ===== src/Reporter/Ras/Watch.antt =====
-- internal/reporter/ras.go: the watch on the pods of a node, and the loop that starts it again.
use spyre_health_checker.Base.{
  ℕ, Bool, true, false, not, ◌&&◌, List, [], ◌∷◌, Option, none, some, Text, text_eq, if◌then◌else◌,
  any,
}
use spyre_health_checker.Types.{Outcome, ok, err}
use spyre_health_checker.Reporter.Ras.{RasReporter}
use spyre_health_checker.Reporter.Ras.Pods.{
  Pod, Container, ContainerStatus, Cluster, ApiError, forbidden, unauthorized, other_error,
  PodLogOptions, is_crash_looping, pod_failed, skip_pod,
}
use spyre_health_checker.Reporter.Ras.Logs.{scan_stream}

abbrev pub log_tail_lines : ℕ
log_tail_lines = 100

-- What the reporter is after an error of the API.
unfoldable pub after_error : RasReporter → ApiError → RasReporter
after_error r forbidden = record r { disabled = true }
after_error r unauthorized = record r { disabled = true }
after_error r other_error = r

-- `scanContainerLogs`
unfoldable pub scan_container_logs : RasReporter → Cluster → Pod → PodLogOptions → RasReporter
unfolding after_error
scan_container_logs r cluster pod opts = elim (cluster.get_logs pod.namespace pod.name opts) [
  | err e ↦ after_error r e
  | ok text ↦ record r { errors = scan_stream r.errors text }
]

-- The keys of the map `crashLooping`.
unfoldable pub crash_looping : List ContainerStatus → List Text
crash_looping [] = []
crash_looping (cs ∷ statuses) =
    let rest = crash_looping statuses in if is_crash_looping cs then cs.name ∷ rest else rest

abbrev pub is_crash : Pod → Container → Bool
is_crash pod c = any (λ name. text_eq name c.name) (crash_looping pod.container_statuses)

abbrev pub log_options : Pod → Container → PodLogOptions
log_options pod c = record {
  container = c.name;
  previous = is_crash pod c;
  tail_lines = log_tail_lines;
}

-- One round of the loop of `fetchAndScanLogs`.
unfoldable pub scan_container : RasReporter → Cluster → Pod → Container → RasReporter
unfolding crash_looping scan_container_logs
scan_container r cluster pod c =
    if not (is_crash pod c) && not (text_eq pod.phase pod_failed)
    then r
    else scan_container_logs r cluster pod (log_options pod c)

unfoldable pub scan_containers : RasReporter → Cluster → Pod → List Container → RasReporter
unfolding scan_container
scan_containers r cluster pod [] = r
scan_containers r cluster pod (c ∷ containers) =
    scan_containers (scan_container r cluster pod c) cluster pod containers

-- `fetchAndScanLogs`
unfoldable pub fetch_and_scan_logs : RasReporter → Cluster → Pod → RasReporter
unfolding scan_containers
fetch_and_scan_logs r cluster pod = scan_containers r cluster pod pod.containers

pub data EventType : Type 0 where
  added modified deleted bookmark error_event : EventType

-- An event, with its object if that is a pod, and what the API answers while it is handled.
pub record Event : Type 0 where
  pub type : EventType
  pub object : Option Pod
  pub cluster : Cluster

unfoldable pub is_change : EventType → Bool
is_change added = true
is_change modified = true
is_change _ = false

-- One round of the loop of `watchPods`.
unfoldable pub handle_event : RasReporter → Event → RasReporter
unfolding is_change fetch_and_scan_logs
handle_event r event = if not (is_change event.type) then r else elim event.object [
  | none ↦ r
  | some pod ↦
      if skip_pod r.allowed_namespaces event.cluster pod
      then r
      else fetch_and_scan_logs r event.cluster pod
]

unfoldable pub handle_events : RasReporter → List Event → RasReporter
unfolding handle_event
handle_events r [] = r
handle_events r (event ∷ events) = handle_events (handle_event r event) events

-- One call of `watchPods`: what the API answers to the watch, with the events up to its end, and whether the
-- context is done when the call returns.
pub record Cycle : Type 0 where
  pub watch : Outcome ApiError (List Event)
  pub is_done : Bool

-- `watchPods`
unfoldable pub watch_pods : RasReporter → Cycle → RasReporter
unfolding handle_events
watch_pods r cycle = elim cycle.watch [
  | err e ↦ after_error r e
  | ok events ↦ handle_events r events
]

-- The goroutine of `Start`, as far as the given cycles go.
unfoldable pub start : RasReporter → List Cycle → RasReporter
unfolding watch_pods
start r [] = r
start r (cycle ∷ cycles) =
    let next = watch_pods r cycle in
    let rest = start next cycles in
    if next.disabled then next else if cycle.is_done then next else rest
