-- ===== src/Reporter/Ras/Evidence.antt =====
-- Which addresses the watch on the pods records: those that the log of a container blames that has
-- crashed, in a pod that is to be scanned.
use spyre_health_checker.Base.{
  ◌≡◌, refl, sym, subst, ◌∙◌, ◌⊎◌, inl, inr, ◌↔◌, Bool, true, false, not, ◌&&◌, Bool-cases, List,
  [], ◌∷◌, Option, none, some, Text, text_eq, if◌then◌else◌, Any, arith, iff_step, iff_none,
  iff_right,
}
use spyre_health_checker.Scanner.{scan_lines}
use spyre_health_checker.Types.{Outcome, ok, err}
use spyre_health_checker.Reporter.Ras.{RasReporter}
use spyre_health_checker.Reporter.Ras.Pods.{
  Pod, Container, Cluster, ApiError, forbidden, unauthorized, other_error, skip_pod, pod_failed,
}
use spyre_health_checker.Reporter.Ras.Logs.{scan_stream}
use spyre_health_checker.Reporter.Ras.Watch.{
  after_error, scan_container_logs, is_crash, log_options, scan_container, scan_containers,
  fetch_and_scan_logs, Event, is_change, handle_event, handle_events, Cycle, start,
}
use spyre_health_checker.Reporter.Ras.Invariant.{start_invariant}
use spyre_health_checker.Reporter.Ras.Blame.{Known, Blamed, scan_log-Known}

-- A container that has crashed, or whose pod has failed.
abbrev IsDown : Pod → Container → Type 0
IsDown pod c = (not (is_crash pod c) && not (text_eq pod.phase pod_failed)) ≡ false

-- The log that the API gives for a container that is down blames the address.
abbrev pub LogBlames : Cluster → Pod → Text → Container → Type 0
LogBlames cluster pod a c =
    IsDown pod c
    × ((text : Text) × (cluster.get_logs pod.namespace pod.name (log_options pod c) ≡ ok text)
        × Blamed [] a (scan_lines text))

-- An event shows a change of a pod that is to be scanned, and a log of it blames the address.
abbrev pub Accuses : Option (List Text) → Text → Event → Type 0
Accuses allowed_namespaces a event =
    (pod : Pod) × (event.object ≡ some pod)
    × (is_change event.type ≡ true)
    × (skip_pod allowed_namespaces event.cluster pod ≡ false)
    × Any (LogBlames event.cluster pod a) pod.containers

after_error-errors : (r : RasReporter) (e : ApiError) → (after_error r e).errors ≡ r.errors
unfolding after_error
after_error-errors r forbidden = refl
after_error-errors r unauthorized = refl
after_error-errors r other_error = refl

err-ok : (e : ApiError) (a : Text) → ◌≡◌ {A = Outcome ApiError Text} (err e) (ok a) → ⊥
err-ok e a h = cc

ok-inj : (a b : Text) → ◌≡◌ {A = Outcome ApiError Text} (ok a) (ok b) → a ≡ b
ok-inj a b h = cc

container-Known :
    (a : Text) (r : RasReporter) (cluster : Cluster) (pod : Pod) (c : Container)
    → Known a (scan_container r cluster pod c).errors
      ↔ (Known a r.errors ⊎ LogBlames cluster pod a c)
unfolding scan_container scan_container_logs scan_stream
container-Known a r cluster pod c =
    go (not (is_crash pod c) && not (text_eq pod.phase pod_failed))
      (cluster.get_logs pod.namespace pod.name (log_options pod c))
  where
    go :
        (skip : Bool) (o : Outcome ApiError Text)
        → Known a
            (if skip then r else elim o [
              | err e ↦ after_error r e
              | ok text ↦ record r { errors = scan_stream r.errors text }
            ]).errors
          ↔ (Known a r.errors
              ⊎ ((skip ≡ false) × ((text : Text) × (o ≡ ok text) × Blamed [] a (scan_lines text))))
    go true o = iff_none (λ h. cc (h.0))
    go false (err e) = rw (after_error-errors r e) (iff_none (λ h. err-ok e h.1.0 h.1.1))
    go false (ok text) = iff_right (scan_log-Known [] a (scan_lines text) r.errors) (
      λ b. (refl, (text, refl, b)),
      λ h. subst (λ x. Blamed [] a (scan_lines x)) (sym (ok-inj text h.1.0 h.1.1)) h.1.2,
    )

scan_containers-Known :
    (a : Text) (r : RasReporter) (cluster : Cluster) (pod : Pod) (containers : List Container)
    → Known a (scan_containers r cluster pod containers).errors
      ↔ (Known a r.errors ⊎ Any (LogBlames cluster pod a) containers)
unfolding scan_containers
scan_containers-Known a r cluster pod [] = iff_none (λ n. n)
scan_containers-Known a r cluster pod (c ∷ containers) =
    iff_step (scan_containers-Known a (scan_container r cluster pod c) cluster pod containers)
      (container-Known a r cluster pod c)

same_pod : (p q : Pod) → some p ≡ some q → p ≡ q
same_pod p q e = cc

event-Known :
    (a : Text) (r : RasReporter) (event : Event)
    → Known a (handle_event r event).errors
      ↔ (Known a r.errors ⊎ Accuses r.allowed_namespaces a event)
unfolding handle_event fetch_and_scan_logs
event-Known a r event = go (is_change event.type) event.object
  where
    changed :
        (pod : Pod) (skip : Bool)
        → Known a (if skip then r else fetch_and_scan_logs r event.cluster pod).errors ↔ (
            Known a r.errors
            ⊎ ((skip ≡ false) × Any (LogBlames event.cluster pod a) pod.containers))
    changed pod true = iff_none (λ h. cc (h.0))
    changed pod false =
        iff_right (scan_containers-Known a r event.cluster pod pod.containers)
          (λ b. (refl, b), λ h. h.1)

    of_pod :
        (p q : Pod)
        → some p ≡ some q
        → (skip_pod r.allowed_namespaces event.cluster q ≡ false)
          × Any (LogBlames event.cluster q a) q.containers
        → (skip_pod r.allowed_namespaces event.cluster p ≡ false)
          × Any (LogBlames event.cluster p a) p.containers
    of_pod p q e h =
        subst
          (λ x.
            (skip_pod r.allowed_namespaces event.cluster x ≡ false)
            × Any (LogBlames event.cluster x a) x.containers)
          (same_pod q p (sym e)) h

    go :
        (change : Bool) (o : Option Pod)
        → Known a
            (if not change then r else elim o [
              | none ↦ r
              | some pod ↦
                  if skip_pod r.allowed_namespaces event.cluster pod
                  then r
                  else fetch_and_scan_logs r event.cluster pod
            ]).errors
          ↔ (Known a r.errors
              ⊎ ((pod : Pod) × (o ≡ some pod)
                  × (change ≡ true)
                  × (skip_pod r.allowed_namespaces event.cluster pod ≡ false)
                  × Any (LogBlames event.cluster pod a) pod.containers))
    go false o = iff_none (λ h. cc (h.2))
    go true none = iff_none (λ h. cc (h.1))
    go true (some pod) =
        iff_right (changed pod (skip_pod r.allowed_namespaces event.cluster pod))
          (λ b. (pod, refl, refl, b.0, b.1), λ h. of_pod pod h.0 h.1 (h.3, h.4))

scan_container-allowed :
    (r : RasReporter) (cluster : Cluster) (pod : Pod) (c : Container)
    → (scan_container r cluster pod c).allowed_namespaces ≡ r.allowed_namespaces
unfolding scan_container scan_container_logs after_error
scan_container-allowed r cluster pod c = ground arith

scan_containers-allowed :
    (r : RasReporter) (cluster : Cluster) (pod : Pod) (containers : List Container)
    → (scan_containers r cluster pod containers).allowed_namespaces ≡ r.allowed_namespaces
unfolding scan_containers
scan_containers-allowed r cluster pod [] = refl
scan_containers-allowed r cluster pod (c ∷ containers) =
    scan_containers-allowed (scan_container r cluster pod c) cluster pod containers
    ∙ scan_container-allowed r cluster pod c

event-allowed :
    (r : RasReporter) (event : Event)
    → (handle_event r event).allowed_namespaces ≡ r.allowed_namespaces
unfolding handle_event fetch_and_scan_logs
event-allowed r event = go (is_change event.type) event.object
  where
    go :
        (change : Bool) (o : Option Pod)
        → (if not change then r else elim o [
          | none ↦ r
          | some pod ↦
              if skip_pod r.allowed_namespaces event.cluster pod
              then r
              else fetch_and_scan_logs r event.cluster pod
        ]).allowed_namespaces
          ≡ r.allowed_namespaces
    go false o = refl
    go true none = refl
    go true (some pod) = elim (Bool-cases (skip_pod r.allowed_namespaces event.cluster pod)) [
      | inl e ↦ rw e refl
      | inr e ↦ rw e (scan_containers-allowed r event.cluster pod pod.containers)
    ]

-- The events of a watch record an address exactly if it is recorded already, or one of them shows an
-- added or changed pod that is not skipped, with a container that is down and whose log the API
-- gives, and in that log a RAS error follows a last naming of the address.
pub handle_events-Known :
    (a : Text) (r : RasReporter) (events : List Event)
    → Known a (handle_events r events).errors
      ↔ (Known a r.errors ⊎ Any (Accuses r.allowed_namespaces a) events)
unfolding handle_events
handle_events-Known a r [] = iff_none (λ n. n)
handle_events-Known a r (event ∷ events) =
    iff_step
      (subst
        (λ allowed.
          Known a (handle_events (handle_event r event) events).errors
          ↔ (Known a (handle_event r event).errors ⊎ Any (Accuses allowed a) events))
        (event-allowed r event) (handle_events-Known a (handle_event r event) events))
      (event-Known a r event)

-- An error that is recorded stays recorded, through every further watch and every restart of the
-- watch.
pub start-Known :
    (a : Text) (r : RasReporter) (cycles : List Cycle)
    → Known a r.errors
    → Known a (start r cycles).errors
unfolding scan_stream
start-Known a =
    start_invariant (Known a) (λ d text k. (scan_log-Known [] a (scan_lines text) d).1 (inl k))
