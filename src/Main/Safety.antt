-- ===== src/Main/Safety.antt =====
-- A device with a RAS error in the reporters that `buildReporters` chooses.
use mathlib.Core.List.{append-nil}
use mathlib.Core.Option
use spyre_health_checker.Base.{
  ap, ◌≡◌, ◌≢◌, refl, sym, subst, ◌∙◌, inl, inr, true, false, Bool-cases, List, [], ◌∷◌, ◌++◌,
  Option, none, some, Text, text_eq, All, All-keep, arith, keep-append, MapRange,
}
use spyre_health_checker.Types.{DeviceState, is_online, find_state, Reporter}
use spyre_health_checker.Reporter.Merge.{overrides, merge}
use spyre_health_checker.Reporter.Merge.Verdict.{
  settle, settle-append, states_at, collected, collected_by, collected-append,
}
use spyre_health_checker.Reporter.Merge.Result.{find_state-merge}
use spyre_health_checker.Reporter.Merge.Sticky.{settle_sticky}
use spyre_health_checker.Reporter.Ras.{RasReporter}
use spyre_health_checker.Reporter.Ras.Watch.{Cycle, start}
use spyre_health_checker.Reporter.Ras.Blame.{Known}
use spyre_health_checker.Reporter.Ras.Collected.{
  IsRas, IsErrorMap, start-IsErrorMap, ras-IsRas, ras-Known,
}
use spyre_health_checker.Reporter.Merge.Errors.{failures}
use spyre_health_checker.Healthcheck.{Vitals, StatRace, check_driver, update_states}
use spyre_health_checker.Healthcheck.Publish.{
  update_states_succeeding, find_state-update_driver_status,
}
use spyre_health_checker.Main.{Host, host_ras, device_reporters, build_reporters}
use spyre_health_checker.Main.Priorities.{IsLow, device_reporters-IsLow}

-- The recorded state ranks below the RAS reporter.
abbrev IsLowVerdict : Option DeviceState → Type 0
IsLowVerdict none = Unit
IsLowVerdict (some s) = IsLow s

settle-IsLow :
    (v : Option DeviceState) (ss : List DeviceState)
    → IsLowVerdict v
    → All IsLow ss
    → IsLowVerdict (settle v ss)
settle-IsLow v [] l h = l
settle-IsLow none (s ∷ ss) l h = settle-IsLow (some s) ss h.0 h.1
settle-IsLow (some e) (s ∷ ss) l h = elim (Bool-cases (overrides e s)) [
  | inl o ↦ rw o (settle-IsLow (some s) ss h.0 h.1)
  | inr o ↦ rw o (settle-IsLow (some e) ss l h.1)
]

-- An unhealthy state of the RAS reporter on top of lower ones decides.
settle-IsRas :
    (v : Option DeviceState) (ss : List DeviceState)
    → IsLowVerdict v
    → All IsRas ss
    → ss ≢ []
    → (s : DeviceState) × (settle v ss ≡ some s) × (is_online s.state ≡ false)
unfolding overrides
settle-IsRas v [] l h n = absurd (n refl)
settle-IsRas none (s ∷ ss) l h n = let (t, p, q, r) = settle_sticky s ss h.0.0 in (t, p, q)
settle-IsRas (some e) (s ∷ ss) l h n =
    let (t, p, q, r) = settle_sticky s ss h.0.0 in
    let wins : overrides e s ≡ true = ground (arith, h.0.0, h.0.1) in (t, rw wins p, q)

check_driver-unhealthy :
    (stat : Text → StatRace) (s : DeviceState)
    → is_online s.state ≡ false
    → is_online (check_driver stat s).state ≡ false
unfolding check_driver
check_driver-unhealthy stat s h = ground arith

-- With the reporters that `buildReporters` gives for any mode, machine and flag, a device for which
-- the watch has recorded a RAS error is unhealthy in the merge, whatever the other reporters find
-- and in whatever order the maps are visited.
pub ras_error_wins :
    (mode arch reporter_names : Text) (range : MapRange DeviceState) (host : Host) (r : RasReporter)
    (cycles : List Cycle) (a : Text)
    → r.errors ≡ []
    → host.ras ≡ start r cycles
    → Known a host.ras.errors
    → (s : DeviceState) × (find_state a
          (merge host range (build_reporters mode arch reporter_names)).0
        ≡ some s)
      × (is_online s.state ≡ false)
unfolding build_reporters
ras_error_wins mode arch names range host r cycles a e from k =
    let others : List (Reporter Host) = device_reporters mode arch names in
    let valid : IsErrorMap host.ras.errors =
      subst (λ x. IsErrorMap x.errors) (sym from) (start-IsErrorMap r cycles e) in
    let low = settle-IsLow none (states_at a (collected host others)) tt (
      All-keep IsLow (λ s. text_eq s.pci_address a) (collected host others)
        (device_reporters-IsLow host mode arch names)) in
    let (s, p, q) =
      settle-IsRas (settle none (states_at a (collected host others)))
        (states_at a (collected_by host host_ras)) low
        (ras-IsRas host (λ h. h.range) (λ h. h.ras) valid a)
        (ras-Known host (λ h. h.range) (λ h. h.ras) valid a k) in
    (
      s,
      find_state-merge host range (others ++ host_ras ∷ []) a
          ∙ rw
              (
                collected-append host others (host_ras ∷ []),
                keep-append (λ s. text_eq s.pci_address a) (collected host others),
                settle-append none (states_at a (collected host others)),
                append-nil (collected_by host host_ras),
              )
              p,
      q,
    )

-- With the reporters that `buildReporters` gives for any mode, machine and flag, if none of them fails
-- at a refresh, a device for which the watch has recorded a RAS error is published, and as unhealthy.
pub published_ras_error :
    (mode arch reporter_names : Text) (stat : Text → StatRace) (range : MapRange DeviceState)
    (host : Host) (states : List DeviceState) (r : RasReporter) (cycles : List Cycle) (a : Text)
    → r.errors ≡ []
    → host.ras ≡ start r cycles
    → Known a host.ras.errors
    → failures host (build_reporters mode arch reporter_names) ≡ []
    → (s : DeviceState) × (find_state a
          (update_states stat range host (record {
            states = states;
            reporters = build_reporters mode arch reporter_names;
          })).0.states
        ≡ some s)
      × (is_online s.state ≡ false)
published_ras_error mode arch names stat range host states r cycles a e from k working =
    let reporters : List (Reporter Host) = build_reporters mode arch names in
    let v : Vitals Host = record { states = states; reporters = reporters } in
    let (s, p, q) = ras_error_wins mode arch names range host r cycles a e from k in
    (
      check_driver stat s,
      rw (update_states_succeeding stat range host v working) (
          find_state-update_driver_status stat a (merge host range reporters).0
          ∙ ap (Option.map (check_driver stat)) p),
      check_driver-unhealthy stat s q,
    )
