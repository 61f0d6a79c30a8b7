-- ===== src/Healthcheck/Publish.antt =====
-- When a device is published as online, and what a failing reporter does to the published states.
use mathlib.Core.Option
use spyre_health_checker.Base.{
  ◌≡◌, ◌≢◌, refl, sym, ap, subst, ◌∙◌, ◌⊎◌, inl, inr, Bool, true, List, [], ◌∷◌, Option, none, some,
  Bool-cases, Text, codes, text_eq, arith, All, Option-cases, MapRange,
}
use spyre_health_checker.Types.{DeviceState, is_online, find_state, Fault}
use spyre_health_checker.Reporter.Merge.{merge, error_of}
use spyre_health_checker.Reporter.Merge.Verdict.{states_at, collected}
use spyre_health_checker.Reporter.Merge.Sticky.{merge_rising, IsRising, last_where, is_unhealthy}
use spyre_health_checker.Reporter.Merge.Errors.{merge_skips_failures, failures}
use spyre_health_checker.Healthcheck.{
  Vitals, Tick, refresh, update_states, update_driver_status, check_driver, file_is_accessible,
  driver_path, StatRace,
}

abbrev pub is_pseudo : DeviceState → Bool
is_pseudo s = text_eq s.source (codes "pseudo")

-- What may be said of a device that `updateDriverStatus` leaves online.
abbrev pub IsChecked : (Text → StatRace) → DeviceState → Type 0
IsChecked stat s =
    (is_pseudo s ≡ true) ⊎ (file_is_accessible (stat (driver_path s.pci_address)) ≡ true)

last_where-test :
    (test : DeviceState → Bool) (ss : List DeviceState) (x : DeviceState)
    → last_where test ss ≡ some x
    → test x ≡ true
last_where-test test [] x h = cc
last_where-test test (s ∷ ss) x h = elim (Option-cases (last_where test ss)) [
  | inl e ↦ let h' = rw e at h in ground arith
  | inr (y, e) ↦ let h' = rw e at h in last_where-test test ss x (e ∙ h')
]

last_where-none :
    (ss : List DeviceState)
    → last_where is_unhealthy ss ≡ none
    → All (λ t. is_online t.state ≡ true) ss
last_where-none [] h = tt
last_where-none (s ∷ ss) h = elim (Option-cases (last_where is_unhealthy ss)) [
  | inl e ↦ let h' = rw e at h in (ground arith, last_where-none ss e)
  | inr (y, e) ↦ let h' = rw e at h in absurd (ground arith)
]

map-some :
    {A B : Type 0} (f : A → B) (o : Option A) {b : B}
    → Option.map f o ≡ some b
    → (a : A) × (o ≡ some a) × (f a ≡ b)
map-some f none h = cc
map-some f (some a) h = (a, refl, cc)

error_of-some :
    (fs : List (Text × Fault)) → fs ≢ [] → (gs : List (Text × Fault)) × (error_of fs ≡ some gs)
unfolding error_of
error_of-some [] h = absurd (h refl)
error_of-some (f ∷ fs) h = (f ∷ fs, refl)

module _ (stat : Text → StatRace) where
  check_driver-online :
      (s : DeviceState)
      → is_online (check_driver stat s).state ≡ true
      → (check_driver stat s ≡ s) × IsChecked stat s
  unfolding check_driver
  check_driver-online s h = ground arith

  check_driver-address : (s : DeviceState) → (check_driver stat s).pci_address ≡ s.pci_address
  unfolding check_driver
  check_driver-address s = ground arith

  -- Read by address, the driver check acts on the entry alone.
  pub find_state-update_driver_status :
      (a : Text) (ss : List DeviceState)
      → find_state a (update_driver_status stat ss)
        ≡ Option.map (check_driver stat) (find_state a ss)
  unfolding find_state update_driver_status
  find_state-update_driver_status a [] = refl
  find_state-update_driver_status a (s ∷ ss) = elim (Bool-cases (text_eq s.pci_address a)) [
    | inl e ↦ rw (check_driver-address s, e)
    | inr e ↦ rw (check_driver-address s, e) (find_state-update_driver_status a ss)
  ]

  module _ {W : Type 0} (range : MapRange DeviceState) (w : W) (v : Vitals W) where
    -- If a reporter fails, `UpdateStates` returns its error and changes nothing.
    pub update_states_failing :
        failures w v.reporters ≢ []
        → update_states stat range w v ≡ (v, error_of (failures w v.reporters))
    unfolding update_states
    update_states_failing h =
        let (fs, e) = error_of-some (failures w v.reporters) h in
        rw ((merge_skips_failures w range v.reporters).0, e, update_states)

    -- If no reporter fails, `UpdateStates` publishes the merge after the driver check.
    pub update_states_succeeding :
        failures w v.reporters ≡ []
        → update_states stat range w v
          ≡ (record v { states = update_driver_status stat (merge w range v.reporters).0 }, none)
    unfolding update_states error_of
    update_states_succeeding h = rw ((merge_skips_failures w range v.reporters).0, h, update_states)

    published-merged :
        (a : Text) (s : DeviceState)
        → failures w v.reporters ≡ []
        → find_state a (update_states stat range w v).0.states ≡ some s
        → is_online s.state ≡ true
        → (find_state a (merge w range v.reporters).0 ≡ some s) × IsChecked stat s
    published-merged a s h found up =
        let (t, seen, e) =
          map-some (check_driver stat) (find_state a (merge w range v.reporters).0) (
            sym (find_state-update_driver_status a _)
            ∙ (rw (update_states_succeeding h) at found)) in
        let (same, checked) = check_driver-online t (rw (← e) at up) in
        let eq : t ≡ s = sym same ∙ e in (seen ∙ ap some eq, subst (IsChecked stat) eq checked)

    -- If no reporter fails and `UpdateStates` publishes a device as online, its driver has been
    -- found in time, or its state comes from the pseudo reporter.
    pub published-IsChecked :
        (a : Text) (s : DeviceState)
        → failures w v.reporters ≡ []
        → find_state a (update_states stat range w v).0.states ≡ some s
        → is_online s.state ≡ true
        → IsChecked stat s
    published-IsChecked a s h found up = (published-merged a s h found up).1

    -- If no reporter fails and the reporters name a device with rising priorities, it is published
    -- as online only if each of them that names it finds it online.
    pub published_unanimous :
        (a : Text) (s : DeviceState)
        → failures w v.reporters ≡ []
        → IsRising (states_at a (collected w v.reporters))
        → find_state a (update_states stat range w v).0.states ≡ some s
        → is_online s.state ≡ true
        → All (λ t. is_online t.state ≡ true) (states_at a (collected w v.reporters))
    published_unanimous a s h rising found up =
        let won =
          sym (merge_rising w range v.reporters a rising) ∙ (published-merged a s h found up).0 in
        elim (Option-cases (last_where is_unhealthy (states_at a (collected w v.reporters)))) [
          | inl e ↦ last_where-none (states_at a (collected w v.reporters)) e
          | inr (y, e) ↦
              let bad = last_where-test is_unhealthy (states_at a (collected w v.reporters)) y e in
              absurd (ground (arith, rw e at won))
        ]

-- As long as some reporter fails at each refresh, the published states never change, whatever the
-- other reporters find.
pub refresh_failing :
    {W : Type 0} (v : Vitals W) (ticks : List (Tick W))
    → All (λ t. failures t.world v.reporters ≢ []) ticks
    → refresh v ticks ≡ v
unfolding refresh
refresh_failing v [] h = refl
refresh_failing v (t ∷ ticks) h =
    rw (update_states_failing t.stat t.range t.world v h.0) (refresh_failing v ticks h.1)
