-- ===== src/Main/Delivery.antt =====
-- cmd/health-checker/main.go and pkg/server/server.go: what the rounds of main's loop send to a client.
use mathlib.Core.List.{reverse, reverse-reverse, append_assoc, append_cancel_right, reverse-cons}
use spyre_health_checker.Base.{
  ℕ, Text, ◌≡◌, ◌≢◌, refl, sym, ap, ◌∙◌, inl, inr, Bool, true, false, Bool-cases, List, [], ◌∷◌,
  ◌++◌, none, map, if◌then◌else◌, All, arith,
}
use spyre_health_checker.Types.{DeviceState, Reporter}
use spyre_health_checker.Healthcheck.{
  Vitals, Tick, update_states, update_driver_status, get_vital_states,
}
use spyre_health_checker.Healthcheck.Publish.{update_states_failing, update_states_succeeding}
use spyre_health_checker.Reporter.Merge.{merge}
use spyre_health_checker.Reporter.Merge.Errors.{failures}
use spyre_health_checker.Server.Queue.{HealthServer, ServerEvent, Run}
use spyre_health_checker.Server.Order.{
  published, received_by, held, is_steady, ServesOnly, sole_client_in_order,
}
use spyre_health_checker.Server.Stream.{update, message, stream_updates}
use spyre_health_checker.Main.Refresh.{Monitor, publish, periodic_check, periodic_checks}

abbrev is_empty : {A : Type 0} → List A → Bool
is_empty [] = true
is_empty (a ∷ l) = false

module _ {W : Type 0} (reporters : List (Reporter W)) where
  -- The states after a round: if no reporter fails the merge with the drivers checked, and else those before it.
  abbrev pub round_states : Tick W → List DeviceState → List DeviceState
  round_states t states =
      if is_empty (failures t.world reporters)
      then update_driver_status t.stat (merge t.world t.range reporters).0
      else states

  -- The states after each of the rounds.
  abbrev pub rounds_states : List (Tick W) → List DeviceState → List (List DeviceState)
  rounds_states [] states = []
  rounds_states (t ∷ ticks) states =
      let now = round_states t states in now ∷ rounds_states ticks now

is_empty-nil : {A : Type 0} (l : List A) → is_empty l ≡ true → l ≡ []
is_empty-nil [] h = refl
is_empty-nil (a ∷ l) h = cc

is_empty-cons : {A : Type 0} (l : List A) → is_empty l ≡ false → l ≢ []
is_empty-cons l h e = ground (arith, ap is_empty e)

update_states-round :
    {W : Type 0} (t : Tick W) (v : Vitals W)
    → (update_states t.stat t.range t.world v).0
      ≡ record v { states = round_states v.reporters t v.states }
update_states-round t v =
    let fs = failures t.world v.reporters in
    elim (Bool-cases (is_empty fs)) [
      | inl e ↦ rw (e, update_states_succeeding t.stat t.range t.world v (is_empty-nil fs e)) refl
      | inr e ↦ rw (e, update_states_failing t.stat t.range t.world v (is_empty-cons fs e)) refl
    ]

module _ {W : Type 0} (node : Text) where
  -- Each round calls UpdateHealths once, with the states that it leaves.
  periodic_checks-updates :
      (ticks : List (Tick W)) (m : Monitor W)
      → (periodic_checks node ticks m).updates
        ≡ reverse (rounds_states m.vitals.reporters ticks m.vitals.states) ++ m.updates
  unfolding periodic_checks periodic_check publish get_vital_states
  periodic_checks-updates [] m = refl
  periodic_checks-updates (t ∷ ticks) m =
      let now = round_states m.vitals.reporters t m.vitals.states in
      let later = rounds_states m.vitals.reporters ticks now in
      periodic_checks-updates ticks (periodic_check node t m)
      ∙ rw (update_states-round t m.vitals) refl
      ∙ sym (append_assoc (reverse later) (now ∷ []) m.updates)
      ∙ ap (λ l. l ++ m.updates) (sym (reverse-cons now later))

  -- If every call of UpdateHealths comes from the rounds of main's loop, a single client that waits throughout,
  -- and whose messages can be sent, gets one message for each round, in their order, with at most the last
  -- one still held by a blocked UpdateHealths: a round in which no reporter fails sends the merge after the
  -- driver check, and one in which a reporter fails sends again the states of the round before it.
  pub rounds_delivered :
      (ticks : List (Tick W)) (m : Monitor W) {i : ℕ} {s t : HealthServer} {es : List ServerEvent}
      → (periodic_checks node ticks m).updates ≡ reverse (published es) ++ m.updates
      → Run s es t
      → All (λ e. is_steady e ≡ true) es
      → ServesOnly i s
      → s.pending ≡ none
      → map message (rounds_states m.vitals.reporters ticks m.vitals.states)
        ≡ stream_updates (map (λ states. update states true) (received_by i es))
          ++ map message (held t.pending)
  rounds_delivered ticks m {es = es} calls run steady sole idle =
      let rounds = rounds_states m.vitals.reporters ticks m.vitals.states in
      let backwards : reverse rounds ≡ reverse (published es) =
        append_cancel_right (reverse rounds) (reverse (published es)) m.updates
          (sym (periodic_checks-updates ticks m) ∙ calls) in
      let same : rounds ≡ published es =
        sym (reverse-reverse rounds) ∙ (ap reverse backwards ∙ reverse-reverse (published es)) in
      ap (map message) same ∙ sole_client_in_order run steady sole idle
