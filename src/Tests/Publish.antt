-- ===== src/Tests/Publish.antt =====
-- Refreshing the published states.
use spyre_health_checker.Base.{
  ◌≡◌, refl, true, [], ◌∷◌, none, Text, codes, in_order, arith, All, text_eq, lookup, insert,
}
use spyre_health_checker.Types.{DeviceState, online, find_state, is_online}
use spyre_health_checker.Reporter.Merge.{merge}
use spyre_health_checker.Reporter.Merge.Verdict.{states_at, collected, collected_by}
use spyre_health_checker.Reporter.Merge.Errors.{failed_by}
use spyre_health_checker.Healthcheck.{
  Vitals, Tick, refresh, update_states, update_driver_status, StatRace, replied,
}
use spyre_health_checker.Healthcheck.Publish.{
  IsChecked, update_states_succeeding, published-IsChecked, published_unanimous, refresh_failing,
}
use spyre_health_checker.Tests.Merge.{other_card, entry, lspci, cardmgmt, broken}

abbrev pub all_there : Text → StatRace
all_there path = replied true

abbrev pub working : Vitals (Unit {0})
working = record { states = []; reporters = lspci ∷ cardmgmt ∷ [] }

abbrev pub failing : Vitals (Unit {0})
failing = record { states = []; reporters = lspci ∷ broken ∷ [] }

abbrev second : DeviceState
second = entry other_card online (codes "cardmgmt") 5

update_states_succeeding_example : update_states all_there in_order tt working ≡ (
  record working {
    states = update_driver_status all_there (merge tt in_order working.reporters).0;
  },
  none,
)
unfolding failed_by
update_states_succeeding_example = update_states_succeeding all_there in_order tt working refl

published-IsChecked_example : IsChecked all_there second
unfolding update_states find_state text_eq lookup insert failed_by merge
published-IsChecked_example =
    published-IsChecked all_there in_order tt working other_card second refl refl refl

published_unanimous_example :
    All (λ t. is_online t.state ≡ true) (states_at other_card (collected tt working.reporters))
unfolding update_states find_state text_eq lookup insert failed_by merge collected_by
published_unanimous_example =
    published_unanimous all_there in_order tt working other_card second refl (omega arith) refl refl

abbrev pub later : Tick (Unit {0})
later = record { world = tt; stat = all_there; range = in_order }

refresh_failing_example : refresh failing (later ∷ later ∷ []) ≡ failing
unfolding failed_by
refresh_failing_example = refresh_failing failing (later ∷ later ∷ []) ((λ e. cc), ((λ e. cc), tt))
