-- ===== src/Reporter/Merge.antt =====
-- `Merge` of internal/reporter/reporter.go. All reporters of one call see the world at one time.
pub mod Verdict
pub mod Result
pub mod Sticky
pub mod Errors
use spyre_health_checker.Base.{
  ℕ, Bool, ◌&&◌, ◌||◌, not, List, [], ◌∷◌, ◌++◌, Option, none, some, Text, ltb, if◌then◌else◌, Dict,
  lookup, insert, MapRange, values,
}
use spyre_health_checker.Types.{DeviceState, is_online, Reporter, Outcome, ok, err, Fault}

-- Whether an incoming state replaces the one that is recorded for its address.
unfoldable pub overrides : DeviceState → DeviceState → Bool
overrides existing s =
    ltb existing.priority s.priority && (is_online existing.state || not (is_online s.state))

-- One round of the inner loop.
unfoldable pub record_state : Dict DeviceState → DeviceState → Dict DeviceState
unfolding overrides
record_state best s = elim (lookup s.pci_address best) [
  | none ↦ insert s.pci_address s best
  | some existing ↦ if overrides existing s then insert s.pci_address s best else best
]

-- The inner loop, over the states of one reporter.
unfoldable pub record_states : Dict DeviceState → List DeviceState → Dict DeviceState
unfolding record_state
record_states best [] = best
record_states best (s ∷ states) = record_states (record_state best s) states

-- The variables `best` and `errs` of the outer loop.
pub record Merging : Type 0 where
  pub best : Dict DeviceState
  pub errs : List (Text × Fault)

-- The combined error, nil where no reporter failed.
unfoldable pub error_of : List (Text × Fault) → Option (List (Text × Fault))
error_of [] = none
error_of (e ∷ errs) = some (e ∷ errs)

module _ {W : Type 0} (w : W) where
  -- One round of the outer loop: a reporter that fails adds an error and no state.
  unfoldable pub merge_reporter : Merging → Reporter W → Merging
  unfolding record_states
  merge_reporter m rep = elim (rep.collect w) [
    | err e ↦ record m { errs = m.errs ++ (rep.name, e) ∷ [] }
    | ok states ↦ record m { best = record_states m.best states }
  ]

  unfoldable pub merge_reporters : Merging → List (Reporter W) → Merging
  unfolding merge_reporter
  merge_reporters m [] = m
  merge_reporters m (rep ∷ reporters) = merge_reporters (merge_reporter m rep) reporters

  -- `Merge`. It returns the states next to the error, which is nil if no reporter failed.
  unfoldable pub merge :
      MapRange DeviceState → List (Reporter W) → List DeviceState × Option (List (Text × Fault))
  unfolding merge_reporters error_of
  merge range reporters =
      let m = merge_reporters (record { best = []; errs = [] }) reporters in
      (values (range.order m.best), error_of m.errs)
