-- ===== src/Reporter/Ras/Collected.antt =====
-- What the RAS reporter collects for an address that it has recorded.
use spyre_health_checker.Base.{
  ◌≡◌, ◌≢◌, refl, ap, ◌∙◌, inl, inr, false, Bool-cases, List, [], ◌∷◌, Text, text_eq, Dict, All,
  values, lookup, insert-All, NodupKeys, insert-NodupKeys, MapRange, lookup-order, order-All, arith,
}
use spyre_health_checker.Scanner.{scan_lines}
use spyre_health_checker.Types.{DeviceState, is_online, priority_ras}
use spyre_health_checker.Reporter.{stamp}
use spyre_health_checker.Reporter.Merge.Verdict.{states_at, collected_by}
use spyre_health_checker.Reporter.Ras.{
  RasReporter, ras_error, ras_name, ras_collect, ras_reporter, add_ras_error,
}
use spyre_health_checker.Reporter.Ras.Logs.{scan_stream}
use spyre_health_checker.Reporter.Ras.Watch.{Cycle, start}
use spyre_health_checker.Reporter.Ras.Blame.{Known}
use spyre_health_checker.Reporter.Ras.Invariant.{scan_invariant, start_invariant}

-- The state is unhealthy, at the priority of the RAS reporter.
abbrev pub IsRas : DeviceState → Type 0
IsRas s = (is_online s.state ≡ false) × (s.priority ≡ priority_ras)

-- Every entry is an error at its own address.
abbrev pub IsError : Text × DeviceState → Type 0
IsError (a, s) = s ≡ ras_error a

stamped : Dict DeviceState → List DeviceState
unfolding stamp
stamped d = stamp (values d) ras_name priority_ras

-- Only errors are collected.
stamped-IsRas :
    (a : Text) (d : Dict DeviceState) → All IsError d → All IsRas (states_at a (stamped d))
unfolding stamped
stamped-IsRas a [] h = tt
stamped-IsRas a ((b, s) ∷ d) h = elim (Bool-cases (text_eq s.pci_address a)) [
  | inl e ↦ rw e ((ap (λ x. is_online x.state) h.0, refl), stamped-IsRas a d h.1)
  | inr e ↦ rw e (stamped-IsRas a d h.1)
]

-- A recorded address has one.
stamped-Known :
    (a : Text) (d : Dict DeviceState) → All IsError d → Known a d → states_at a (stamped d) ≢ []
unfolding stamped lookup
stamped-Known a [] h k n = cc
stamped-Known a ((b, s) ∷ d) h k n = elim (Bool-cases (text_eq b a)) [
  | inl e ↦ absurd (ground (arith, ap (λ x. x.pci_address) h.0))
  | inr e ↦ stamped-Known a d h.1 (ground arith) (ground (arith, ap (λ x. x.pci_address) h.0))
]

-- What holds of the map of errors at every time of the watch.
abbrev pub IsErrorMap : Dict DeviceState → Type 0
IsErrorMap d = NodupKeys d × All IsError d

pub start-IsErrorMap :
    (r : RasReporter) (cycles : List Cycle) → r.errors ≡ [] → IsErrorMap (start r cycles).errors
unfolding scan_stream add_ras_error
start-IsErrorMap r cycles e =
    start_invariant IsErrorMap
      (λ d text.
        scan_invariant IsErrorMap
          (λ a d h.
            (insert-NodupKeys a (ras_error a) d h.0, insert-All IsError a (ras_error a) d refl h.1))
          [] d (scan_lines text))
      r cycles (rw e (tt, tt))

module _ {W : Type 0} (w : W) (range : W → MapRange DeviceState) (ras : W → RasReporter)
    (errors-IsErrorMap : IsErrorMap (ras w).errors) where
  collected_by-stamped :
      collected_by w (ras_reporter range ras) ≡ stamped ((range w).order (ras w).errors)
  unfolding collected_by ras_collect stamped
  collected_by-stamped = refl

  pub ras-IsRas : (a : Text) → All IsRas (states_at a (collected_by w (ras_reporter range ras)))
  ras-IsRas a = rw collected_by-stamped (
      stamped-IsRas a ((range w).order (ras w).errors)
        (order-All (range w) IsError (ras w).errors errors-IsErrorMap.1))

  pub ras-Known :
      (a : Text)
      → Known a (ras w).errors
      → states_at a (collected_by w (ras_reporter range ras)) ≢ []
  ras-Known a k = rw collected_by-stamped (
      stamped-Known a ((range w).order (ras w).errors)
        (order-All (range w) IsError (ras w).errors errors-IsErrorMap.1)
        (lookup-order (range w) a (ras w).errors errors-IsErrorMap.0 ∙ k))
