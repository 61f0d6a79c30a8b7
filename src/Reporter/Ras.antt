-- ===== src/Reporter/Ras.antt =====
-- internal/reporter/ras.go: the reporter of RAS errors that pods leave in their logs. The watch loop
-- alone writes its state.
pub mod Pods
pub mod Logs
pub mod Watch
pub mod Blame
pub mod Invariant
pub mod Evidence
pub mod Address
pub mod Collected
pub mod Naming
use spyre_health_checker.Base.{
  ℕ, Bool, false, List, [], ◌∷◌, Option, none, some, Text, codes, trim_space, map, Dict, MapRange,
  insert, values,
}
use spyre_health_checker.Types.{
  DeviceState, pf, in_error, Outcome, ok, Fault, Reporter, priority_ras,
}
use spyre_health_checker.Reporter.{stamp}

-- `RASReporter`. The namespaces are a set; none of them at all allows every one.
pub record RasReporter : Type 0 where
  pub errors : Dict DeviceState
  pub disabled : Bool
  pub allowed_namespaces : Option (List Text)

-- `NewRASReporter`
abbrev pub new_ras_reporter : RasReporter
new_ras_reporter = record { errors = []; disabled = false; allowed_namespaces = none }

-- `SetAllowedNamespaces`
unfoldable pub set_allowed_namespaces : RasReporter → List Text → RasReporter
set_allowed_namespaces r [] = record r { allowed_namespaces = none }
set_allowed_namespaces r (ns ∷ namespaces) = record r {
  allowed_namespaces = some (map trim_space (ns ∷ namespaces));
}

abbrev pub ras_name : Text
ras_name = codes "ras"

-- `RASReporter.Collect`
unfoldable pub ras_collect : MapRange DeviceState → RasReporter → Outcome Fault (List DeviceState)
unfolding stamp
ras_collect range r = ok (stamp (values (range.order r.errors)) ras_name priority_ras)

-- `RASReporter`, in a world that shows its state and the order of its map.
abbrev pub ras_reporter : {W : Type 0} → (W → MapRange DeviceState) → (W → RasReporter) → Reporter W
ras_reporter range state = record {
  name = ras_name;
  priority = priority_ras;
  collect = λ w. ras_collect (range w) (state w);
}

-- What `addRASError` records.
abbrev pub ras_error : Text → DeviceState
ras_error pci_address = record {
  pci_address = pci_address;
  type = pf;
  state = in_error;
  source = [];
  priority = 0;
}

-- `addRASError`
unfoldable pub add_ras_error : Text → Dict DeviceState → Dict DeviceState
unfolding insert
add_ras_error pci_address errors = insert pci_address (ras_error pci_address) errors
