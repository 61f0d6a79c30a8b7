-- ===== src/Healthcheck.antt =====
-- internal/healthcheck/healthcheck.go: the vitals, which the reporters refresh, and the check of the
-- kernel driver. The lock makes each operation atomic, so an operation is a function of the vitals.
pub mod Publish
use spyre_health_checker.Base.{
  Bool, true, false, List, [], ◌∷◌, ◌++◌, Option, none, some, Text, codes, text_eq, if◌then◌else◌,
  MapRange,
}
use spyre_health_checker.Types.{DeviceState, in_error, Reporter, Fault}
use spyre_health_checker.Reporter.Merge.{merge}

pub record Vitals (W : Type 0) : Type 0 where
  pub states : List DeviceState
  pub reporters : List (Reporter W)

-- `NewVitals`; the first argument is an `LSPCIReporter`.
unfoldable pub new_vitals : {W : Type 0} → Reporter W → List (Reporter W) → Vitals W
new_vitals lspci [] = record { states = []; reporters = lspci ∷ [] }
new_vitals lspci (rep ∷ reporters) = record { states = []; reporters = rep ∷ reporters }

-- `GetVitalStates`
unfoldable pub get_vital_states : {W : Type 0} → Vitals W → List DeviceState
get_vital_states v = v.states

-- The branch that the `select` of `fileIsAccessible` takes: the reply of `os.Stat`, or the timer.
pub data StatRace : Type 0 where
  replied : Bool → StatRace
  timed_out : StatRace

-- `fileIsAccessible`
unfoldable pub file_is_accessible : StatRace → Bool
file_is_accessible (replied ok) = ok
file_is_accessible timed_out = false

-- `filepath.Join("/sys/bus/pci/devices", address, "driver")`, for an address without a slash.
unfoldable pub driver_path : Text → Text
driver_path address =
    if text_eq address []
    then codes "/sys/bus/pci/devices/driver"
    else if text_eq address (codes ".")
    then codes "/sys/bus/pci/devices/driver"
    else if text_eq address (codes "..")
    then codes "/sys/bus/pci/driver"
    else codes "/sys/bus/pci/devices/" ++ (address ++ codes "/driver")

module _ (stat : Text → StatRace) where
  -- One round of the loop in `updateDriverStatus`.
  unfoldable pub check_driver : DeviceState → DeviceState
  unfolding file_is_accessible
  check_driver s =
      if text_eq s.source (codes "pseudo")
      then s
      else if file_is_accessible (stat (driver_path s.pci_address))
      then s
      else record s { state = in_error }

  -- `updateDriverStatus`
  unfoldable pub update_driver_status : List DeviceState → List DeviceState
  unfolding check_driver
  update_driver_status [] = []
  update_driver_status (s ∷ states) = check_driver s ∷ update_driver_status states

  -- `UpdateStates` returns nil or the error of `Merge`; then it leaves the states alone.
  unfoldable pub update_states :
      {W : Type 0} → MapRange DeviceState → W → Vitals W → Vitals W × Option (List (Text × Fault))
  unfolding update_driver_status
  update_states range w v = elim (merge w range v.reporters).1 [
    | some e ↦ (v, some e)
    | none ↦ (record v { states = update_driver_status (merge w range v.reporters).0 }, none)
  ]

-- A series of refreshes, each with its own snapshot of the world, of sysfs and of the map order.
pub record Tick (W : Type 0) : Type 0 where
  pub world : W
  pub stat : Text → StatRace
  pub range : MapRange DeviceState

unfoldable pub refresh : {W : Type 0} → Vitals W → List (Tick W) → Vitals W
unfolding update_states
refresh v [] = v
refresh v (t ∷ ticks) = refresh (update_states t.stat t.range t.world v).0 ticks
