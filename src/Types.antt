-- ===== src/Types.antt =====
-- pkg/types/types.go, and the messages and enumerations of pkg/health/spyre/spyre_health.pb.go that
-- the program builds and reads. The fields managerProcessID and updateTimestamp, which it never
-- sets, are left out, and so are enumeration values without a name, which it never makes.
use spyre_health_checker.Base.{
  ℕ, ◌≡◌, refl, ◌⊎◌, inl, inr, Bool, true, false, List, [], ◌∷◌, Option, none, some, Text, text_eq,
  if◌then◌else◌,
}

-- DEVICE_TYPE
pub data PbDeviceType : Type 0 where
  type_unspecified vf pf : PbDeviceType

-- DEVICE_STATE
pub data PbDeviceState : Type 0 where
  state_unspecified offline booting shutting_down online : PbDeviceState
  running_diagnostics in_error removed : PbDeviceState

-- Device, with the address of its DeviceID; the pointer to the DeviceID may be nil.
pub record PbDevice : Type 0 where
  pub device_id : Option Text
  pub device_type : PbDeviceType
  pub device_state : PbDeviceState

-- Devices
pub record PbDevices : Type 0 where
  pub devices : List PbDevice

abbrev pub priority_lspci : ℕ
priority_lspci = 1

abbrev pub priority_cardmgmt : ℕ
priority_cardmgmt = 5

abbrev pub priority_ras : ℕ
priority_ras = 10

pub record DeviceState : Type 0 where
  pub pci_address : Text
  pub type : PbDeviceType
  pub state : PbDeviceState
  pub source : Text
  pub priority : ℕ

-- `DeviceState.Device`
unfoldable pub device : DeviceState → PbDevice
device d = record { device_id = some d.pci_address; device_type = d.type; device_state = d.state }

-- `s == spyre.DEVICE_STATE_ONLINE`
abbrev pub is_online : PbDeviceState → Bool
is_online online = true
is_online _ = false

-- The first entry of a list of states for an address.
unfoldable pub find_state : Text → List DeviceState → Option DeviceState
find_state a [] = none
find_state a (s ∷ ss) = if text_eq s.pci_address a then some s else find_state a ss

-- No two entries of a list of states have one address.
abbrev pub NodupAddresses : List DeviceState → Type 0
NodupAddresses [] = Unit
NodupAddresses (s ∷ ss) = (find_state s.pci_address ss ≡ none) × NodupAddresses ss

-- What a call that may fail gives: a value, or a non-nil error.
pub data Outcome (E A : Type 0) : Type 0 where
  ok : A → Outcome E A
  err : E → Outcome E A

-- The errors that the program itself makes, and those that it hands on.
pub data Fault : Type 0 where
  lspci_not_found : Text → Fault
  lspci_failed : Fault
  load_client_cert read_ca no_valid_ca dial : Fault
  foreign : Text → Fault

-- `Reporter`. What it collects depends on the world `W` at the time of the call.
pub record Reporter (W : Type 0) : Type 0 where
  pub name : Text
  pub priority : ℕ
  pub collect : W → Outcome Fault (List DeviceState)

pub Outcome-cases :
    {E A : Type 0} (o : Outcome E A) → ((a : A) × (o ≡ ok a)) ⊎ ((e : E) × (o ≡ err e))
Outcome-cases (ok a) = inl (a, refl)
Outcome-cases (err e) = inr (e, refl)
