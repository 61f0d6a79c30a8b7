-- ===== src/Reporter/Cardmgmt.antt =====
-- internal/reporter/cardmgmt.go: the reporter of the card management service.
use spyre_health_checker.Base.{◌≡◌, refl, List, [], Option, none, some, Text, codes}
use spyre_health_checker.Types.{
  DeviceState, PbDevice, PbDeviceState, pf, Reporter, Outcome, ok, err, Fault, priority_cardmgmt,
  device,
}
use spyre_health_checker.Reporter.{stamp}

abbrev pub cardmgmt_name : Text
cardmgmt_name = codes "cardmgmt"

-- `CardmgmtReporter`. `CollectFn` may be nil.
pub record CardmgmtReporter (W : Type 0) : Type 0 where
  pub collect_fn : Option (W → Outcome Fault (List DeviceState))

module _ {W : Type 0} where
  -- `CardmgmtReporter.Collect`
  unfoldable pub cardmgmt_collect : CardmgmtReporter W → W → Outcome Fault (List DeviceState)
  unfolding stamp
  cardmgmt_collect r w = elim r.collect_fn [
    | none ↦ ok []
    | some collect_fn ↦ elim (collect_fn w) [
      | err e ↦ err e
      | ok states ↦ ok (stamp states cardmgmt_name priority_cardmgmt)
    ]
  ]

  abbrev pub cardmgmt_reporter : CardmgmtReporter W → Reporter W
  cardmgmt_reporter r = record {
    name = cardmgmt_name;
    priority = priority_cardmgmt;
    collect = cardmgmt_collect r;
  }

pub record CardManagement : Type 0 where
  pub service : Text

pub record SimplifiedDevice : Type 0 where
  pub pci_address : Text
  pub state : PbDeviceState

-- `SimplifiedDevice.Device`
unfoldable pub simplified_device : SimplifiedDevice → PbDevice
simplified_device d = record {
  device_id = some d.pci_address;
  device_type = pf;
  device_state = d.state;
}

-- `SimplifiedDevice.ToDeviceState`
unfoldable pub to_device_state : SimplifiedDevice → DeviceState
to_device_state d = record {
  pci_address = d.pci_address;
  type = pf;
  state = d.state;
  source = cardmgmt_name;
  priority = priority_cardmgmt;
}

unfoldable pub init_card_management : CardManagement
init_card_management = record { service = codes "cardmanagement" }

-- `CardManagement.GetCardStatus`
unfoldable pub get_card_status : CardManagement → SimplifiedDevice → PbDevice
get_card_status cm d = record {
  device_id = some d.pci_address;
  device_type = pf;
  device_state = d.state;
}

-- `SimplifiedDevice.CollectFn`, a stub in the source too.
unfoldable pub simplified_collect_fn : SimplifiedDevice → Outcome Fault (List DeviceState)
simplified_collect_fn d = ok []

-- The three ways to turn a simplified device into a message agree.
pub to_device_state-device :
    (cm : CardManagement) (d : SimplifiedDevice)
    → (device (to_device_state d) ≡ simplified_device d)
      × (get_card_status cm d ≡ simplified_device d)
unfolding device to_device_state simplified_device get_card_status
to_device_state-device cm d = (refl, refl)
