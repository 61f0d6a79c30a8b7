-- ===== src/Server/Devices.antt =====
-- pkg/server/server.go: what is sent of the states, and which tracked devices count as removed.
use spyre_health_checker.Base.{
  Bool, true, false, not, List, [], ◌∷◌, ◌++◌, Option, none, some, Text, if◌then◌else◌, Dict,
  MapRange, lookup, insert, keys,
}
use spyre_health_checker.Types.{DeviceState, type_unspecified, removed, PbDevice, PbDevices, device}

-- `getPbDevices`
unfoldable pub get_pb_devices : List DeviceState → List PbDevice
unfolding device
get_pb_devices [] = []
get_pb_devices (sd ∷ states) = device sd ∷ get_pb_devices states

-- A `map[string]bool`; a missing key reads as false.
abbrev pub DeviceMap : Type 0
DeviceMap = Dict Bool

unfoldable pub is_in : DeviceMap → Text → Bool
unfolding lookup
is_in m a = elim (lookup a m) [ none ↦ false | some b ↦ b ]

-- `initialDeviceMap` from the devices of the request
unfoldable pub add_devices : DeviceMap → List PbDevice → DeviceMap
unfolding insert
add_devices m [] = m
add_devices m (d ∷ devices) = elim d.device_id [
  | none ↦ add_devices m devices
  | some a ↦ add_devices (insert a true m) devices
]

unfoldable pub initial_device_map : Option PbDevices → DeviceMap
unfolding add_devices
initial_device_map none = []
initial_device_map (some initial) = add_devices [] initial.devices

-- `currentDeviceMap`
unfoldable pub current_device_map : DeviceMap → List DeviceState → DeviceMap
unfolding insert
current_device_map m [] = m
current_device_map m (state ∷ states) = current_device_map (insert state.pci_address true m) states

abbrev pub removed_state : Text → DeviceState
removed_state pci_address = record {
  pci_address = pci_address;
  type = type_unspecified;
  state = removed;
  source = [];
  priority = 0;
}

unfoldable pub removed_states : DeviceMap → List Text → List DeviceState
unfolding is_in
removed_states current [] = []
removed_states current (a ∷ addresses) =
    if not (is_in current a)
    then removed_state a ∷ removed_states current addresses
    else removed_states current addresses

-- `checkForRemovedDevices`
unfoldable pub check_for_removed_devices :
    MapRange Bool → List DeviceState → DeviceMap → List DeviceState
unfolding current_device_map removed_states
check_for_removed_devices range current_states [] = current_states
check_for_removed_devices range current_states (entry ∷ initial) =
    current_states
    ++ removed_states (current_device_map [] current_states) (keys (range.order (entry ∷ initial)))
