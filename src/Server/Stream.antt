-- ===== src/Server/Stream.antt =====
-- pkg/server/server.go: the two handlers that stream the states to a client.
use spyre_health_checker.Base.{
  Bool, true, not, List, [], ◌∷◌, Option, if◌then◌else◌, MapRange, insert,
}
use spyre_health_checker.Types.{DeviceState, PbDevices}
use spyre_health_checker.Server.Devices.{
  DeviceMap, is_in, initial_device_map, check_for_removed_devices, get_pb_devices,
}

-- What the select statement of a handler yields: the end of the client's context, the end of the
-- queue, or states from the queue, for which sending succeeds or fails.
pub data Received : Type 0 where
  context_done queue_closed : Received
  update : List DeviceState → Bool → Received

abbrev pub message : List DeviceState → PbDevices
message states = record { devices = get_pb_devices states }

-- The messages that the loop of `RegisterForSpyreDevicesEvents` sends or tries to send, as far as the
-- given events go.
unfoldable pub stream_updates : List Received → List PbDevices
unfolding get_pb_devices
stream_updates [] = []
stream_updates (context_done ∷ events) = []
stream_updates (queue_closed ∷ events) = []
stream_updates (update states is_sent ∷ events) =
    let rest = stream_updates events in message states ∷ (if is_sent then rest else [])

-- `RegisterForSpyreDevicesEvents`, from the vital states and whether the first message is sent
unfoldable pub register_for_events : List DeviceState → Bool → List Received → List PbDevices
unfolding stream_updates
register_for_events vital_states is_sent events =
    message vital_states ∷ (if is_sent then stream_updates events else [])

-- The loop that adds the devices of an update to the tracked ones.
unfoldable pub track_new : DeviceMap → List DeviceState → DeviceMap
unfolding is_in insert
track_new m [] = m
track_new m (state ∷ states) =
    track_new (if not (is_in m state.pci_address) then insert state.pci_address true m else m)
      states

-- The loop of `RegisterForSpyreDevicesEventsWithDevices`.
unfoldable pub stream_tracked : MapRange Bool → DeviceMap → List Received → List PbDevices
unfolding track_new check_for_removed_devices
stream_tracked range tracked [] = []
stream_tracked range tracked (context_done ∷ events) = []
stream_tracked range tracked (queue_closed ∷ events) = []
stream_tracked range tracked (update states is_sent ∷ events) =
    let rest = stream_tracked range (track_new tracked states) events in
    message (check_for_removed_devices range states tracked) ∷ (if is_sent then rest else [])

-- `RegisterForSpyreDevicesEventsWithDevices`
unfoldable pub register_with_devices :
    MapRange Bool → List DeviceState → Option PbDevices → Bool → List Received → List PbDevices
unfolding stream_tracked initial_device_map
register_with_devices range vital_states initial is_sent events =
    let tracked = initial_device_map initial in
    let rest = stream_tracked range tracked events in
    message (check_for_removed_devices range vital_states tracked) ∷ (if is_sent then rest else [])
