-- ===== src/Server/Reconnect.antt =====
-- pkg/server/server.go: a client that registers again with the devices of the last message.
use spyre_health_checker.Base.{
  ◌≡◌, ◌⊎◌, inl, inr, Bool, true, List, [], none, some, Option-cases, Text, MapRange, lookup,
  lookup-nil, NodupKeys, arith,
}
use spyre_health_checker.Types.{DeviceState, find_state}
use spyre_health_checker.Server.Devices.{
  DeviceMap, is_in, initial_device_map, check_for_removed_devices,
}
use spyre_health_checker.Server.Stream.{message}
use spyre_health_checker.Server.Named.{is_in-initial, unnamed-lookup, initial-NodupKeys}
use spyre_health_checker.Server.Tracking.{find_state-check_for_removed_devices}
use spyre_health_checker.Server.Coverage.{found-Covers, missing-Covers}

is_in-lookup : (m : DeviceMap) (a : Text) → is_in m a ≡ true → lookup a m ≡ some true
unfolding is_in
is_in-lookup m a h = ground arith

-- A client tracks exactly the addresses that the message it names shows.
lookup-shown :
    (a : Text) (shown : List DeviceState)
    → ((find_state a shown ≡ none) × (lookup a (initial_device_map (some (message shown))) ≡ none))
      ⊎ ((s : DeviceState) × (find_state a shown ≡ some s)
          × (lookup a (initial_device_map (some (message shown))) ≡ some true))
unfolding initial_device_map
lookup-shown a shown = elim (Option-cases (find_state a shown)) [
  | inl e ↦
      inl (e, unnamed-lookup a [] (message shown).devices (lookup-nil a) (missing-Covers a shown e))
  | inr (s, e) ↦ inr (
    s,
    e,
    is_in-lookup (initial_device_map (some (message shown))) a
        ((is_in-initial a (message shown)).1 (found-Covers a s shown e)),
  )
]

-- A client that lost its stream and registers again with the devices of the last message, removed ones
-- included, is sent the same for each address as before, if the states have not changed meanwhile.
pub reconnect_roundtrip :
    (before after : MapRange Bool) (a : Text) (states : List DeviceState) (tracked : DeviceMap)
    → NodupKeys tracked
    → find_state a (
        check_for_removed_devices after states
          (initial_device_map (some (message (check_for_removed_devices before states tracked)))))
      ≡ find_state a (check_for_removed_devices before states tracked)
reconnect_roundtrip before after a states tracked u =
    let shown = check_for_removed_devices before states tracked in
    let again = initial_device_map (some (message shown)) in
    let old = find_state-check_for_removed_devices before a states tracked u in
    let new =
      find_state-check_for_removed_devices after a states again
        (initial-NodupKeys (some (message shown))) in
    elim (lookup-shown a shown) [
      | inl (e, l) ↦ ground (arith, old, new, e, l)
      | inr (s, e, l) ↦ ground (arith, old, new, e, l)
    ]
