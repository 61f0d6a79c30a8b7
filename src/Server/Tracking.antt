-- ===== src/Server/Tracking.antt =====
-- What a client that named its devices is told of them.
use spyre_health_checker.Base.{
  ◌≡◌, refl, ◌∙◌, Bool, true, false, List, [], ◌∷◌, ◌++◌, Option, none, some, Text, text_eq_iff,
  text_eq_refl, if◌then◌else◌, ◌<|>◌, MapRange, lookup, insert, lookup-insert, NodupKeys,
  lookup-order, keys, arith,
}
use spyre_health_checker.Types.{DeviceState, find_state}
use spyre_health_checker.Server.Devices.{
  DeviceMap, is_in, current_device_map, removed_state, removed_states, check_for_removed_devices,
}

-- An entry for a key, with what it says of the address.
abbrev pub removed_at : Text → Option Bool → Option DeviceState
removed_at a none = none
removed_at a (some b) = some (removed_state a)

abbrev pub is_some : {A : Type 0} → Option A → Bool
is_some none = false
is_some (some a) = true

is_in-current :
    (a : Text) (m : DeviceMap) (states : List DeviceState)
    → is_in (current_device_map m states) a
      ≡ (if is_some (find_state a states) then true else is_in m a)
unfolding current_device_map is_in find_state
is_in-current a m [] = refl
is_in-current a m (s ∷ states) = ground (
  arith,
  is_in-current a (insert s.pci_address true m) states,
  lookup-insert a s.pci_address true m,
)

find_state-removed :
    (a : Text) (current m : DeviceMap)
    → find_state a (removed_states current (keys m))
      ≡ (if is_in current a then none else removed_at a (lookup a m))
unfolding removed_states find_state lookup
find_state-removed a current [] = ground arith
find_state-removed a current ((b, v) ∷ m) =
    ground (arith, find_state-removed a current m, text_eq_iff b a, text_eq_refl a)

find_state-append :
    (a : Text) (ss ts : List DeviceState)
    → find_state a (ss ++ ts) ≡ find_state a ss <|> find_state a ts
unfolding find_state
find_state-append a [] ts = refl
find_state-append a (s ∷ ss) ts = ground (arith, find_state-append a ss ts)

-- What is sent for an address: its current state if it has one, that it was removed if it is tracked
-- and has none, and nothing otherwise.
pub find_state-check_for_removed_devices :
    (range : MapRange Bool) (a : Text) (states : List DeviceState) (tracked : DeviceMap)
    → NodupKeys tracked
    → find_state a (check_for_removed_devices range states tracked)
      ≡ find_state a states <|> removed_at a (lookup a tracked)
unfolding check_for_removed_devices is_in
find_state-check_for_removed_devices range a states [] u = ground arith
find_state-check_for_removed_devices range a states (entry ∷ tracked) u =
    find_state-append a states
      (removed_states (current_device_map [] states) (keys (range.order (entry ∷ tracked))))
    ∙ ground (
      arith,
      find_state-removed a (current_device_map [] states) (range.order (entry ∷ tracked)),
      is_in-current a [] states,
      lookup-order range a (entry ∷ tracked) u,
    )
