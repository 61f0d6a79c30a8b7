-- ===== src/Server/Coverage.antt =====
-- Which messages name a device.
use spyre_health_checker.Base.{
  ◌≡◌, refl, ap, ◌∙◌, ◌⊎◌, inl, inr, Bool, true, false, not, Bool-cases, List, [], ◌∷◌, none, some,
  Option-cases, Text, text_eq, text_eq_iff, if◌then◌else◌, MapRange, insert, lookup-insert,
  lookup-nil, NodupKeys, insert-NodupKeys, All, arith,
}
use spyre_health_checker.Types.{DeviceState, PbDevices, device, find_state}
use spyre_health_checker.Server.Devices.{
  get_pb_devices, DeviceMap, is_in, initial_device_map, check_for_removed_devices,
}
use spyre_health_checker.Server.Stream.{
  Received, context_done, queue_closed, update, message, track_new, stream_tracked,
  register_with_devices,
}
use spyre_health_checker.Server.Named.{Names, is_in-initial, unnamed-lookup, initial-NodupKeys}
use spyre_health_checker.Server.Tracking.{is_some, find_state-check_for_removed_devices}

abbrev pub Covers : Text → PbDevices → Type 0
Covers a m = Names a m.devices

pub found-Covers :
    (a : Text) (s : DeviceState) (states : List DeviceState)
    → find_state a states ≡ some s
    → Covers a (message states)
unfolding find_state get_pb_devices device
found-Covers a s [] h = cc
found-Covers a s (t ∷ states) h = elim (Bool-cases (text_eq t.pci_address a)) [
  | inl e ↦ inl (ap some ((text_eq_iff t.pci_address a).0 e))
  | inr e ↦ inr (found-Covers a s states (rw (e, find_state) at h))
]

pub missing-Covers :
    (a : Text) (states : List DeviceState)
    → find_state a states ≡ none
    → Covers a (message states)
    → ⊥
unfolding find_state get_pb_devices device
missing-Covers a [] h c = c
missing-Covers a (t ∷ states) h (inl q) = ground (arith, text_eq_iff t.pci_address a)
missing-Covers a (t ∷ states) h (inr c) =
    missing-Covers a states (ground (arith, text_eq_iff t.pci_address a)) c

check-Covers :
    (range : MapRange Bool) (a : Text) (states : List DeviceState) (tracked : DeviceMap)
    → NodupKeys tracked
    → (is_some (find_state a states) ≡ true) ⊎ (is_in tracked a ≡ true)
    → Covers a (message (check_for_removed_devices range states tracked))
unfolding is_in
check-Covers range a states tracked u h =
    elim (Option-cases (find_state a (check_for_removed_devices range states tracked))) [
      | inr (s, e) ↦ found-Covers a s (check_for_removed_devices range states tracked) e
      | inl e ↦
          absurd (ground (arith, find_state-check_for_removed_devices range a states tracked u))
    ]

is_in-track_new :
    (a : Text) (m : DeviceMap) (states : List DeviceState)
    → is_in (track_new m states) a ≡ (if is_some (find_state a states) then true else is_in m a)
unfolding track_new is_in find_state
is_in-track_new a m [] = refl
is_in-track_new a m (s ∷ states) = ground (
  arith,
  is_in-track_new a (insert s.pci_address true m) states,
  is_in-track_new a m states,
  lookup-insert a s.pci_address true m,
  text_eq_iff s.pci_address a,
)

track_new-NodupKeys :
    (m : DeviceMap) (states : List DeviceState) → NodupKeys m → NodupKeys (track_new m states)
unfolding track_new
track_new-NodupKeys m [] u = u
track_new-NodupKeys m (s ∷ states) u = elim (Bool-cases (not (is_in m s.pci_address))) [
  | inl e ↦
      rw (e, track_new)
        (track_new-NodupKeys (insert s.pci_address true m) states
          (insert-NodupKeys s.pci_address true m u))
  | inr e ↦ rw (e, track_new) (track_new-NodupKeys m states u)
]

stream-Covers :
    (range : MapRange Bool) (a : Text) (tracked : DeviceMap) (events : List Received)
    → NodupKeys tracked
    → is_in tracked a ≡ true
    → All (Covers a) (stream_tracked range tracked events)
unfolding stream_tracked
stream-Covers range a tracked [] u h = tt
stream-Covers range a tracked (context_done ∷ events) u h = tt
stream-Covers range a tracked (queue_closed ∷ events) u h = tt
stream-Covers range a tracked (update states false ∷ events) u h =
    (check-Covers range a states tracked u (inr h), tt)
stream-Covers range a tracked (update states true ∷ events) u h = (
  check-Covers range a states tracked u (inr h),
  stream-Covers range a (track_new tracked states) events (track_new-NodupKeys tracked states u)
      (ground (arith, is_in-track_new a tracked states)),
)

-- A device that an update reports is in the message for that update and in every later one.
pub reported-Covers :
    (range : MapRange Bool) (a : Text) (tracked : DeviceMap) (states : List DeviceState)
    (is_sent : Bool) (events : List Received)
    → NodupKeys tracked
    → is_some (find_state a states) ≡ true
    → All (Covers a) (stream_tracked range tracked (update states is_sent ∷ events))
unfolding stream_tracked
reported-Covers range a tracked states false events u h =
    (check-Covers range a states tracked u (inl h), tt)
reported-Covers range a tracked states true events u h = (
  check-Covers range a states tracked u (inl h),
  stream-Covers range a (track_new tracked states) events (track_new-NodupKeys tracked states u)
      (ground (arith, is_in-track_new a tracked states)),
)

-- A device that the client names when it registers is in every message that it is sent, removed or
-- not.
pub register-Covers :
    (range : MapRange Bool) (a : Text) (vital_states : List DeviceState) (initial : PbDevices)
    (is_sent : Bool) (events : List Received)
    → Names a initial.devices
    → All (Covers a) (register_with_devices range vital_states (some initial) is_sent events)
unfolding register_with_devices
register-Covers range a vital_states initial is_sent events n = go is_sent
  where
    tracked : DeviceMap
    tracked = initial_device_map (some initial)

    named : is_in tracked a ≡ true
    named = (is_in-initial a initial).1 n

    first : Covers a (message (check_for_removed_devices range vital_states tracked))
    first = check-Covers range a vital_states tracked (initial-NodupKeys (some initial)) (inr named)

    go :
        (sent : Bool)
        → All (Covers a) (
            message (check_for_removed_devices range vital_states tracked)
            ∷ (if sent then stream_tracked range tracked events else []))
    go false = (first, tt)
    go true = (first, stream-Covers range a tracked events (initial-NodupKeys (some initial)) named)

-- A device that the first message shows, that the client has not named when it registered and that
-- is gone at the first update, is not in the message for that update, not even as a removed one.
pub register_forgets :
    (range : MapRange Bool) (a : Text) (vital_states : List DeviceState) (initial : PbDevices)
    (states : List DeviceState) (is_sent : Bool) (events : List Received)
    → is_some (find_state a vital_states) ≡ true
    → ¬ Names a initial.devices
    → find_state a states ≡ none
    → (first : PbDevices) × (second : PbDevices) × (later : List PbDevices) × (register_with_devices
          range vital_states
          (some initial)
          true
          (update states is_sent ∷ events)
        ≡ first ∷ second ∷ later)
      × Covers a first
      × (¬ Covers a second)
unfolding register_with_devices stream_tracked initial_device_map
register_forgets range a vital_states initial states is_sent events shown n gone =
    let tracked : DeviceMap = initial_device_map (some initial) in
    let u : NodupKeys tracked = initial-NodupKeys (some initial) in
    (
      message (check_for_removed_devices range vital_states tracked),
      message (check_for_removed_devices range states tracked),
      (if is_sent then stream_tracked range (track_new tracked states) events else []),
      refl,
      check-Covers range a vital_states tracked u (inl shown),
      missing-Covers a (check_for_removed_devices range states tracked) (
          find_state-check_for_removed_devices range a states tracked u
          ∙ ground (arith, unnamed-lookup a [] initial.devices (lookup-nil a) n)),
    )
