-- ===== src/Server/Named.antt =====
-- pkg/server/server.go: the devices that a client names when it registers.
use spyre_health_checker.Base.{
  ◌≡◌, ap, ◌∙◌, ◌⊎◌, inl, inr, ◌↔◌, true, Bool-cases, List, [], ◌∷◌, Option, none, some,
  Option-cases, Text, text_eq, text_eq_iff, lookup, insert, lookup-insert, NodupKeys,
  insert-NodupKeys, Any, arith, iff_step, iff_none,
}
use spyre_health_checker.Types.{PbDevice, PbDevices}
use spyre_health_checker.Server.Devices.{DeviceMap, is_in, add_devices, initial_device_map}

-- A list of devices has one with this address.
abbrev pub Names : Text → List PbDevice → Type 0
Names a devices = Any (λ d. d.device_id ≡ some a) devices

add_devices-NodupKeys :
    (m : DeviceMap) (devices : List PbDevice) → NodupKeys m → NodupKeys (add_devices m devices)
unfolding add_devices
add_devices-NodupKeys m [] u = u
add_devices-NodupKeys m (d ∷ devices) u = elim (Option-cases d.device_id) [
  | inl e ↦ rw (e, add_devices) (add_devices-NodupKeys m devices u)
  | inr (a, e) ↦
      rw (e, add_devices)
        (add_devices-NodupKeys (insert a true m) devices (insert-NodupKeys a true m u))
]

is_in-add_devices :
    (a : Text) (m : DeviceMap) (devices : List PbDevice)
    → (is_in (add_devices m devices) a ≡ true) ↔ ((is_in m a ≡ true) ⊎ Names a devices)
unfolding add_devices is_in
is_in-add_devices a m [] = iff_none (λ n. n)
is_in-add_devices a m (d ∷ devices) = go (λ m. is_in-add_devices a m devices) d.device_id
  where
    inserted :
        (b : Text) → (is_in (insert b true m) a ≡ true) ↔ ((is_in m a ≡ true) ⊎ (some b ≡ some a))
    inserted b = ground (arith, lookup-insert a b true m, text_eq_iff b a)

    go :
        ((m : DeviceMap)
          → (is_in (add_devices m devices) a ≡ true) ↔ ((is_in m a ≡ true) ⊎ Names a devices))
        → (o : Option Text)
        → (is_in
              (elim o [
                | none ↦ add_devices m devices
                | some b ↦ add_devices (insert b true m) devices
              ])
              a
            ≡ true)
          ↔ ((is_in m a ≡ true) ⊎ ((o ≡ some a) ⊎ Names a devices))
    go ih none = iff_step (ih m) (iff_none (λ h. cc h))
    go ih (some b) = iff_step (ih (insert b true m)) (inserted b)

pub is_in-initial :
    (a : Text) (initial : PbDevices)
    → (is_in (initial_device_map (some initial)) a ≡ true) ↔ Names a initial.devices
unfolding initial_device_map is_in lookup
is_in-initial a initial = (
  λ h. elim ((is_in-add_devices a [] initial.devices).0 h) [ inl e ↦ absurd (cc e) | inr n ↦ n ],
  λ n. (is_in-add_devices a [] initial.devices).1 (inr n),
)

pub unnamed-lookup :
    (a : Text) (m : DeviceMap) (devices : List PbDevice)
    → lookup a m ≡ none
    → ¬ Names a devices
    → lookup a (add_devices m devices) ≡ none
unfolding add_devices
unnamed-lookup a m [] e n = e
unnamed-lookup a m (d ∷ devices) e n = elim (Option-cases d.device_id) [
  | inl q ↦ rw (q, add_devices) (unnamed-lookup a m devices e (λ k. n (inr k)))
  | inr (b, q) ↦
      rw (q, add_devices)
        (unnamed-lookup a (insert b true m) devices (inserted b q) (λ k. n (inr k)))
]
  where
    inserted : (b : Text) → d.device_id ≡ some b → lookup a (insert b true m) ≡ none
    inserted b q = elim (Bool-cases (text_eq b a)) [
      | inl t ↦ absurd (n (inl (q ∙ ap some ((text_eq_iff b a).0 t))))
      | inr t ↦ ground (arith, lookup-insert a b true m)
    ]

pub initial-NodupKeys : (initial : Option PbDevices) → NodupKeys (initial_device_map initial)
unfolding initial_device_map
initial-NodupKeys none = tt
initial-NodupKeys (some initial) = add_devices-NodupKeys [] initial.devices tt
