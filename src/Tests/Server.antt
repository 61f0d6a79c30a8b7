-- ===== src/Tests/Server.antt =====
-- A client that names a card, two clients of the queue, certificates and the gauge.
use spyre_health_checker.Base.{
  ◌≡◌, refl, inl, inr, true, false, List, [], ◌∷◌, some, Text, codes, in_order, All, text_eq,
  text_eq_iff, any, lookup, lookup-nil, map, ◌++◌, ◌<|>◌,
}
use spyre_health_checker.Types.{DeviceState, PbDevices, online, in_error, find_state}
use spyre_health_checker.Server.Devices.{DeviceMap, initial_device_map, check_for_removed_devices}
use spyre_health_checker.Server.Stream.{
  Received, update, context_done, stream_tracked, register_with_devices, message, stream_updates,
}
use spyre_health_checker.Server.Tracking.{find_state-check_for_removed_devices, removed_at}
use spyre_health_checker.Server.Coverage.{
  Covers, register-Covers, reported-Covers, register_forgets,
}
use spyre_health_checker.Server.Queue.{
  HealthServer, ServerEvent, started_server, registered, left, offered, delivered, dropped, Step,
  register, leave, offer, deliver, drop, Run, done, next, is_delivery, is_update, is_member,
  without, leave_silences, blocked_updates,
}
use spyre_health_checker.Server.Order.{published, received_by, held, sole_client_in_order}
use spyre_health_checker.Server.Reconnect.{reconnect_roundtrip}
use spyre_health_checker.Utils.Metrics.{
  labels_of, same_labels, has_series, update_device_metrics, has_series-update_device_metrics,
}
use spyre_health_checker.Tests.Merge.{card, other_card, entry}

abbrev tracked : DeviceMap
tracked = (card, true) ∷ []

abbrev other_state : DeviceState
other_state = entry other_card online (codes "lspci") 1

find_state-check_for_removed_devices_example :
    find_state card (check_for_removed_devices in_order (other_state ∷ []) tracked)
    ≡ find_state card (other_state ∷ []) <|> removed_at card (lookup card tracked)
unfolding lookup
find_state-check_for_removed_devices_example =
    find_state-check_for_removed_devices in_order card (other_state ∷ []) tracked (refl, tt)

abbrev card_state : DeviceState
card_state = entry card in_error (codes "lspci") 1

abbrev named : PbDevices
named = record {
  devices =
      record { device_id = some card; device_type = card_state.type; device_state = online } ∷ [];
}

abbrev events : List Received
events = update (other_state ∷ []) true ∷ update [] true ∷ context_done ∷ []

register-Covers_example :
    All (Covers card) (register_with_devices in_order (card_state ∷ []) (some named) true events)
register-Covers_example =
    register-Covers in_order card (card_state ∷ []) named true events (inl refl)

reported-Covers_example : All (Covers other_card) (stream_tracked in_order tracked events)
unfolding find_state text_eq lookup
reported-Covers_example =
    reported-Covers in_order other_card tracked (other_state ∷ []) true
      (update [] true ∷ context_done ∷ []) (refl, tt) refl

same_text : (a b : Text) → some a ≡ some b → a ≡ b
same_text a b e = cc

cards_differ : card ≡ other_card → ⊥
unfolding text_eq
cards_differ e = let h : false ≡ true = (text_eq_iff card other_card).1 e in cc

register_forgets_example :
    (first : PbDevices) × (second : PbDevices) × (later : List PbDevices) × (register_with_devices
        in_order
        (other_state ∷ [])
        (some named)
        true
        (update [] true ∷ [])
      ≡ first ∷ second ∷ later)
    × Covers other_card first
    × (¬ Covers other_card second)
unfolding find_state text_eq
register_forgets_example =
    register_forgets in_order other_card (other_state ∷ []) named [] true [] refl
      (λ n. elim n [ inl e ↦ cards_differ (same_text card other_card e) | inr b ↦ b ]) refl

-- Two clients register, then the first one leaves; the second one waits in vain.
abbrev two_clients : HealthServer
two_clients = record started_server { streaming = true; waiting = 2 ∷ 1 ∷ [] }

two_register : Run started_server (registered 1 ∷ registered 2 ∷ []) two_clients
two_register = next register (next register done)

abbrev one_client : HealthServer
one_client = record two_clients { streaming = false; waiting = without 1 (2 ∷ 1 ∷ []) }

first_leaves : Step two_clients (left 1) one_client
unfolding is_member
first_leaves = leave refl

second_waits : is_member 2 one_client.waiting ≡ true
unfolding is_member without
second_waits = refl

leave_silences_example :
    All (λ e. is_delivery e ≡ false) (dropped (card_state ∷ []) ∷ dropped [] ∷ [])
leave_silences_example =
    leave_silences refl first_leaves
      (next (drop {states = card_state ∷ []} refl refl) (next (drop {states = []} refl refl) done))
      (refl, (refl, tt))

-- One client leaves while an update waits for it, and another client fails at its first message.
abbrev blocked : HealthServer
blocked = record started_server { pending = some (card_state ∷ []); sending = 3 ∷ [] }

blocked_updates_example : All (λ e. is_update e ≡ false) (left 3 ∷ [])
unfolding is_member without
blocked_updates_example =
    blocked_updates {s = blocked} (next (Step.first_failed {i = 3} refl) done) (refl, tt)
      ((card_state ∷ [], refl), refl)

has_series-update_device_metrics_example :
    has_series
      (update_device_metrics
        (codes "node")
        (labels_of (codes "node") other_state ∷ [])
        (card_state ∷ []))
      (labels_of (codes "node") card_state)
    ≡ any
        (λ s. same_labels (labels_of (codes "node") s) (labels_of (codes "node") card_state))
        (card_state ∷ [])
has_series-update_device_metrics_example =
    has_series-update_device_metrics (codes "node") (labels_of (codes "node") other_state ∷ [])
      (card_state ∷ []) (labels_of (codes "node") card_state)

-- One client waits. An update reaches it, and the next one is still held back.
abbrev pub sole_client : HealthServer
sole_client = record started_server { streaming = true; waiting = 1 ∷ [] }

abbrev two_updates : List ServerEvent
two_updates = offered (card_state ∷ []) ∷ delivered 1 (card_state ∷ []) ∷ offered [] ∷ []

two_updates-Run : Run sole_client two_updates (record sole_client { pending = some [] })
unfolding is_member
two_updates-Run =
    next (offer refl refl refl) (next (deliver refl refl) (next (offer refl refl refl) done))

sole_client_in_order_example :
    map message (published two_updates)
    ≡ stream_updates (map (λ states. update states true) (received_by 1 two_updates))
      ++ map message (held (some []))
sole_client_in_order_example =
    sole_client_in_order two_updates-Run (refl, (refl, (refl, tt))) (refl, refl) refl

reconnect_roundtrip_example :
    find_state card (
      check_for_removed_devices in_order (other_state ∷ []) (
        initial_device_map
          (some (message (check_for_removed_devices in_order (other_state ∷ []) tracked)))))
    ≡ find_state card (check_for_removed_devices in_order (other_state ∷ []) tracked)
reconnect_roundtrip_example =
    reconnect_roundtrip in_order in_order card (other_state ∷ []) tracked (lookup-nil card, tt)
