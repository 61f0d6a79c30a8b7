-- ===== src/Tests/Devices.antt =====
-- The card health client and the pseudo devices at concrete inputs.
use spyre_health_checker.Base.{
  ℕ, ◌≡◌, ◌↔◌, ◌⊎◌, ◌≤◌, ◌<◌, ◌+◌, ◌*◌, ltb, arith, refl, [], ◌∷◌, none, some, Text, codes, text_eq,
  length, if◌then◌else◌,
}
use spyre_health_checker.Types.{ok, err}
use spyre_health_checker.Reporter.CardHealth.{
  Rpc, collection, skipped_rpc, second, CardHealthClient, new_card_health_client, no_slots,
}
use spyre_health_checker.Reporter.CardHealth.Deadline.{
  Calls, deadline_of, collect_timed, collect_timed_lem,
}
use spyre_health_checker.Reporter.CardHealth.Slots.{answers, collection_lem}
use spyre_health_checker.Tests.Merge.{card, other_card}

-- The sidecar knows the first card only.
abbrev sidecar : Text → Rpc
sidecar slot =
    if text_eq slot card
    then ok (record { health = codes "healthy"; error = none })
    else err (codes "unavailable")

one_slot_skipped :
    (collection sidecar (card ∷ other_card ∷ [])).1 ≡ some (skipped_rpc 1 2 (codes "unavailable"))
unfolding collection text_eq
one_slot_skipped = refl

collection_lem_example :
    ((collection sidecar (card ∷ other_card ∷ [])).0 ≡ answers sidecar (card ∷ other_card ∷ []))
    × (((collection sidecar (card ∷ other_card ∷ [])).1 ≡ none)
        ↔ (length (answers sidecar (card ∷ other_card ∷ [])) ≡ length (card ∷ other_card ∷ [])))
collection_lem_example = collection_lem sidecar (card ∷ other_card ∷ [])

-- A sidecar that takes four seconds for each slot.
abbrev slow_call : ℕ → ℕ → Text → Rpc × ℕ
slow_call deadline now slot =
    if ltb (now + 4 * second) deadline
    then (ok (record { health = codes "healthy"; error = none }), now + 4 * second)
    else (err (codes "DeadlineExceeded"), deadline)

slow_call-returns :
    (deadline now : ℕ) (slot : Text) → now ≤ deadline → (slow_call deadline now slot).1 ≤ deadline
slow_call-returns deadline now slot h = ground arith

slow_call-expired :
    (deadline : ℕ) (slot : Text)
    → (e : Text) × (slow_call deadline deadline slot ≡ (err e, deadline))
slow_call-expired deadline slot = (codes "DeadlineExceeded", ground arith)

abbrev slow_calls : (client : CardHealthClient) → Calls (deadline_of client 0)
slow_calls client = record {
  call = slow_call (deadline_of client 0);
  call-returns = slow_call-returns (deadline_of client 0);
  call-expired = slow_call-expired (deadline_of client 0);
}

abbrev client : CardHealthClient
client = new_card_health_client (codes "/run/api.sock") [] [] [] (codes "spyre-components")

collect_timed_lem_example :
    ((collect_timed (slow_calls client) 0 no_slots (card ∷ card ∷ card ∷ other_card ∷ [])).1
      ≤ 0 + client.timeout)
    × (((collect_timed (slow_calls client) 0 no_slots (card ∷ card ∷ card ∷ [])).1
          < 0 + client.timeout)
        ⊎ ((collect_timed
              (slow_calls client)
              0
              no_slots
              (card ∷ card ∷ card ∷ other_card ∷ [])).0.states
            ≡ (collect_timed (slow_calls client) 0 no_slots (card ∷ card ∷ card ∷ [])).0.states))
collect_timed_lem_example =
    collect_timed_lem client 0 (slow_calls client) (card ∷ card ∷ card ∷ []) (other_card ∷ [])

two_slots_in_time :
    length
      (collect_timed (slow_calls client) 0 no_slots (card ∷ card ∷ card ∷ other_card ∷ [])).0.states
    ≡ 2
unfolding collect_timed new_card_health_client text_eq
two_slots_in_time = refl
