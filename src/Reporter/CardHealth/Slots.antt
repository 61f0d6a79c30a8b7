-- ===== src/Reporter/CardHealth/Slots.antt =====
-- What `CollectForSlots` returns for the slots that the sidecar answers, and what it says of the rest.
use mathlib.Core.List.{append_assoc, append-nil}
use spyre_health_checker.Base.{
  ℕ, ◌≤◌, ◌<◌, ◌≡◌, ◌≢◌, ◌↔◌, refl, sym, ◌∙◌, ◌⊎◌, inl, inr, List, [], ◌∷◌, ◌++◌, Option, none,
  Text, length, length-append, arith,
}
use spyre_health_checker.Types.{DeviceState}
use spyre_health_checker.Reporter.CardHealth.{
  Rpc, SlotResult, answered, sidecar_error, rpc_error, query_slot, add_slot, SlotLoop,
  collect_slots, no_slots, collection, log_skipped,
}

-- The state of a slot, if the sidecar answers for it.
abbrev pub answer : SlotResult → List DeviceState
answer (answered s) = s ∷ []
answer (sidecar_error m) = []
answer (rpc_error e) = []

add_slot-states : (c : SlotLoop) (r : SlotResult) → (add_slot c r).states ≡ c.states ++ answer r
unfolding add_slot
add_slot-states c (answered s) = refl
add_slot-states c (sidecar_error m) = sym (append-nil c.states)
add_slot-states c (rpc_error e) = sym (append-nil c.states)

-- Whether a first error has been kept.
abbrev IsNoted : SlotLoop → Type 0
IsNoted c = (c.first_rpc_err ≢ none) ⊎ (c.first_sidecar_err ≢ none)

add_slot-IsNoted : (c : SlotLoop) (r : SlotResult) → IsNoted c → IsNoted (add_slot c r)
unfolding add_slot
add_slot-IsNoted c (answered s) h = h
add_slot-IsNoted c (sidecar_error m) h = ground arith
add_slot-IsNoted c (rpc_error e) h = ground arith

-- A result is a state, or it leaves an error behind.
add_slot_cases : (c : SlotLoop) (r : SlotResult) → (length (answer r) ≡ 1) ⊎ IsNoted (add_slot c r)
unfolding add_slot
add_slot_cases c (answered s) = inl refl
add_slot_cases c (sidecar_error m) = inr (ground arith)
add_slot_cases c (rpc_error e) = inr (ground arith)

length-answer-le : (r : SlotResult) → length (answer r) ≤ 1
length-answer-le (answered s) = omega arith
length-answer-le (sidecar_error m) = omega arith
length-answer-le (rpc_error e) = omega arith

log_skipped_iff :
    (total done : ℕ) (rpc sidecar : Option Text)
    → done ≤ total
    → ((done < total) → (rpc ≢ none) ⊎ (sidecar ≢ none))
    → (log_skipped total done rpc sidecar ≡ none) ↔ (done ≡ total)
unfolding log_skipped
log_skipped_iff total done rpc sidecar le noted = (λ h. ground (arith, noted), λ h. ground arith)

module _ (stub : Text → Rpc) where
  -- The states of the slots for which the sidecar answers, in the order of the slots.
  abbrev pub answers : List Text → List DeviceState
  answers [] = []
  answers (slot ∷ slots) = answer (query_slot slot (stub slot)) ++ answers slots

  collect_slots-states :
      (c : SlotLoop) (slots : List Text)
      → (collect_slots stub c slots).states ≡ c.states ++ answers slots
  unfolding collect_slots
  collect_slots-states c [] = sym (append-nil c.states)
  collect_slots-states c (slot ∷ slots) =
      let r = query_slot slot (stub slot) in
      collect_slots-states (add_slot c r) slots
      ∙ rw (add_slot-states c r) (append_assoc c.states (answer r) (answers slots))

  length-answers-le : (slots : List Text) → length (answers slots) ≤ length slots
  length-answers-le [] = omega arith
  length-answers-le (slot ∷ slots) =
      let r = query_slot slot (stub slot) in
      omega (
        arith,
        length-append (answer r) (answers slots),
        length-answer-le r,
        length-answers-le slots,
      )

  collect_slots-IsNoted :
      (c : SlotLoop) (slots : List Text) → IsNoted c → IsNoted (collect_slots stub c slots)
  unfolding collect_slots
  collect_slots-IsNoted c [] h = h
  collect_slots-IsNoted c (slot ∷ slots) h =
      collect_slots-IsNoted (add_slot c (query_slot slot (stub slot))) slots
        (add_slot-IsNoted c (query_slot slot (stub slot)) h)

  skipped-IsNoted :
      (c : SlotLoop) (slots : List Text)
      → length (answers slots) < length slots
      → IsNoted (collect_slots stub c slots)
  unfolding collect_slots
  skipped-IsNoted c [] h = absurd (omega arith)
  skipped-IsNoted c (slot ∷ slots) h =
      let r = query_slot slot (stub slot) in
      elim (add_slot_cases c r) [
        | inl one ↦
            skipped-IsNoted (add_slot c r) slots
              (omega (arith, length-append (answer r) (answers slots)))
        | inr noted ↦ collect_slots-IsNoted (add_slot c r) slots noted
      ]

  -- A collection returns exactly the states of the slots for which the sidecar answers, in the
  -- order of the slots, and it prints a warning exactly if it has skipped a slot.
  pub collection_lem :
      (slots : List Text)
      → ((collection stub slots).0 ≡ answers slots)
        × (((collection stub slots).1 ≡ none) ↔ (length (answers slots) ≡ length slots))
  unfolding collection
  collection_lem slots =
      let e = collect_slots-states no_slots slots in
      (
        e,
        rw e (
            log_skipped_iff (length slots) (length (answers slots)) _ _ (length-answers-le slots)
              (skipped-IsNoted no_slots slots)),
      )
