-- ===== src/Reporter/CardHealth/Deadline.antt =====
-- internal/reporter/cardmgmt_client.go: the one context with a timeout that all calls of `CollectForSlots` share.
use spyre_health_checker.Base.{
  ℕ, ◌+◌, ◌≤◌, ◌<◌, ◌≡◌, refl, ◌∙◌, ap, List, [], ◌∷◌, ◌++◌, ◌⊎◌, inl, inr, Text, arith,
}
use spyre_health_checker.Types.{err}
use spyre_health_checker.Reporter.CardHealth.{
  Rpc, CardHealthClient, SlotLoop, add_slot, query_slot, no_slots, rpc_error,
}

-- Calls of GetCardHealth under a context that is done at `deadline`: for a slot and the time at which the call
-- begins, the reply and the time at which it returns. gRPC promises that a call returns by the deadline of its
-- context, and that a call under a context that is done fails.
pub record Calls (deadline : ℕ) : Type 0 where
  pub call : ℕ → Text → Rpc × ℕ
  pub call-returns : (now : ℕ) (slot : Text) → now ≤ deadline → (call now slot).1 ≤ deadline
  pub call-expired : (slot : Text) → (e : Text) × (call deadline slot ≡ (err e, deadline))

-- The context of `CollectForSlots` called at a time.
abbrev pub deadline_of : CardHealthClient → ℕ → ℕ
deadline_of c now = now + c.timeout

module _ {deadline : ℕ} (calls : Calls deadline) where
  -- The loop of `CollectForSlots`, with the time at which it ends.
  unfoldable pub collect_timed : ℕ → SlotLoop → List Text → SlotLoop × ℕ
  unfolding add_slot query_slot
  collect_timed now c [] = (c, now)
  collect_timed now c (slot ∷ slots) =
      let (reply, later) = calls.call now slot in
      collect_timed later (add_slot c (query_slot slot reply)) slots

  collect_timed_le :
      (now : ℕ) (c : SlotLoop) (slots : List Text)
      → now ≤ deadline
      → (collect_timed now c slots).1 ≤ deadline
  unfolding collect_timed
  collect_timed_le now c [] h = h
  collect_timed_le now c (slot ∷ slots) h =
      collect_timed_le (calls.call now slot).1
        (add_slot c (query_slot slot (calls.call now slot).0)) slots (calls.call-returns now slot h)

  -- Once the context is done, no slot is answered.
  collect_expired :
      (c : SlotLoop) (slots : List Text) → (collect_timed deadline c slots).0.states ≡ c.states
  unfolding collect_timed add_slot query_slot
  collect_expired c [] = refl
  collect_expired c (slot ∷ slots) =
      let (e, p) = calls.call-expired slot in
      ap (λ r. (collect_timed r.1 (add_slot c (query_slot slot r.0)) slots).0.states) p
      ∙ collect_expired (add_slot c (rpc_error e)) slots

  collect_timed-append :
      (now : ℕ) (c : SlotLoop) (slots more : List Text)
      → collect_timed now c (slots ++ more)
        ≡ collect_timed (collect_timed now c slots).1 (collect_timed now c slots).0 more
  unfolding collect_timed
  collect_timed-append now c [] more = refl
  collect_timed-append now c (slot ∷ slots) more =
      collect_timed-append (calls.call now slot).1
        (add_slot c (query_slot slot (calls.call now slot).0)) slots more

-- A collection ends by the timeout of the client, however many slots there are and however long each call
-- would take. Either the calls for the first slots return earlier, or none of the slots behind them
-- gives a state.
pub collect_timed_lem :
    (client : CardHealthClient) (now : ℕ) (calls : Calls (deadline_of client now))
    (slots more : List Text)
    → ((collect_timed calls now no_slots (slots ++ more)).1 ≤ now + client.timeout)
      × (((collect_timed calls now no_slots slots).1 < now + client.timeout)
          ⊎ ((collect_timed calls now no_slots (slots ++ more)).0.states
              ≡ (collect_timed calls now no_slots slots).0.states))
collect_timed_lem client now calls slots more =
    let h : now ≤ deadline_of client now = omega arith in
    let ended = collect_timed calls now no_slots slots in
    (
      collect_timed_le calls now no_slots (slots ++ more) h,
      elim (le_cases ended.1 (deadline_of client now)
          (collect_timed_le calls now no_slots slots h)) [
            | inl before ↦ inl before
            | inr e ↦ inr (
                ap (λ r. r.0.states) (collect_timed-append calls now no_slots slots more)
                ∙ ap (λ end. (collect_timed calls end ended.0 more).0.states) e
                ∙ collect_expired calls ended.0 more)
          ],
    )
  where
    le_cases : (a b : ℕ) → a ≤ b → (a < b) ⊎ (a ≡ b)
    le_cases a b h = ground arith
