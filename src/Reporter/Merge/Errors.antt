-- ===== src/Reporter/Merge/Errors.antt =====
-- What reporters that fail change in the result of `Merge`, and what the order of reporters changes.
use mathlib.Core.List.{append-nil, append_assoc}
use spyre_health_checker.Base.{
  ◌<◌, ◌≡◌, ◌↔◌, refl, sym, ap, ◌∙◌, Bool, true, false, List, [], ◌∷◌, ◌++◌, none, some, Text,
  if◌then◌else◌, MapRange, arith, Bool-cases, inl, inr, keep, text_eq_refl, values,
}
use spyre_health_checker.Types.{
  DeviceState, is_online, find_state, NodupAddresses, Reporter, ok, err, Outcome-cases, Fault,
}
use spyre_health_checker.Reporter.Merge.{
  overrides, Merging, merge, merge_reporter, merge_reporters, error_of, record_states,
}
use spyre_health_checker.Reporter.Merge.Verdict.{settle, states_at, collected, collected_by}
use spyre_health_checker.Reporter.Merge.Result.{find_state-merge, merge-NodupAddresses}

-- The error that one reporter adds, under its name.
unfoldable pub failed_by : {W : Type 0} → W → Reporter W → List (Text × Fault)
failed_by w rep = elim (rep.collect w) [ ok states ↦ [] | err e ↦ (rep.name, e) ∷ [] ]

-- The errors of the reporters that fail, in order.
abbrev pub failures : {W : Type 0} → W → List (Reporter W) → List (Text × Fault)
failures w [] = []
failures w (rep ∷ reporters) = failed_by w rep ++ failures w reporters

unfoldable pub succeeds : {W : Type 0} → W → Reporter W → Bool
succeeds w rep = elim (rep.collect w) [ ok states ↦ true | err e ↦ false ]

settle-some :
    (e : DeviceState) (ss : List DeviceState) → (s : DeviceState) × (settle (some e) ss ≡ some s)
settle-some e [] = (e, refl)
settle-some e (t ∷ ss) = settle-some (if overrides e t then t else e) ss

settle-none : (ss : List DeviceState) → (settle none ss ≡ none) ↔ (ss ≡ [])
settle-none [] = (λ h. refl, λ h. refl)
settle-none (s ∷ ss) = let (t, e) = settle-some s ss in (λ h. ground arith, λ h. ground arith)

module _ {W : Type 0} (w : W) where
  merge_reporter-errs :
      (m : Merging) (rep : Reporter W) → (merge_reporter w m rep).errs ≡ m.errs ++ failed_by w rep
  unfolding merge_reporter failed_by
  merge_reporter-errs m rep = elim (Outcome-cases (rep.collect w)) [
    | inl (states, e) ↦ rw (e, merge_reporter, failed_by) (sym (append-nil m.errs))
    | inr (f, e) ↦ rw (e, merge_reporter, failed_by)
  ]

  merge_reporters-errs :
      (m : Merging) (reporters : List (Reporter W))
      → (merge_reporters w m reporters).errs ≡ m.errs ++ failures w reporters
  unfolding merge_reporters
  merge_reporters-errs m [] = sym (append-nil m.errs)
  merge_reporters-errs m (rep ∷ reporters) =
      merge_reporters-errs (merge_reporter w m rep) reporters
      ∙ rw (merge_reporter-errs m rep) (append_assoc m.errs _ _)

  merge_reporter-best :
      (m n : Merging) (rep : Reporter W)
      → m.best ≡ n.best
      → (merge_reporter w m rep).best ≡ (if succeeds w rep then merge_reporter w n rep else n).best
  unfolding merge_reporter succeeds
  merge_reporter-best m n rep h = elim (Outcome-cases (rep.collect w)) [
    | inl (states, e) ↦ rw (e, merge_reporter, succeeds) (ap (λ b. record_states b states) h)
    | inr (f, e) ↦ rw (e, merge_reporter, succeeds) h
  ]

  merge_reporters-best :
      (m n : Merging) (reporters : List (Reporter W))
      → m.best ≡ n.best
      → (merge_reporters w m reporters).best
        ≡ (merge_reporters w n (keep (succeeds w) reporters)).best
  unfolding merge_reporters
  merge_reporters-best m n [] h = h
  merge_reporters-best m n (rep ∷ reporters) h =
      let step = merge_reporter-best m n rep h in
      elim (Bool-cases (succeeds w rep)) [
        | inl e ↦ rw e (
            merge_reporters-best (merge_reporter w m rep) (merge_reporter w n rep) reporters
              (rw e at step))
        | inr e ↦ rw e (merge_reporters-best (merge_reporter w m rep) n reporters (rw e at step))
      ]

  module _ (range : MapRange DeviceState) (reporters : List (Reporter W)) where
    -- The result lists each address that a reporter without error reports, once, and no other.
    pub merge_lists_reported :
        NodupAddresses (merge w range reporters).0
        × ((a : Text)
            → (find_state a (merge w range reporters).0 ≡ none)
              ↔ (states_at a (collected w reporters) ≡ []))
    merge_lists_reported = (
      merge-NodupAddresses w range reporters,
      λ a. rw (find_state-merge w range reporters a) (settle-none _),
    )

    -- The error names exactly the reporters that failed, in order, and the states are those of a
    -- merge of the other reporters.
    pub merge_skips_failures :
        ((merge w range reporters).1 ≡ error_of (failures w reporters))
        × ((merge w range reporters).0 ≡ (merge w range (keep (succeeds w) reporters)).0)
    unfolding merge
    merge_skips_failures = (
      ap error_of (merge_reporters-errs _ reporters),
      ap (λ b. values (range.order b)) (merge_reporters-best _ _ reporters refl),
    )

-- Where two reporters disagree on a device, the later one finding it healthy at a higher priority,
-- the merge keeps the unhealthy state. In the other order it gives the healthy one.
pub merge_order_matters :
    {W : Type 0} (w : W) (range : MapRange DeviceState) (low high : Reporter W) (s t : DeviceState)
    → low.collect w ≡ ok (s ∷ [])
    → high.collect w ≡ ok (t ∷ [])
    → s.pci_address ≡ t.pci_address
    → s.priority < t.priority
    → is_online s.state ≡ false
    → is_online t.state ≡ true
    → (find_state t.pci_address (merge w range (low ∷ high ∷ [])).0 ≡ some s)
      × (find_state t.pci_address (merge w range (high ∷ low ∷ [])).0 ≡ some t)
unfolding collected_by overrides
merge_order_matters w range low high s t hl hh same lower bad good = (
  find_state-merge w range _ t.pci_address
      ∙ rw (hl, hh, collected_by, same, text_eq_refl t.pci_address) (ground arith),
  find_state-merge w range _ t.pci_address
      ∙ rw (hl, hh, collected_by, same, text_eq_refl t.pci_address) (ground arith),
)
