-- ===== src/Tests/Merge.antt =====
-- Merging the reports of lspci, the card management service and the RAS watcher.
use spyre_health_checker.Base.{
  ℕ, ◌≤◌, ◌≡◌, ◌↔◌, refl, false, List, [], ◌∷◌, none, some, Text, codes, in_order, arith, keep,
  text_eq, lookup, insert,
}
use spyre_health_checker.Types.{
  DeviceState, PbDeviceState, online, in_error, pf, Reporter, ok, err, lspci_not_found, find_state,
  NodupAddresses, is_online,
}
use spyre_health_checker.Reporter.Merge.{merge, error_of}
use spyre_health_checker.Reporter.Merge.Verdict.{settle, states_at, collected, collected_by}
use spyre_health_checker.Reporter.Merge.Result.{find_state-merge}
use spyre_health_checker.Reporter.Merge.Sticky.{merge_sticky, merge_rising}
use spyre_health_checker.Reporter.Merge.Errors.{
  merge_lists_reported, merge_skips_failures, merge_order_matters, failures, succeeds,
}

abbrev pub card : Text
card = codes "0000:1a:00.0"

abbrev pub other_card : Text
other_card = codes "0000:1c:00.0"

abbrev pub entry : Text → PbDeviceState → Text → ℕ → DeviceState
entry a s source priority = record {
  pci_address = a;
  type = pf;
  state = s;
  source = source;
  priority = priority;
}

abbrev pub reporter_of : Text → ℕ → List (Text × PbDeviceState) → Reporter (Unit {0})
reporter_of name priority l = record {
  name = name;
  priority = priority;
  collect = λ _. ok (stamped l);
}
  where
    stamped : List (Text × PbDeviceState) → List DeviceState
    stamped [] = []
    stamped ((a, s) ∷ rest) = entry a s name priority ∷ stamped rest

abbrev pub lspci : Reporter (Unit {0})
lspci = reporter_of (codes "lspci") 1 ((card, in_error) ∷ (other_card, online) ∷ [])

abbrev pub cardmgmt : Reporter (Unit {0})
cardmgmt = reporter_of (codes "cardmgmt") 5 ((card, online) ∷ (other_card, online) ∷ [])

abbrev pub broken : Reporter (Unit {0})
broken = record {
  name = codes "cardmgmt";
  priority = 5;
  collect = λ _. err (lspci_not_found (codes "/bin"));
}

card_kept :
    find_state card (merge tt in_order (lspci ∷ cardmgmt ∷ [])).0
    ≡ some (entry card in_error (codes "lspci") 1)
unfolding merge find_state text_eq lookup insert
card_kept = refl

find_state-merge_example :
    find_state card (merge tt in_order (lspci ∷ cardmgmt ∷ [])).0
    ≡ settle none (states_at card (collected tt (lspci ∷ cardmgmt ∷ [])))
find_state-merge_example = find_state-merge tt in_order (lspci ∷ cardmgmt ∷ []) card

merge_sticky_example :
    (s : DeviceState) × (find_state card (merge tt in_order (lspci ∷ cardmgmt ∷ [])).0 ≡ some s)
    × (is_online s.state ≡ false)
    × (1 ≤ s.priority)
unfolding merge find_state text_eq lookup insert
merge_sticky_example =
    merge_sticky tt in_order (lspci ∷ []) (cardmgmt ∷ []) card
      (entry card in_error (codes "lspci") 1) refl refl

merge_rising_example :
    find_state other_card (merge tt in_order (lspci ∷ cardmgmt ∷ [])).0
    ≡ some (entry other_card online (codes "cardmgmt") 5)
unfolding collected_by text_eq
merge_rising_example = merge_rising tt in_order (lspci ∷ cardmgmt ∷ []) other_card (omega arith)

merge_lists_reported_example :
    NodupAddresses (merge tt in_order (lspci ∷ cardmgmt ∷ [])).0
    × ((a : Text)
        → (find_state a (merge tt in_order (lspci ∷ cardmgmt ∷ [])).0 ≡ none)
          ↔ (states_at a (collected tt (lspci ∷ cardmgmt ∷ [])) ≡ []))
merge_lists_reported_example = merge_lists_reported tt in_order (lspci ∷ cardmgmt ∷ [])

merge_skips_failures_example :
    ((merge tt in_order (lspci ∷ broken ∷ [])).1 ≡ error_of (failures tt (lspci ∷ broken ∷ [])))
    × ((merge tt in_order (lspci ∷ broken ∷ [])).0
        ≡ (merge tt in_order (keep (succeeds tt) (lspci ∷ broken ∷ []))).0)
merge_skips_failures_example = merge_skips_failures tt in_order (lspci ∷ broken ∷ [])

abbrev one_bad : Reporter (Unit {0})
one_bad = reporter_of (codes "lspci") 1 ((card, in_error) ∷ [])

abbrev one_good : Reporter (Unit {0})
one_good = reporter_of (codes "cardmgmt") 5 ((card, online) ∷ [])

merge_order_matters_example :
    (find_state card (merge tt in_order (one_bad ∷ one_good ∷ [])).0
      ≡ some (entry card in_error (codes "lspci") 1))
    × (find_state card (merge tt in_order (one_good ∷ one_bad ∷ [])).0
        ≡ some (entry card online (codes "cardmgmt") 5))
merge_order_matters_example =
    merge_order_matters tt in_order one_bad one_good _ _ refl refl refl (omega arith) refl refl
