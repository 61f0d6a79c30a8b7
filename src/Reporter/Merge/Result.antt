-- ===== src/Reporter/Merge/Result.antt =====
-- What `Merge` returns: the list that `range` makes of the map, and the errors.
use spyre_health_checker.Base.{
  ◌≡◌, refl, subst, ◌∙◌, ◌⊎◌, List, [], ◌∷◌, none, Text, Dict, lookup, insert, lookup-nil,
  NodupKeys, insert-NodupKeys, insert-All, MapRange, order-NodupKeys, lookup-order, order-All,
  values, All, arith, inl, inr,
}
use spyre_health_checker.Types.{DeviceState, find_state, NodupAddresses, Reporter, Outcome-cases}
use spyre_health_checker.Reporter.Merge.{
  record_state, record_states, Merging, merge_reporter, merge_reporters, merge,
}
use spyre_health_checker.Reporter.Merge.Verdict.{
  settle, states_at, collected, lookup-merge_reporters,
}

-- The keys of `best` are distinct, and each is the address of its value.
record IsKeyed (best : Dict DeviceState) : Type 0 where
  distinct : NodupKeys best
  keyed : All (λ e. e.0 ≡ e.1.pci_address) best

record_state_cases :
    (best : Dict DeviceState) (s : DeviceState)
    → (record_state best s ≡ best) ⊎ (record_state best s ≡ insert s.pci_address s best)
unfolding record_state
record_state_cases best s = ground arith

record_state-IsKeyed :
    (best : Dict DeviceState) (s : DeviceState) → IsKeyed best → IsKeyed (record_state best s)
record_state-IsKeyed best s k = elim (record_state_cases best s) [
  | inl e ↦ rw e k
  | inr e ↦ rw e (record {
    distinct = insert-NodupKeys s.pci_address s best k.distinct;
    keyed = insert-All _ s.pci_address s best refl k.keyed;
  })
]

record_states-IsKeyed :
    (best : Dict DeviceState) (ss : List DeviceState)
    → IsKeyed best
    → IsKeyed (record_states best ss)
unfolding record_states
record_states-IsKeyed best [] k = k
record_states-IsKeyed best (s ∷ ss) k =
    record_states-IsKeyed (record_state best s) ss (record_state-IsKeyed best s k)

-- Read by address, the values of such a map are the map.
find_state-values :
    (a : Text) (best : Dict DeviceState)
    → All (λ e. e.0 ≡ e.1.pci_address) best
    → find_state a (values best) ≡ lookup a best
unfolding find_state lookup
find_state-values a [] k = refl
find_state-values a ((j, s) ∷ best) (e, k) = ground (arith, find_state-values a best k)

values-NodupAddresses : (best : Dict DeviceState) → IsKeyed best → NodupAddresses (values best)
values-NodupAddresses [] k = tt
values-NodupAddresses ((j, s) ∷ best) k = (
  find_state-values s.pci_address best k.keyed.1
      ∙ subst (λ a. lookup a best ≡ none) k.keyed.0 k.distinct.0,
  values-NodupAddresses best (record { distinct = k.distinct.1; keyed = k.keyed.1 }),
)

module _ {W : Type 0} (w : W) where
  merge_reporter-IsKeyed :
      (m : Merging) (rep : Reporter W) → IsKeyed m.best → IsKeyed (merge_reporter w m rep).best
  unfolding merge_reporter
  merge_reporter-IsKeyed m rep k = elim (Outcome-cases (rep.collect w)) [
    | inl (states, e) ↦ rw (e, merge_reporter) (record_states-IsKeyed m.best states k)
    | inr (f, e) ↦ rw (e, merge_reporter) k
  ]

  merge_reporters-IsKeyed :
      (m : Merging) (reporters : List (Reporter W))
      → IsKeyed m.best
      → IsKeyed (merge_reporters w m reporters).best
  unfolding merge_reporters
  merge_reporters-IsKeyed m [] k = k
  merge_reporters-IsKeyed m (rep ∷ reporters) k =
      merge_reporters-IsKeyed (merge_reporter w m rep) reporters (merge_reporter-IsKeyed m rep k)

  -- `merge` in terms of the map that its loop builds.
  module _ (range : MapRange DeviceState) (reporters : List (Reporter W)) where
    abbrev built : Dict DeviceState
    built = (merge_reporters w (record { best = []; errs = [] }) reporters).best

    built-IsKeyed : IsKeyed built
    built-IsKeyed = merge_reporters-IsKeyed _ reporters (record { distinct = tt; keyed = tt })

    order-IsKeyed : IsKeyed (range.order built)
    order-IsKeyed = record {
      distinct = order-NodupKeys range built built-IsKeyed.distinct;
      keyed = order-All range _ built built-IsKeyed.keyed;
    }

    -- In whatever order `range` visits the map, the result for an address is the fold of the override
    -- rule over the states that the reporters without error give for it, in the order in which they
    -- come: the states of other addresses have no influence on it.
    pub find_state-merge :
        (a : Text)
        → find_state a (merge w range reporters).0
          ≡ settle none (states_at a (collected w reporters))
    unfolding merge
    find_state-merge a =
        find_state-values a _ order-IsKeyed.keyed
        ∙ lookup-order range a built built-IsKeyed.distinct
        ∙ lookup-merge_reporters w a _ reporters
        ∙ rw (lookup-nil {V = DeviceState} a)

    pub merge-NodupAddresses : NodupAddresses (merge w range reporters).0
    unfolding merge
    merge-NodupAddresses = values-NodupAddresses _ order-IsKeyed
