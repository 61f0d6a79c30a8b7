-- ===== src/Reporter/Merge/Verdict.antt =====
-- What `Merge` decides for one address, apart from all others.
use mathlib.Core.List.{append_assoc}
use spyre_health_checker.Base.{
  ◌≡◌, refl, sym, ◌∙◌, List, [], ◌∷◌, ◌++◌, Option, none, some, Text, text_eq, text_eq_iff,
  if◌then◌else◌, Dict, lookup, lookup-insert, keep, keep-append, arith, Option-cases, Bool-cases,
  inl, inr,
}
use spyre_health_checker.Types.{DeviceState, Reporter, ok, err, Outcome-cases}
use spyre_health_checker.Reporter.Merge.{
  overrides, record_state, record_states, Merging, merge_reporter, merge_reporters,
}

-- The states that name an address, in order.
abbrev pub states_at : Text → List DeviceState → List DeviceState
states_at a = keep (λ s. text_eq s.pci_address a)

-- The state that is left of a history at one address, whose recorded state is the first argument.
abbrev pub settle : Option DeviceState → List DeviceState → Option DeviceState
settle v [] = v
settle none (s ∷ ss) = settle (some s) ss
settle (some e) (s ∷ ss) = settle (some (if overrides e s then s else e)) ss

pub settle-append :
    (v : Option DeviceState) (ss ts : List DeviceState)
    → settle v (ss ++ ts) ≡ settle (settle v ss) ts
settle-append v [] ts = refl
settle-append none (s ∷ ss) ts = settle-append (some s) ss ts
settle-append (some e) (s ∷ ss) ts = settle-append (some (if overrides e s then s else e)) ss ts

-- The states that one reporter adds: none if it fails.
unfoldable pub collected_by : {W : Type 0} → W → Reporter W → List DeviceState
collected_by w rep = elim (rep.collect w) [ ok states ↦ states | err e ↦ [] ]

-- The states of the reporters that did not fail, in the order in which `Merge` meets them.
abbrev pub collected : {W : Type 0} → W → List (Reporter W) → List DeviceState
collected w [] = []
collected w (rep ∷ reporters) = collected_by w rep ++ collected w reporters

pub collected-append :
    {W : Type 0} (w : W) (reporters more : List (Reporter W))
    → collected w (reporters ++ more) ≡ collected w reporters ++ collected w more
collected-append w [] more = refl
collected-append w (rep ∷ reporters) more = simp (collected-append w reporters more, append_assoc)

lookup-record_state :
    (a : Text) (best : Dict DeviceState) (s : DeviceState)
    → lookup a (record_state best s)
      ≡ (if text_eq s.pci_address a then settle (lookup a best) (s ∷ []) else lookup a best)
unfolding record_state
lookup-record_state a best s = ground (
  arith,
  lookup-insert a s.pci_address s best,
  text_eq_iff s.pci_address a,
  Option-cases (lookup s.pci_address best),
)

lookup-record_states :
    (a : Text) (best : Dict DeviceState) (ss : List DeviceState)
    → lookup a (record_states best ss) ≡ settle (lookup a best) (states_at a ss)
unfolding record_states
lookup-record_states a best [] = refl
lookup-record_states a best (s ∷ ss) = lookup-record_states a (record_state best s) ss ∙ step
  where
    step :
        settle (lookup a (record_state best s)) (states_at a ss)
        ≡ settle (lookup a best) (states_at a (s ∷ ss))
    step = elim (Bool-cases (text_eq s.pci_address a)) [
      | inl e ↦
          rw (lookup-record_state a best s, e) (sym (settle-append (lookup a best) (s ∷ []) _))
      | inr e ↦ rw (lookup-record_state a best s, e)
    ]

module _ {W : Type 0} (w : W) where
  lookup-merge_reporter :
      (a : Text) (m : Merging) (rep : Reporter W)
      → lookup a (merge_reporter w m rep).best
        ≡ settle (lookup a m.best) (states_at a (collected_by w rep))
  unfolding merge_reporter collected_by
  lookup-merge_reporter a m rep = elim (Outcome-cases (rep.collect w)) [
    | inl (states, e) ↦ rw (e, merge_reporter, collected_by) (lookup-record_states a m.best states)
    | inr (f, e) ↦ rw (e, merge_reporter, collected_by)
  ]

  -- The outer loop treats each address on its own.
  pub lookup-merge_reporters :
      (a : Text) (m : Merging) (reporters : List (Reporter W))
      → lookup a (merge_reporters w m reporters).best
        ≡ settle (lookup a m.best) (states_at a (collected w reporters))
  unfolding merge_reporters
  lookup-merge_reporters a m [] = refl
  lookup-merge_reporters a m (rep ∷ reporters) =
      lookup-merge_reporters a (merge_reporter w m rep) reporters
      ∙ rw (
        lookup-merge_reporter a m rep,
        keep-append (λ s. text_eq s.pci_address a) (collected_by w rep) (collected w reporters),
        settle-append (lookup a m.best) (states_at a (collected_by w rep)),
      )
