-- ===== src/Reporter/Merge/Sticky.antt =====
-- How `Merge` resolves the conflicts of one address: safety first, then priority.
use spyre_health_checker.Base.{
  ℕ, ◌≤◌, ◌<◌, ◌≡◌, refl, ◌∙◌, Bool, true, false, not, ◌&&◌, List, [], ◌∷◌, ◌++◌, Option, none,
  some, ◌<|>◌, Text, if◌then◌else◌, MapRange, arith, Bool-cases, inl, inr, keep-append, text_eq,
}
use spyre_health_checker.Types.{DeviceState, is_online, find_state, Reporter}
use spyre_health_checker.Reporter.Merge.{overrides, merge}
use spyre_health_checker.Reporter.Merge.Verdict.{
  settle, settle-append, states_at, collected, collected-append,
}
use spyre_health_checker.Reporter.Merge.Result.{find_state-merge}

overriding :
    (e t : DeviceState)
    → is_online e.state ≡ false
    → overrides e t ≡ true
    → (is_online t.state ≡ false) × (e.priority < t.priority)
unfolding overrides
overriding e t h o = ground arith

pub settle_sticky :
    (e : DeviceState) (ss : List DeviceState)
    → is_online e.state ≡ false
    → (s : DeviceState) × (settle (some e) ss ≡ some s)
      × (is_online s.state ≡ false)
      × (e.priority ≤ s.priority)
settle_sticky e [] h = (e, refl, h, omega arith)
settle_sticky e (t ∷ ss) h = elim (Bool-cases (overrides e t)) [
  | inl o ↦
      let (unhealthy, higher) = overriding e t h o in
      let (s, p, q, r) = settle_sticky t ss unhealthy in (s, rw o p, q, omega arith)
  | inr o ↦ let (s, p, q, r) = settle_sticky e ss h in (s, rw o p, q, r)
]

-- Priorities rise along the list, from above the given one.
abbrev pub Rising : ℕ → List DeviceState → Type 0
Rising p [] = Unit
Rising p (s ∷ ss) = (p < s.priority) × Rising s.priority ss

abbrev pub IsRising : List DeviceState → Type 0
IsRising [] = Unit
IsRising (s ∷ ss) = Rising s.priority ss

-- The last state that passes a test.
abbrev pub last_where : (DeviceState → Bool) → List DeviceState → Option DeviceState
last_where test [] = none
last_where test (s ∷ ss) = last_where test ss <|> (if test s then some s else none)

abbrev pub is_unhealthy : DeviceState → Bool
is_unhealthy s = not (is_online s.state)

Rising-weaken : (p q : ℕ) (ss : List DeviceState) → p ≤ q → Rising q ss → Rising p ss
Rising-weaken p q [] h r = tt
Rising-weaken p q (s ∷ ss) h r = (omega arith, r.1)

override_wins :
    (e t : DeviceState) → overrides e t ≡ true → (is_unhealthy e && not (is_unhealthy t)) ≡ false
unfolding overrides
override_wins e t o = ground arith

override_loses :
    (e t : DeviceState)
    → e.priority < t.priority
    → overrides e t ≡ false
    → (is_unhealthy e ≡ true) × (is_unhealthy t ≡ false)
unfolding overrides
override_loses e t h o = ground arith

settle-Rising :
    (e : DeviceState) (ss : List DeviceState)
    → Rising e.priority ss
    → settle (some e) ss ≡ (last_where is_unhealthy (e ∷ ss) <|> last_where (λ s. true) (e ∷ ss))
settle-Rising e [] r = ground arith
settle-Rising e (t ∷ ss) r = elim (Bool-cases (overrides e t)) [
  | inl o ↦
      let ih = settle-Rising t ss r.1 in let won = override_wins e t o in rw (o, ih) (ground arith)
  | inr o ↦
      let ih = settle-Rising e ss (Rising-weaken e.priority t.priority ss (omega arith) r.1) in
      let (old, new) = override_loses e t r.0 o in rw (o, ih) (ground arith)
]

settle-IsRising :
    (ss : List DeviceState)
    → IsRising ss
    → settle none ss ≡ (last_where is_unhealthy ss <|> last_where (λ s. true) ss)
settle-IsRising [] r = refl
settle-IsRising (s ∷ ss) r = settle-Rising s ss r

module _ {W : Type 0} (w : W) (range : MapRange DeviceState) where
  -- Once an address has an unhealthy state, further reporters leave it with an unhealthy state of
  -- the same or a higher priority, whatever they report.
  pub merge_sticky :
      (reporters more : List (Reporter W)) (a : Text) (e : DeviceState)
      → find_state a (merge w range reporters).0 ≡ some e
      → is_online e.state ≡ false
      → (s : DeviceState) × (find_state a (merge w range (reporters ++ more)).0 ≡ some s)
        × (is_online s.state ≡ false)
        × (e.priority ≤ s.priority)
  merge_sticky reporters more a e found h =
      let (s, p, unhealthy, higher) = settle_sticky e (states_at a (collected w more)) h in
      (
        s,
        find_state-merge w range (reporters ++ more) a
            ∙ rw
                (
                  collected-append w reporters more,
                  keep-append (λ s. text_eq s.pci_address a) (collected w reporters)
                      (collected w more),
                  settle-append none (states_at a (collected w reporters)),
                  ← find_state-merge w range reporters a,
                  found,
                )
                p,
        unhealthy,
        higher,
      )

  -- Where the states of an address come with rising priorities, the last unhealthy one wins, and
  -- if there is none, the last one.
  pub merge_rising :
      (reporters : List (Reporter W)) (a : Text)
      → IsRising (states_at a (collected w reporters))
      → find_state a (merge w range reporters).0 ≡ (
          last_where is_unhealthy (states_at a (collected w reporters))
          <|> last_where (λ s. true) (states_at a (collected w reporters)))
  merge_rising reporters a r =
      find_state-merge w range reporters a ∙ settle-IsRising (states_at a (collected w reporters)) r
