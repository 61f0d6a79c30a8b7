-- ===== src/Regexp/Sound.antt =====
-- What it means for an expression to match between two cursors, with no search order in it, and that
-- the matcher finds only such matches.
use spyre_health_checker.Base.{
  ℕ, zero, suc, ◌≡◌, refl, ◌∙◌, ◌⊎◌, inl, inr, Bool, true, Bool-cases, [], ◌∷◌, Option, none, some,
  Option-cases, List-cases, Text, length, arith,
}
use spyre_health_checker.Regexp.{
  Regexp, empty, one, cat, alt, star, lazy_star, group, begin_text, end_text, word_boundary, Cursor,
  taken, word_before, word_after, differ, Next, run_one, moved, run_star, run_lazy, run,
}

-- Any number of rounds.
pub data Rounds (R : Cursor → Cursor → Type 0) : Cursor → Cursor → Type 0 where
  stop : (c : Cursor) → Rounds R c c
  more : {c d e : Cursor} → R c d → Rounds R d e → Rounds R c e

abbrev pub Derives : Regexp → Cursor → Cursor → Type 0
Derives empty c d = d ≡ c
Derives (one p) c d =
    (x : ℕ) × (xs : Text) × (c.rest ≡ x ∷ xs)
    × (p x ≡ true)
    × (d ≡ record c { before = some x; rest = xs })
Derives (cat r s) c d = (e : Cursor) × Derives r c e × Derives s e d
Derives (alt r s) c d = Derives r c d ⊎ Derives s c d
Derives (star r) c d = Rounds (Derives r) c d
Derives (lazy_star r) c d = Rounds (Derives r) c d
Derives (group n r) c d =
    (e : Cursor) × Derives r c e × (d ≡ record e { groups = (n, taken c.rest e.rest) ∷ e.groups })
Derives begin_text c d = (c.before ≡ none) × (d ≡ c)
Derives end_text c d = (c.rest ≡ []) × (d ≡ c)
Derives word_boundary c d = (differ (word_before c.before) (word_after c.rest) ≡ true) × (d ≡ c)

-- A matcher finds only what a relation allows, and hands it on.
abbrev Finds : (Cursor → Cursor → Type 0) → (Cursor → Next → Option Cursor) → Type 0
Finds R round =
    (c : Cursor) (k : Next) (x : Cursor)
    → round c k ≡ some x
    → (d : Cursor) × R c d × (k d ≡ some x)

moved-some : (c d : Cursor) (k : Next) {x : Cursor} → moved c k d ≡ some x → k d ≡ some x
moved-some c d k h = ground arith

module _ (R : Cursor → Cursor → Type 0) (round : Cursor → Next → Option Cursor)
    (sound : Finds R round) where
  run_star_sound : (f : ℕ) → Finds (Rounds R) (run_star f round)
  unfolding run_star
  run_star_sound zero c k x h = (c, stop c, h)
  run_star_sound (suc f) c k x h = elim (Option-cases (round c next)) [
    | inl e ↦ (c, stop c, rw (e, run_star) at h)
    | inr (y, e) ↦
        let (d, first, found) = sound c next y e in
        let (z, others, end) =
          run_star_sound f d k y (moved-some c d (λ d. run_star f round d k) found) in
        (z, more first others, end ∙ (rw (e, run_star) at h))
  ]
    where
      next : Next
      next = moved c (λ d. run_star f round d k)

  run_lazy_sound : (f : ℕ) → Finds (Rounds R) (run_lazy f round)
  unfolding run_lazy
  run_lazy_sound zero c k x h = (c, stop c, h)
  run_lazy_sound (suc f) c k x h = elim (Option-cases (k c)) [
    | inr (y, e) ↦ (c, stop c, e ∙ (rw (e, run_lazy) at h))
    | inl e ↦
        let (d, first, found) = sound c next x (rw (e, run_lazy) at h) in
        let (z, others, end) =
          run_lazy_sound f d k x (moved-some c d (λ d. run_lazy f round d k) found) in
        (z, more first others, end)
  ]
    where
      next : Next
      next = moved c (λ d. run_lazy f round d k)

run_one_sound :
    (p : ℕ → Bool) (c : Cursor) (s : Text) (k : Next) {x : Cursor}
    → c.rest ≡ s
    → run_one p c s k ≡ some x
    → (d : Cursor) × Derives (one p) c d × (k d ≡ some x)
unfolding run_one
run_one_sound p c [] k e h = cc
run_one_sound p c (y ∷ ys) k e h = elim (Bool-cases (p y)) [
  | inl t ↦ (record c { before = some y; rest = ys }, (y, ys, e, t, refl), rw (t, run_one) at h)
  | inr t ↦ absurd (ground (arith, rw (t, run_one) at h))
]

-- Every match that the matcher finds is one.
pub run_sound : (r : Regexp) → Finds (Derives r) (run r)
unfolding run
run_sound empty c k x h = (c, refl, h)
run_sound (one p) c k x h = run_one_sound p c c.rest k refl h
run_sound (cat r s) c k x h =
    let (d, first, found) = run_sound r c (λ d. run s d k) x h in
    let (e, second, end) = run_sound s d k x found in (e, (d, first, second), end)
run_sound (alt r s) c k x h = elim (Option-cases (run r c k)) [
  | inr (y, e) ↦
      let (d, left, found) = run_sound r c k y e in (d, inl left, found ∙ (rw (e, run) at h))
  | inl e ↦ let (d, right, found) = run_sound s c k x (rw (e, run) at h) in (d, inr right, found)
]
run_sound (star r) c k x h =
    run_star_sound (Derives r) (run r) (run_sound r) (suc (length c.rest)) c k x h
run_sound (lazy_star r) c k x h =
    run_lazy_sound (Derives r) (run r) (run_sound r) (suc (length c.rest)) c k x h
run_sound (group n r) c k x h =
    let (d, inside, found) =
      run_sound r c (λ d. k (record d { groups = (n, taken c.rest d.rest) ∷ d.groups })) x h in
    (record d { groups = (n, taken c.rest d.rest) ∷ d.groups }, (d, inside, refl), found)
run_sound begin_text c k x h = elim (Option-cases c.before) [
  | inl e ↦ (c, (e, refl), rw (e, run) at h)
  | inr (y, e) ↦ absurd (ground (arith, rw (e, run) at h))
]
run_sound end_text c k x h = elim (List-cases c.rest) [
  | inl e ↦ (c, (e, refl), rw (e, run) at h)
  | inr (y, ys, e) ↦ absurd (ground (arith, rw (e, run) at h))
]
run_sound word_boundary c k x h =
    elim (Bool-cases (differ (word_before c.before) (word_after c.rest))) [
      | inl e ↦ (c, (e, refl), rw (e, run) at h)
      | inr e ↦ absurd (ground (arith, rw (e, run) at h))
    ]
