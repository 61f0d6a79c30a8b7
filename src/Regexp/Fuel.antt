-- ===== src/Regexp/Fuel.antt =====
-- The fuel of a repetition: more than one unit for each character that is left changes nothing.
use mathlib.Core.Path.{fun_ext}
use spyre_health_checker.Base.{
  ℕ, zero, suc, ◌<◌, ◌≡◌, refl, ap, inl, inr, Bool-cases, Option, none, some, length, arith, ltb,
}
use spyre_health_checker.Regexp.{Cursor, Next, moved, run_star, run_lazy}

-- Two continuations that agree where less is left agree behind a round.
moved_agree :
    (c : Cursor) (k l : Next)
    → ((d : Cursor) → length d.rest < length c.rest → k d ≡ l d)
    → (d : Cursor) → moved c k d ≡ moved c l d
moved_agree c k l h d = elim (Bool-cases (ltb (length d.rest) (length c.rest))) [
  | inl e ↦ rw (e, moved) (h d (ground arith))
  | inr e ↦ rw (e, moved) refl
]

module _ (round : Cursor → Next → Option Cursor) where
  pub run_star_fuel :
      (f g : ℕ) (c : Cursor) (k : Next)
      → length c.rest < f
      → length c.rest < g
      → run_star f round c k ≡ run_star g round c k
  unfolding run_star
  run_star_fuel zero g c k p q = absurd (omega arith)
  run_star_fuel (suc f) zero c k p q = absurd (omega arith)
  run_star_fuel (suc f) (suc g) c k p q =
      let same : moved c (λ d. run_star f round d k) ≡ moved c (λ d. run_star g round d k) =
        fun_ext (
          moved_agree c (λ d. run_star f round d k) (λ d. run_star g round d k)
            (λ d less. run_star_fuel f g d k (omega arith) (omega arith))) in
      ap (λ n. elim (round c n) as (λ _. Option Cursor) [ some r ↦ some r | none ↦ k c ]) same

  pub run_lazy_fuel :
      (f g : ℕ) (c : Cursor) (k : Next)
      → length c.rest < f
      → length c.rest < g
      → run_lazy f round c k ≡ run_lazy g round c k
  unfolding run_lazy
  run_lazy_fuel zero g c k p q = absurd (omega arith)
  run_lazy_fuel (suc f) zero c k p q = absurd (omega arith)
  run_lazy_fuel (suc f) (suc g) c k p q =
      let same : moved c (λ d. run_lazy f round d k) ≡ moved c (λ d. run_lazy g round d k) =
        fun_ext (
          moved_agree c (λ d. run_lazy f round d k) (λ d. run_lazy g round d k)
            (λ d less. run_lazy_fuel f g d k (omega arith) (omega arith))) in
      ap (λ n. elim (k c) as (λ _. Option Cursor) [ some r ↦ some r | none ↦ round c n ]) same
