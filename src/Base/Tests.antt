-- ===== src/Base/Tests.antt =====
-- Boolean tests on the native numbers, the conditional, and case splits that keep the equation.
use Prim.Native.Nat.{ℕ, ◌≤◌, ◌<◌, compare, Ordering}
use mathlib.Core.Path.{◌≡◌, refl}
use mathlib.Core.Logic.{◌↔◌, ◌⊎◌, inl, inr}
use mathlib.Core.Bool.{Bool, true, false}
use mathlib.Core.Option.{Option, none, some}
use native.Mathlib.Omega.{arith}

abbrev pub ltb : ℕ → ℕ → Bool
ltb a b = elim (compare a b) [ Ordering.lt ↦ true | _ ↦ false ]

abbrev pub leb : ℕ → ℕ → Bool
leb a b = elim (compare a b) [ Ordering.gt ↦ false | _ ↦ true ]

infix 50 ◌==◌
abbrev pub ◌==◌ : ℕ → ℕ → Bool
a == b = elim (compare a b) [ Ordering.eq ↦ true | _ ↦ false ]

infix 1 if◌then◌else◌
abbrev pub if◌then◌else◌ {ℓ} : {A : Type ℓ} → Bool → A → A → A
if true then x else y = x
if false then x else y = y

pub ltb→lt : (a b : ℕ) → ltb a b ≡ true → a < b
ltb→lt a b h = ground arith

pub lt→ltb : (a b : ℕ) → a < b → ltb a b ≡ true
lt→ltb a b h = ground arith

pub le→not-ltb : (a b : ℕ) → b ≤ a → ltb a b ≡ false
le→not-ltb a b h = ground arith

pub leb→le : (a b : ℕ) → leb a b ≡ true → a ≤ b
leb→le a b h = ground arith

pub ==_iff : (a b : ℕ) → ((a == b) ≡ true) ↔ (a ≡ b)
==_iff a b = ground arith

pub Bool-cases : (b : Bool) → (b ≡ true) ⊎ (b ≡ false)
Bool-cases true = inl refl
Bool-cases false = inr refl

pub Option-cases {ℓ} : {A : Type ℓ} (o : Option A) → (o ≡ none) ⊎ ((a : A) × (o ≡ some a))
Option-cases none = inl refl
Option-cases (some a) = inr (a, refl)

-- The first value that is there.
infixr 20 ◌<|>◌
abbrev pub ◌<|>◌ {ℓ} : {A : Type ℓ} → Option A → Option A → Option A
none <|> o = o
some a <|> o = some a

-- Two steps in a row: what holds at the end holds at the start or was added by one of them.
pub iff_step : {P Q R S T : Type 0} → (P ↔ (Q ⊎ R)) → (Q ↔ (S ⊎ T)) → (P ↔ (S ⊎ (T ⊎ R)))
iff_step (f, g) (h, k) = (
  λ p. elim (f p) [
    | inl q ↦ elim (h q) [ inl s ↦ inl s | inr t ↦ inr (inl t) ]
    | inr r ↦ inr (inr r)
  ],
  λ x. elim x [
    | inl s ↦ g (inl (k (inl s)))
    | inr (inl t) ↦ g (inl (k (inr t)))
    | inr (inr r) ↦ g (inr r)
  ],
)

pub iff_none : {P R : Type 0} → (R → ⊥) → (P ↔ (P ⊎ R))
iff_none n = (λ p. inl p, λ x. elim x [ inl p ↦ p | inr r ↦ absurd (n r) ])

pub iff_right : {P Q R S : Type 0} → (P ↔ (Q ⊎ R)) → (R ↔ S) → (P ↔ (Q ⊎ S))
iff_right (f, g) (h, k) = (
  λ p. elim (f p) [ inl q ↦ inl q | inr r ↦ inr (h r) ],
  λ x. elim x [ inl q ↦ g (inl q) | inr s ↦ g (inr (k s)) ],
)

pub iff_sym : {P Q : Type 0} → (P ↔ Q) → (Q ↔ P)
iff_sym (f, g) = (g, f)
