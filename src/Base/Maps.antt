-- ===== src/Base/Maps.antt =====
-- A Go map with string keys, as an association list with distinct keys, and the order in which
-- `range` visits it.
use mathlib.Core.Path.{◌≡◌, refl, sym, subst, ◌∙◌}
use mathlib.Core.Logic.{inl, inr}
use mathlib.Core.Option.{Option, none, some}
use mathlib.Core.List.{List, [], ◌∷◌, map, Permᴰ}
use mathlib.Core.List.Permᴰ
use native.Mathlib.Omega.{arith}
use spyre_health_checker.Base.Tests.{if◌then◌else◌, Bool-cases}
use spyre_health_checker.Base.Lists.{All}
use spyre_health_checker.Base.Strings.{Text, text_eq, text_eq_iff, text_eq_refl}

abbrev pub Dict : Type 0 → Type 0
Dict V = List (Text × V)

module _ {V : Type 0} where
  -- `v, ok := m[k]`
  unfoldable pub lookup : Text → Dict V → Option V
  lookup k [] = none
  lookup k ((j, v) ∷ d) = if text_eq j k then some v else lookup k d

  -- `m[k] = v`
  unfoldable pub insert : Text → V → Dict V → Dict V
  insert k v [] = (k, v) ∷ []
  insert k v ((j, w) ∷ d) = if text_eq j k then (j, v) ∷ d else (j, w) ∷ insert k v d

  abbrev pub NodupKeys : Dict V → Type 0
  NodupKeys [] = Unit
  NodupKeys ((k, v) ∷ d) = (lookup k d ≡ none) × NodupKeys d

  pub lookup-nil : (k : Text) → lookup k [] ≡ none
  unfolding lookup
  lookup-nil k = refl

  pub lookup-insert :
      (j k : Text) (v : V) (d : Dict V)
      → lookup j (insert k v d) ≡ (if text_eq k j then some v else lookup j d)
  unfolding lookup insert
  lookup-insert j k v [] = refl
  lookup-insert j k v ((i, w) ∷ d) =
      ground (arith, text_eq_iff k j, text_eq_iff i k, text_eq_iff i j, lookup-insert j k v d)

  pub insert-NodupKeys : (k : Text) (v : V) (d : Dict V) → NodupKeys d → NodupKeys (insert k v d)
  unfolding insert
  insert-NodupKeys k v [] u = (lookup-nil k, tt)
  insert-NodupKeys k v ((j, w) ∷ d) (fresh, u) =
      ground
        (arith, insert-NodupKeys k v d u, lookup-insert j k v d, text_eq_iff j k, text_eq_iff k j)

  pub lookup-NodupKeys :
      (k : Text) (v : V) (d : Dict V) → NodupKeys ((k, v) ∷ d) → lookup k ((k, v) ∷ d) ≡ some v
  unfolding lookup
  lookup-NodupKeys k v d u = rw (text_eq_refl k)

  -- What a permutation of the entries leaves unchanged.
  abbrev Same : Dict V → Dict V → Type 0
  Same d e = NodupKeys d → NodupKeys e × ((k : Text) → lookup k e ≡ lookup k d)

  Same-cons : (a : Text × V) (d e : Dict V) → Same d e → Same (a ∷ d) (a ∷ e)
  unfolding lookup
  Same-cons (k, v) d e s (fresh, u) =
      let (u', same) = s u in ((same k ∙ fresh, u'), λ j. rw (same j))

  Same-swap : (a b : Text × V) (d : Dict V) → Same (a ∷ b ∷ d) (b ∷ a ∷ d)
  unfolding lookup
  Same-swap (j, v) (k, w) d u = (
    ground (arith, text_eq_iff j k, text_eq_iff k j),
    λ i. ground (arith, text_eq_iff j i, text_eq_iff k i, text_eq_iff k j),
  )

  Perm-Same : {d e : Dict V} → Permᴰ d e → Same d e
  Perm-Same Permᴰ.nil u = (u, λ k. refl)
  Perm-Same (Permᴰ.cons {a} {b} {l₁} {l₂} p r) u =
      subst (λ x. Same (a ∷ l₁) (x ∷ l₂)) p (Same-cons a l₁ l₂ (Perm-Same r)) u
  Perm-Same (Permᴰ.swap {a} {b} {a'} {b'} {l} p q) u =
      subst (λ x. Same (a ∷ b ∷ l) (a' ∷ x ∷ l)) p
        (subst (λ x. Same (a ∷ b ∷ l) (x ∷ a ∷ l)) q (Same-swap a b l)) u
  Perm-Same (Permᴰ.trans r s) u =
      let (u', same) = Perm-Same r u in
      let (u'', same') = Perm-Same s u' in (u'', λ k. same' k ∙ same k)

  All-perm {κ} : (P : Text × V → Type κ) {d e : Dict V} → Permᴰ d e → All P d → All P e
  All-perm P Permᴰ.nil h = h
  All-perm P (Permᴰ.cons p r) h = (subst P p h.0, All-perm P r h.1)
  All-perm P (Permᴰ.swap p q) h = (subst P q h.1.0, (subst P p h.0, h.1.1))
  All-perm P (Permᴰ.trans r s) h = All-perm P s (All-perm P r h)

  pub insert-All {κ} :
      (P : Text × V → Type κ) (k : Text) (v : V) (d : Dict V)
      → P (k, v)
      → All P d
      → All P (insert k v d)
  unfolding insert
  insert-All P k v [] p h = (p, tt)
  insert-All P k v ((j, w) ∷ d) p h = elim (Bool-cases (text_eq j k)) [
    | inl e ↦ rw e (subst (λ i. P (i, v)) (sym ((text_eq_iff j k).0 e)) p, h.1)
    | inr e ↦ rw e (h.0, insert-All P k v d p h.1)
  ]

-- Go visits the entries of a map in an order that the language does not fix.
pub record MapRange (V : Type 0) : Type 0 where
  pub order : Dict V → Dict V
  pub order-perm : (d : Dict V) → Permᴰ d (order d)

module _ {V : Type 0} (range : MapRange V) where
  pub order-NodupKeys : (d : Dict V) → NodupKeys d → NodupKeys (range.order d)
  order-NodupKeys d u = (Perm-Same (range.order-perm d) u).0

  pub lookup-order : (k : Text) (d : Dict V) → NodupKeys d → lookup k (range.order d) ≡ lookup k d
  lookup-order k d u = (Perm-Same (range.order-perm d) u).1 k

  pub order-All {κ} : (P : Text × V → Type κ) (d : Dict V) → All P d → All P (range.order d)
  order-All P d h = All-perm P (range.order-perm d) h

-- The order of insertion, for runs on concrete data.
abbrev pub in_order : {V : Type 0} → MapRange V
in_order = record { order = λ d. d; order-perm = λ d. Permᴰ.refl d }

abbrev pub values : {V : Type 0} → Dict V → List V
values = map (λ e. e.1)

abbrev pub keys : {V : Type 0} → Dict V → List Text
keys = map (λ e. e.0)
