-- ===== src/Regexp/Pieces.antt =====
-- The texts of the small expressions that others are made of.
use spyre_health_checker.Base.{
  ℕ, ◌≡◌, ◌≢◌, refl, ap, ◌⊎◌, inl, inr, Bool, true, List, [], ◌∷◌, ◌++◌, Text, All, arith,
}
use spyre_health_checker.Regexp.{one, plus, seq, opt, exact}
use spyre_health_checker.Regexp.Shape.{fits}
use spyre_health_checker.Regexp.Language.{Language, Parts, no_part, part}

pub fits-Language : (ps : List (ℕ → Bool)) (s : Text) → fits ps s ≡ true → Language (seq ps) s
fits-Language [] [] f = refl
fits-Language [] (x ∷ s) f = cc
fits-Language (p ∷ ps) [] f = cc
fits-Language (p ∷ ps) (x ∷ s) f =
    (x ∷ [], s, refl, (x, refl, ground arith), fits-Language ps s (ground arith))

pub Language-fits : (ps : List (ℕ → Bool)) (s : Text) → Language (seq ps) s → fits ps s ≡ true
Language-fits [] s e = rw e refl
Language-fits (p ∷ ps) s (t, u, e, (x, q, h), k) = rw (e, q, h) (Language-fits ps u k)

pub fits-split :
    (ps qs : List (ℕ → Bool)) (s : Text)
    → fits (ps ++ qs) s ≡ true
    → (t : Text) × (u : Text) × (s ≡ t ++ u) × (fits ps t ≡ true) × (fits qs u ≡ true)
fits-split [] qs s f = ([], s, refl, refl, f)
fits-split (p ∷ ps) qs [] f = cc
fits-split (p ∷ ps) qs (x ∷ s) f =
    let (t, u, e, g, h) = fits-split ps qs s (ground arith) in
    (x ∷ t, u, ap (◌∷◌ x) e, ground arith, h)

pub All-Parts : (p : ℕ → Bool) (s : Text) → All (λ c. p c ≡ true) s → Parts (Language (one p)) s
All-Parts p [] h = no_part
All-Parts p (x ∷ s) (d, h) = part {s = x ∷ []} (x, refl, d) (All-Parts p s h)

pub Parts-All : (p : ℕ → Bool) {s : Text} → Parts (Language (one p)) s → All (λ c. p c ≡ true) s
Parts-All p no_part = tt
Parts-All p (part {s} {t} (x, e, h) ls) = rw e (h, Parts-All p ls)

pub plus-Language :
    (p : ℕ → Bool) (s : Text) → All (λ c. p c ≡ true) s → s ≢ [] → Language (plus (one p)) s
plus-Language p [] h n = absurd (n refl)
plus-Language p (x ∷ s) (d, h) n = (x ∷ [], s, refl, (x, refl, d), All-Parts p s h)

pub Language-plus :
    (p : ℕ → Bool) (s : Text) → Language (plus (one p)) s → All (λ c. p c ≡ true) s × (s ≢ [])
Language-plus p s (t, u, e, (x, q, h), ls) = rw (e, q) ((h, Parts-All p ls), λ n. cc)

pub opt-Language : (c : ℕ) (s : Text) → (s ≡ c ∷ []) ⊎ (s ≡ []) → Language (opt (one (exact c))) s
opt-Language c s (inl e) = inl (c, e, ground arith)
opt-Language c s (inr e) = inr e

pub Language-opt : (c : ℕ) (s : Text) → Language (opt (one (exact c))) s → (s ≡ c ∷ []) ⊎ (s ≡ [])
Language-opt c s (inl (x, e, h)) = inl (ground arith)
Language-opt c s (inr e) = inr e
