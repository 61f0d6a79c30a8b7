-- ===== src/Regexp/Alphabet.antt =====
-- The characters that the texts of an expression are made of.
use spyre_health_checker.Base.{ℕ, ◌≡◌, sym, subst, inl, inr, Bool, true, [], Text, All, All-append}
use spyre_health_checker.Regexp.{
  Regexp, empty, one, cat, alt, star, lazy_star, group, begin_text, end_text, word_boundary,
}
use spyre_health_checker.Regexp.Language.{Language, Parts, no_part, part}

-- Each class of the expression is within the test `q`.
abbrev pub Within : (ℕ → Bool) → Regexp → Type 0
Within q empty = Unit
Within q (one p) = (c : ℕ) → p c ≡ true → q c ≡ true
Within q (cat r s) = Within q r × Within q s
Within q (alt r s) = Within q r × Within q s
Within q (star r) = Within q r
Within q (lazy_star r) = Within q r
Within q (group n r) = Within q r
Within q begin_text = Unit
Within q end_text = Unit
Within q word_boundary = Unit

module _ (q : ℕ → Bool) where
  abbrev Passes : Text → Type 0
  Passes s = All (λ c. q c ≡ true) s

  no-text : (s : Text) → s ≡ [] → Passes s
  no-text s e = subst Passes (sym e) tt

  Parts-All : {L : Text → Type 0} {s : Text} → ((t : Text) → L t → Passes t) → Parts L s → Passes s
  Parts-All h no_part = tt
  Parts-All h (part {s} {t} l ls) = All-append (λ c. q c ≡ true) s t (h s l) (Parts-All h ls)

  pub Language-All : (r : Regexp) (s : Text) → Within q r → Language r s → All (λ c. q c ≡ true) s
  Language-All empty s w l = no-text s l
  Language-All (one p) s w (x, e, h) = subst Passes (sym e) (w x h, tt)
  Language-All (cat r t) s w (u, v, e, l, k) =
      subst Passes (sym e)
        (All-append (λ c. q c ≡ true) u v (Language-All r u w.0 l) (Language-All t v w.1 k))
  Language-All (alt r t) s w (inl l) = Language-All r s w.0 l
  Language-All (alt r t) s w (inr l) = Language-All t s w.1 l
  Language-All (star r) s w l = Parts-All (λ t. Language-All r t w) l
  Language-All (lazy_star r) s w l = Parts-All (λ t. Language-All r t w) l
  Language-All (group n r) s w l = Language-All r s w l
  Language-All begin_text s w l = no-text s l
  Language-All end_text s w l = no-text s l
  Language-All word_boundary s w l = no-text s l
