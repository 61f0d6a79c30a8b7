-- ===== src/Reporter/Lspci/Backwards.antt =====
-- internal/reporter/lspci.go: the end of a header line, and its reading from the right.
use mathlib.Core.List.{reverse, reverse-append, reverse-cons, reverse-reverse, append_assoc}
use spyre_health_checker.Base.{
  ℕ, ◌≡◌, refl, sym, ap, ◌∙◌, ◌⊎◌, inl, inr, Bool, true, List, [], ◌∷◌, ◌++◌, Text, codes,
  All-append, map, arith,
}
use spyre_health_checker.Regexp.{blank, hex_i, same_fold}
use spyre_health_checker.Regexp.Shape.{fits, fits-append}
use spyre_health_checker.Reporter.Lspci.Header.{colon}
use spyre_health_checker.Reporter.Lspci.Ending.{
  IsBlank, line_back, read_rev, read_vendev, read_rev-line, read_vendev-line,
}

fits-reverse :
    (ps : List (ℕ → Bool)) (s : Text) → fits ps s ≡ true → fits (reverse ps) (reverse s) ≡ true
fits-reverse [] [] h = refl
fits-reverse [] (x ∷ s) h = cc
fits-reverse (p ∷ ps) [] h = cc
fits-reverse (p ∷ ps) (x ∷ s) h =
    rw (reverse-cons p ps, reverse-cons x s)
      (fits-append (reverse ps) (p ∷ []) (reverse s) (x ∷ []) (fits-reverse ps s (ground arith))
        (ground arith))

reverse-IsBlank : (s : Text) → IsBlank s → IsBlank (reverse s)
reverse-IsBlank [] h = tt
reverse-IsBlank (x ∷ s) (h, hs) =
    rw (reverse-cons x s)
      (All-append (λ c. blank c ≡ true) (reverse s) (x ∷ []) (reverse-IsBlank s hs) (h, tt))

reverse-back : (s t u : Text) → reverse (s ++ t) ++ u ≡ reverse t ++ (reverse s ++ u)
reverse-back s t u = ap (λ x. x ++ u) (reverse-append s t) ∙ append_assoc (reverse t) (reverse s) u

-- A line in its parts, backwards.
pub reverse-line :
    (pre v o b₂ k b₃ r b₄ : Text)
    → reverse (pre ++ (v ++ (o ++ (b₂ ++ (k ++ (b₃ ++ (r ++ b')' ∷ b₄)))))))
      ≡ line_back
          (reverse b₄)
          (reverse r)
          (reverse b₃)
          (reverse k)
          (reverse b₂)
          (reverse o)
          (reverse v)
          (reverse pre)
reverse-line pre v o b₂ k b₃ r b₄ =
    let p = reverse pre in
    reverse-append pre (v ++ (o ++ (b₂ ++ (k ++ (b₃ ++ (r ++ b')' ∷ b₄))))))
    ∙ reverse-back v (o ++ (b₂ ++ (k ++ (b₃ ++ (r ++ b')' ∷ b₄))))) p
    ∙ reverse-back o (b₂ ++ (k ++ (b₃ ++ (r ++ b')' ∷ b₄)))) (reverse v ++ p)
    ∙ reverse-back b₂ (k ++ (b₃ ++ (r ++ b')' ∷ b₄))) (reverse o ++ (reverse v ++ p))
    ∙ reverse-back k (b₃ ++ (r ++ b')' ∷ b₄)) (reverse b₂ ++ (reverse o ++ (reverse v ++ p)))
    ∙ reverse-back b₃ (r ++ b')' ∷ b₄)
        (reverse k ++ (reverse b₂ ++ (reverse o ++ (reverse v ++ p))))
    ∙ reverse-back r (b')' ∷ b₄)
        (reverse b₃ ++ (reverse k ++ (reverse b₂ ++ (reverse o ++ (reverse v ++ p)))))
    ∙ reverse-back (b')' ∷ []) b₄ (
        reverse r ++ (reverse b₃ ++ (reverse k ++ (reverse b₂ ++ (reverse o ++ (reverse v ++ p))))))

abbrev pub rev_classes : List (ℕ → Bool)
rev_classes = hex_i ∷ hex_i ∷ []

abbrev pub vendev_classes : List (ℕ → Bool)
vendev_classes = hex_i ∷ hex_i ∷ hex_i ∷ hex_i ∷ colon ∷ hex_i ∷ hex_i ∷ hex_i ∷ hex_i ∷ []

abbrev pub word_classes : List (ℕ → Bool)
word_classes = map same_fold (codes "(rev")

-- The parts of the line behind the identifiers `v`, with the revision `r`.
abbrev pub HasEnd : Text → Text → Text → Type 0
HasEnd line v r =
    (pre : Text) × (o : Text) × (b₂ : Text) × (k : Text) × (b₃ : Text) × (b₄ : Text) × (line
      ≡ pre ++ (v ++ (o ++ (b₂ ++ (k ++ (b₃ ++ (r ++ b')' ∷ b₄)))))))
    × (fits vendev_classes v ≡ true)
    × ((o ≡ []) ⊎ (o ≡ b']' ∷ []))
    × IsBlank b₂
    × (fits word_classes k ≡ true)
    × IsBlank b₃
    × (fits rev_classes r ≡ true)
    × IsBlank b₄

reverse-bracket :
    (o : Text) → (o ≡ []) ⊎ (o ≡ b']' ∷ []) → (reverse o ≡ []) ⊎ (reverse o ≡ b']' ∷ [])
reverse-bracket o (inl e) = inl (ap reverse e)
reverse-bracket o (inr e) = inr (ap reverse e)

-- The parts are what is read from the right.
pub HasEnd-read :
    (line v r : Text)
    → HasEnd line v r
    → (v ≡ read_vendev (reverse line)) × (r ≡ read_rev (reverse line))
HasEnd-read line v r (pre, o, b₂, k, b₃, b₄, e, fv, fo, h₂, fk, h₃, fr, h₄) =
    let back = ap reverse e ∙ reverse-line pre v o b₂ k b₃ r b₄ in
    (
      sym (
          ap read_vendev back
          ∙ read_vendev-line (reverse b₄) (reverse r) (reverse b₃) (reverse k) (reverse b₂)
              (reverse o) (reverse v) (reverse pre) (reverse-IsBlank b₄ h₄)
              (fits-reverse rev_classes r fr) (reverse-IsBlank b₃ h₃)
              (fits-reverse word_classes k fk) (reverse-IsBlank b₂ h₂) (reverse-bracket o fo)
              (fits-reverse vendev_classes v fv)
          ∙ reverse-reverse v),
      sym (
          ap read_rev back
          ∙ read_rev-line (reverse b₄) (reverse r) (reverse b₃) (reverse k) (reverse b₂) (reverse o)
              (reverse v) (reverse pre) (reverse-IsBlank b₄ h₄) (fits-reverse rev_classes r fr)
              (reverse-IsBlank b₃ h₃) (fits-reverse word_classes k fk) (reverse-IsBlank b₂ h₂)
              (reverse-bracket o fo) (fits-reverse vendev_classes v fv)
          ∙ reverse-reverse r),
    )
