-- ===== src/Reporter/Lspci/Ending.antt =====
-- internal/reporter/lspci.go: the fields at the end of a header line, read from the right.
use mathlib.Core.List.{reverse}
use spyre_health_checker.Base.{
  ℕ, zero, suc, ◌≡◌, refl, ap, ◌∙◌, ◌⊎◌, inl, inr, Bool, true, false, List, [], ◌∷◌, ◌++◌, Text,
  if◌then◌else◌, ◌==◌, All, length, arith,
}
use spyre_health_checker.Regexp.{blank, hex_i, same_fold, take}
use spyre_health_checker.Regexp.Shape.{fits}
use spyre_health_checker.Reporter.Lspci.Header.{colon}

abbrev pub drop : ℕ → Text → Text
drop zero s = s
drop (suc n) [] = []
drop (suc n) (x ∷ s) = drop n s

abbrev pub drop_blanks : Text → Text
drop_blanks [] = []
drop_blanks (x ∷ s) = if blank x then drop_blanks s else x ∷ s

abbrev pub drop_bracket : Text → Text
drop_bracket [] = []
drop_bracket (x ∷ s) = if x == b']' then s else x ∷ s

-- What stands before the closing parenthesis, and what stands before `(rev`, both backwards.
abbrev pub behind_rev : Text → Text
behind_rev s = drop 1 (drop_blanks s)

abbrev pub behind_vendev : Text → Text
behind_vendev s = drop_bracket (drop_blanks (drop 4 (drop_blanks (drop 2 (behind_rev s)))))

-- The revision and the identifiers of a line that is given backwards.
abbrev pub read_rev : Text → Text
read_rev s = reverse (take 2 (behind_rev s))

abbrev pub read_vendev : Text → Text
read_vendev s = reverse (take 9 (behind_vendev s))

abbrev pub IsBlank : Text → Type 0
IsBlank s = All (λ c. blank c ≡ true) s

drop_blanks-append :
    (b s : Text) (c : ℕ) → IsBlank b → blank c ≡ false → drop_blanks (b ++ c ∷ s) ≡ c ∷ s
drop_blanks-append [] s c h n = rw n refl
drop_blanks-append (x ∷ b) s c (h, hs) n = rw h (drop_blanks-append b s c hs n)

pub take-fits :
    (ps : List (ℕ → Bool)) (s t : Text) → fits ps s ≡ true → take (length ps) (s ++ t) ≡ s
take-fits [] [] t h = go t
  where
    go : (t : Text) → take 0 t ≡ []
    go t = refl
take-fits [] (x ∷ s) t h = cc
take-fits (p ∷ ps) [] t h = cc
take-fits (p ∷ ps) (x ∷ s) t h = ap (◌∷◌ x) (take-fits ps s t (ground arith))

drop-fits : (ps : List (ℕ → Bool)) (s t : Text) → fits ps s ≡ true → drop (length ps) (s ++ t) ≡ t
drop-fits [] [] t h = refl
drop-fits [] (x ∷ s) t h = cc
drop-fits (p ∷ ps) [] t h = cc
drop-fits (p ∷ ps) (x ∷ s) t h = drop-fits ps s t (ground arith)

-- Blanks before a text that begins with another character.
drop_blanks-fits :
    (p : ℕ → Bool) (ps : List (ℕ → Bool)) (b w s : Text)
    → ((c : ℕ) → p c ≡ true → blank c ≡ false)
    → IsBlank b
    → fits (p ∷ ps) w ≡ true
    → drop_blanks (b ++ (w ++ s)) ≡ w ++ s
drop_blanks-fits p ps b [] s n h f = cc
drop_blanks-fits p ps b (x ∷ w) s n h f = drop_blanks-append b (w ++ s) x h (n x (ground arith))

hex_i-visible : (c : ℕ) → hex_i c ≡ true → blank c ≡ false
unfolding hex_i blank
hex_i-visible c h = ground arith

hex_i-bracket : (c : ℕ) → hex_i c ≡ true → (c == b']') ≡ false
unfolding hex_i
hex_i-bracket c h = ground arith

v-visible : (c : ℕ) → same_fold b'v' c ≡ true → blank c ≡ false
unfolding same_fold blank
v-visible c h = ground arith

abbrev pub rev_back : List (ℕ → Bool)
rev_back = hex_i ∷ hex_i ∷ []

abbrev pub word_back : List (ℕ → Bool)
word_back = same_fold b'v' ∷ same_fold b'e' ∷ same_fold b'r' ∷ same_fold b'(' ∷ []

abbrev pub vendev_back : List (ℕ → Bool)
vendev_back = hex_i ∷ hex_i ∷ hex_i ∷ hex_i ∷ colon ∷ hex_i ∷ hex_i ∷ hex_i ∷ hex_i ∷ []

drop_bracket-fits :
    (b o v s : Text)
    → IsBlank b
    → (o ≡ []) ⊎ (o ≡ b']' ∷ [])
    → fits vendev_back v ≡ true
    → drop_bracket (drop_blanks (b ++ (o ++ (v ++ s)))) ≡ v ++ s
unfolding hex_i
drop_bracket-fits b o [] s h c f = cc
drop_bracket-fits b o (x ∷ v) s h (inl e) f =
    rw (e, drop_blanks-append b (v ++ s) x h (hex_i-visible x (ground arith)))
      (rw (hex_i-bracket x (ground arith)) refl)
drop_bracket-fits b o (x ∷ v) s h (inr e) f =
    rw (e, drop_blanks-append b (x ∷ (v ++ s)) b']' h (unfold blank in refl)) refl

-- A line, given backwards, that ends as `hdr` asks.
abbrev pub line_back : Text → Text → Text → Text → Text → Text → Text → Text → Text
line_back b₄ r b₃ k b₂ o v s = b₄ ++ b')' ∷ (r ++ (b₃ ++ (k ++ (b₂ ++ (o ++ (v ++ s))))))

module _ (b₄ r b₃ k b₂ o v s : Text) (blank₄ : IsBlank b₄) (is_rev : fits rev_back r ≡ true)
    (blank₃ : IsBlank b₃) (is_word : fits word_back k ≡ true) (blank₂ : IsBlank b₂)
    (is_bracket : (o ≡ []) ⊎ (o ≡ b']' ∷ [])) (is_vendev : fits vendev_back v ≡ true) where
  behind_rev-line :
      behind_rev (line_back b₄ r b₃ k b₂ o v s) ≡ r ++ (b₃ ++ (k ++ (b₂ ++ (o ++ (v ++ s)))))
  behind_rev-line = ap (drop 1) (
      drop_blanks-append b₄ (r ++ (b₃ ++ (k ++ (b₂ ++ (o ++ (v ++ s)))))) b')' blank₄
        (unfold blank in refl))

  pub read_rev-line : read_rev (line_back b₄ r b₃ k b₂ o v s) ≡ reverse r
  read_rev-line = ap reverse (
      ap (take 2) behind_rev-line
      ∙ take-fits rev_back r (b₃ ++ (k ++ (b₂ ++ (o ++ (v ++ s))))) is_rev)

  pub read_vendev-line : read_vendev (line_back b₄ r b₃ k b₂ o v s) ≡ reverse v
  read_vendev-line =
      ap (λ x. reverse (take 9 (drop_bracket (drop_blanks (drop 4 (drop_blanks x))))))
        (ap (drop 2) behind_rev-line
          ∙ drop-fits rev_back r (b₃ ++ (k ++ (b₂ ++ (o ++ (v ++ s))))) is_rev)
      ∙ ap (λ x. reverse (take 9 (drop_bracket (drop_blanks (drop 4 x)))))
          (drop_blanks-fits (same_fold b'v') (same_fold b'e' ∷ same_fold b'r' ∷ same_fold b'(' ∷ [])
            b₃ k (b₂ ++ (o ++ (v ++ s))) v-visible blank₃ is_word)
      ∙ ap (λ x. reverse (take 9 (drop_bracket (drop_blanks x))))
          (drop-fits word_back k (b₂ ++ (o ++ (v ++ s))) is_word)
      ∙ ap (λ x. reverse (take 9 x)) (drop_bracket-fits b₂ o v s blank₂ is_bracket is_vendev)
      ∙ ap reverse (take-fits vendev_back v s is_vendev)
