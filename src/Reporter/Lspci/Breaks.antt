-- ===== src/Reporter/Lspci/Breaks.antt =====
-- internal/reporter/lspci.go: the breaks between the stanzas of lspci.
use mathlib.Core.List.{append_assoc}
use spyre_health_checker.Base.{
  ℕ, ◌≡◌, sym, ap, subst, ◌∙◌, inl, inr, Bool, true, false, not, ◌||◌, [], ◌∷◌, ◌++◌, Option, none,
  some, Option-cases, Text, if◌then◌else◌, ◌==◌, All, arith,
}
use spyre_health_checker.Regexp.{Regexp, one, cat, star, opt, exact, Cursor, match_here}
use spyre_health_checker.Regexp.Sound.{Derives, run_sound}
use spyre_health_checker.Regexp.Language.{Language, Parts, no_part, part, Derives-Language}
use spyre_health_checker.Regexp.Alphabet.{Within, Language-All}
use spyre_health_checker.Reporter.Lspci.Header.{blank_lines}

-- `[ \t]`
abbrev pub is_tab : ℕ → Bool
is_tab c = c == 32 || c == 9

-- An end of a line follows, perhaps behind spaces and tabs.
abbrev pub line_is_blank : Text → Bool
line_is_blank [] = false
line_is_blank (c ∷ s) = if is_tab c then line_is_blank s else c == 10 || c == 13

-- The end of a line with a blank line behind it. A carriage return is taken for one.
abbrev pub opens : Text → Bool
opens [] = false
opens (c ∷ s) = if c == 10 then line_is_blank s else c == 13

-- A break of `blank_lines`: one end of a line with the blanks behind it.
abbrev line_end : Regexp
line_end = cat (opt (one (exact 13))) (cat (one (exact 10)) (star (one is_tab)))

abbrev last_end : Regexp
last_end = cat (opt (one (exact 13))) (one (exact 10))

abbrev begins_end : Text → Bool
begins_end [] = false
begins_end (c ∷ s) = c == 10 || c == 13

opt-begins :
    (o u : Text)
    → Language (opt (one (exact 13))) o
    → begins_end u ≡ true
    → begins_end (o ++ u) ≡ true
opt-begins o u (inl (x, e, h)) b = rw e (ground arith)
opt-begins o u (inr e) b = rw e b

newline-begins : (n u : Text) → Language (one (exact 10)) n → begins_end (n ++ u) ≡ true
newline-begins n u (x, e, h) = rw e (ground arith)

tabs-blank :
    {b : Text} (u : Text)
    → Parts (Language (one is_tab)) b
    → begins_end u ≡ true
    → line_is_blank (b ++ u) ≡ true
tabs-blank [] no_part h = cc
tabs-blank (c ∷ u) no_part h = ground arith
tabs-blank u (part {s} {t} (x, e, f) ls) h =
    subst (λ y. line_is_blank ((y ++ t) ++ u) ≡ true) (sym e) (rw f (tabs-blank u ls h))

line_end-begins : (p u : Text) → Language line_end p → begins_end (p ++ u) ≡ true
line_end-begins p u (o, q, e, lo, (n, b, e', ln, lb)) =
    subst (λ y. begins_end (y ++ u) ≡ true) (sym e)
      (subst (λ y. begins_end y ≡ true) (sym (append_assoc o q u))
        (opt-begins o (q ++ u) lo (
          subst (λ y. begins_end (y ++ u) ≡ true) (sym e')
            (subst (λ y. begins_end y ≡ true) (sym (append_assoc n b u))
              (newline-begins n (b ++ u) ln)))))

last_end-begins : (p u : Text) → Language last_end p → begins_end (p ++ u) ≡ true
last_end-begins p u (o, n, e, lo, ln) =
    subst (λ y. begins_end (y ++ u) ≡ true) (sym e)
      (subst (λ y. begins_end y ≡ true) (sym (append_assoc o n u))
        (opt-begins o (n ++ u) lo (newline-begins n u ln)))

line_end-opens : (p u : Text) → Language line_end p → begins_end u ≡ true → opens (p ++ u) ≡ true
line_end-opens p u (o, q, e, lo, (n, b, e', (x, ex, hx), lb)) h =
    subst (λ y. opens (y ++ u) ≡ true) (sym e) (go lo)
  where
    newline : opens (q ++ u) ≡ true
    newline =
        subst (λ y. opens (y ++ u) ≡ true) (sym e')
          (subst (λ y. opens ((y ++ b) ++ u) ≡ true) (sym ex) (rw hx (tabs-blank u lb h)))

    go : Language (opt (one (exact 13))) o → opens ((o ++ q) ++ u) ≡ true
    go (inl (x, eo, ho)) = subst (λ y. opens ((y ++ q) ++ u) ≡ true) (sym eo) (ground arith)
    go (inr eo) = subst (λ y. opens ((y ++ q) ++ u) ≡ true) (sym eo) newline

ends-begins :
    {ps : Text} (t u : Text)
    → Parts (Language line_end) ps
    → Language last_end t
    → begins_end (ps ++ (t ++ u)) ≡ true
ends-begins t u no_part l = last_end-begins t u l
ends-begins t u (part {s} {t = r} p ps) l =
    subst (λ y. begins_end y ≡ true) (sym (append_assoc s r (t ++ u)))
      (line_end-begins s (r ++ (t ++ u)) p)

-- What `blank_lines` takes begins with the end of a line and a blank line.
pub blank_lines-opens : (t u : Text) → Language blank_lines t → opens (t ++ u) ≡ true
blank_lines-opens t u (t₁, t₂, e, (p, ps, e', lp, lps), l₂) =
    subst (λ y. opens (y ++ u) ≡ true) (sym e)
      (subst (λ y. opens ((y ++ t₂) ++ u) ≡ true) (sym e')
        (subst (λ y. opens y ≡ true)
          (sym (append_assoc (p ++ ps) t₂ u ∙ append_assoc p ps (t₂ ++ u)))
          (line_end-opens p (ps ++ (t₂ ++ u)) lp (ends-begins t₂ u lps l₂))))

-- Line ends, spaces and tabs, which are all that it takes.
abbrev pub is_spacing : ℕ → Bool
is_spacing c = is_tab c || (c == 10 || c == 13)

newline-Within : (c : ℕ) → (c == 10) ≡ true → is_spacing c ≡ true
newline-Within c h = ground arith

return-Within : (c : ℕ) → (c == 13) ≡ true → is_spacing c ≡ true
return-Within c h = ground arith

tab-Within : (c : ℕ) → is_tab c ≡ true → is_spacing c ≡ true
tab-Within c h = ground arith

end-Within : Within is_spacing line_end
end-Within = ((return-Within, tt), (newline-Within, tab-Within))

pub blank_lines-All : (t : Text) → Language blank_lines t → All (λ c. is_spacing c ≡ true) t
blank_lines-All t l =
    Language-All is_spacing blank_lines t
      ((end-Within, end-Within), ((return-Within, tt), newline-Within)) l

-- The text that a match takes.
pub match-taken :
    (before : Option ℕ) (s : Text) (c : Cursor)
    → match_here blank_lines before s ≡ some c
    → (t : Text) × Language blank_lines t × (s ≡ t ++ c.rest)
unfolding match_here
match-taken before s c h =
    let start : Cursor = record { before = before; rest = s; groups = [] } in
    let (d, m, e) = run_sound blank_lines start some c h in
    Derives-Language blank_lines start c (subst (Derives blank_lines start) (same e) m)
  where
    same : {d : Cursor} → some d ≡ some c → d ≡ c
    same e = cc

pub no_match :
    (before : Option ℕ) (s : Text) → opens s ≡ false → match_here blank_lines before s ≡ none
no_match before s h = elim (Option-cases (match_here blank_lines before s)) [
  | inl e ↦ e
  | inr (c, e) ↦
      let (t, l, q) = match-taken before s c e in
      absurd (ground (arith, blank_lines-opens t c.rest l, ap opens q))
]

-- A text that is empty or begins with something visible.
abbrev pub begins_visibly : Text → Bool
begins_visibly [] = true
begins_visibly (c ∷ s) = not (is_spacing c)

pub taken-two :
    (t r rest : Text)
    → begins_visibly rest ≡ true
    → All (λ c. is_spacing c ≡ true) t
    → opens t ≡ true
    → 10 ∷ 10 ∷ rest ≡ t ++ r
    → rest ≡ r
taken-two [] r rest v a o e = cc
taken-two (x ∷ []) r rest v a o e = ground arith
taken-two (x ∷ y ∷ []) r rest v a o e = cc
taken-two (x ∷ y ∷ z ∷ t) r [] v a o e = cc
taken-two (x ∷ y ∷ z ∷ t) r (c ∷ rest) v a o e =
    let same : c ≡ z = cc in absurd (ground (arith, same, a.1.1.0))
