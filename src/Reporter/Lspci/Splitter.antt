-- ===== src/Reporter/Lspci/Splitter.antt =====
-- internal/reporter/lspci.go: splitByBlankLines on the output of lspci, in which each stanza is followed by an
-- empty line.
use mathlib.Core.List.{reverse, reverse_aux, append-nil, reverse-reverse}
use spyre_health_checker.Base.{
  ℕ, suc, ◌-◌, ◌≡◌, refl, sym, ap, ◌∙◌, inl, inr, Bool, true, not, ◌&&◌, List, [], ◌∷◌, ◌++◌,
  Option, none, some, Option-cases, Text, text_eq, trim_space, length, keep, All, arith,
}
use spyre_health_checker.Regexp.{Cursor, match_here, split_go, regexp_split}
use spyre_health_checker.Regexp.Complete.{is_found, run_complete}
use spyre_health_checker.Regexp.Language.{Language, no_part, Language-Derives}
use spyre_health_checker.Reporter.Lspci.Breaks.{
  line_is_blank, opens, begins_visibly, blank_lines-opens, blank_lines-All, match-taken, no_match,
  taken-two,
}
use spyre_health_checker.Reporter.Lspci.Header.{blank_lines, split_by_blank_lines}

-- No blank line begins in the text, nor at its end if another line follows.
abbrev pub is_compact : Text → Bool
is_compact [] = true
is_compact (c ∷ s) = not (opens (c ∷ (s ++ 10 ∷ []))) && is_compact s

empty_line : Language blank_lines (10 ∷ 10 ∷ [])
empty_line = (
  10 ∷ [],
  10 ∷ [],
  refl,
  (
    10 ∷ [],
    [],
    refl,
    ([], 10 ∷ [], refl, inr refl, (10 ∷ [], [], refl, (10, refl, refl), no_part)),
    no_part,
  ),
  ([], 10 ∷ [], refl, inr refl, (10, refl, refl)),
)

-- At an empty line, a match takes the two ends of lines.
empty_line_match :
    (before : Option ℕ) (rest : Text)
    → begins_visibly rest ≡ true
    → (c : Cursor) × (match_here blank_lines before (10 ∷ 10 ∷ rest) ≡ some c) × (c.rest ≡ rest)
unfolding match_here
empty_line_match before rest v =
    let start : Cursor = record { before = before; rest = 10 ∷ 10 ∷ rest; groups = [] } in
    let (d, m, q) = Language-Derives blank_lines refl (10 ∷ 10 ∷ []) rest start empty_line refl in
    elim (Option-cases (match_here blank_lines before (10 ∷ 10 ∷ rest))) [
      | inl e ↦
          absurd
            (ground (arith, e, ap is_found e, run_complete blank_lines refl start d some m refl))
      | inr (c, e) ↦
          let (t, l, w) = match-taken before (10 ∷ 10 ∷ rest) c e in
          let o = blank_lines-opens t [] l in
          (c, e, sym (taken-two t c.rest rest v (blank_lines-All t l) (rw (append-nil t) at o) w))
    ]

line_is_blank-append : (s u : Text) → line_is_blank (s ++ 10 ∷ u) ≡ line_is_blank (s ++ 10 ∷ [])
line_is_blank-append [] u = refl
line_is_blank-append (c ∷ s) u = ground (arith, line_is_blank-append s u)

opens-append : (c : ℕ) (s u : Text) → opens (c ∷ (s ++ 10 ∷ u)) ≡ opens (c ∷ (s ++ 10 ∷ []))
opens-append c s u = ground (arith, line_is_blank-append s u)

one_more : (n : ℕ) → suc n - n ≡ 1
one_more n = omega arith

-- The split goes through a stanza and on behind the empty line.
split_go-stanza :
    (before : Option ℕ) (read s rest : Text)
    → is_compact s ≡ true
    → begins_visibly rest ≡ true
    → split_go blank_lines before 0 read (s ++ 10 ∷ 10 ∷ rest)
      ≡ reverse (reverse_aux s read) ∷ split_go blank_lines (some 10) 0 [] rest
unfolding split_go
split_go-stanza before read [] rest k v =
    let (c, e, q) = empty_line_match before rest v in
    rw (e, split_go) (rw (q, one_more (length rest)) refl)
split_go-stanza before read (x ∷ s) rest k v =
    rw
      (
        no_match before (x ∷ (s ++ 10 ∷ 10 ∷ rest)) (opens-append x s (10 ∷ rest) ∙ ground arith),
        split_go,
      )
      (split_go-stanza (some x) (x ∷ read) s rest (ground arith) v)

-- The output of lspci: an empty line behind each stanza.
abbrev pub print_output : List Text → Text
print_output [] = []
print_output (s ∷ stanzas) = s ++ 10 ∷ 10 ∷ print_output stanzas

-- A stanza begins with something visible, and has no blank line.
abbrev pub IsStanza : Text → Type 0
IsStanza s =
    (is_compact s ≡ true)
    × ((u : Text) → begins_visibly (s ++ u) ≡ true)
    × (not (text_eq (trim_space s) []) ≡ true)

print_output-visible :
    (stanzas : List Text) → All IsStanza stanzas → begins_visibly (print_output stanzas) ≡ true
print_output-visible [] h = refl
print_output-visible (s ∷ stanzas) (h, hs) = h.1 (10 ∷ 10 ∷ print_output stanzas)

split_go-output :
    (before : Option ℕ) (stanzas : List Text)
    → All IsStanza stanzas
    → split_go blank_lines before 0 [] (print_output stanzas) ≡ stanzas ++ [] ∷ []
unfolding split_go
split_go-output before [] h = refl
split_go-output before (s ∷ stanzas) (h, hs) =
    split_go-stanza before [] s (print_output stanzas) h.0 (print_output-visible stanzas hs)
    ∙ ap (λ x. x ∷ split_go blank_lines (some 10) 0 [] (print_output stanzas)) (reverse-reverse s)
    ∙ ap (◌∷◌ s) (split_go-output (some 10) stanzas hs)

keep-stanzas :
    (stanzas : List Text)
    → All IsStanza stanzas
    → keep (λ p. not (text_eq (trim_space p) [])) (stanzas ++ [] ∷ []) ≡ stanzas
unfolding trim_space text_eq
keep-stanzas [] h = refl
keep-stanzas (s ∷ stanzas) (h, hs) = rw h.2 (ap (◌∷◌ s) (keep-stanzas stanzas hs))

-- The stanzas of an output are what `splitByBlankLines` gives.
pub split_by_blank_lines-output :
    (stanzas : List Text)
    → All IsStanza stanzas
    → split_by_blank_lines (print_output stanzas) ≡ stanzas
unfolding split_by_blank_lines regexp_split
split_by_blank_lines-output stanzas h =
    ap (keep (λ p. not (text_eq (trim_space p) []))) (split_go-output none stanzas h)
    ∙ keep-stanzas stanzas h
