-- ===== src/Reporter/Lspci/Fields.antt =====
-- internal/reporter/lspci.go: which parts of a header line the fields are that parseHeader returns.
use mathlib.Core.List.{append-nil, append_assoc}
use spyre_health_checker.Base.{
  ℕ, ◌≡◌, refl, sym, ap, subst, ◌∙◌, ◌⊎◌, inl, inr, Bool, true, List, [], ◌∷◌, ◌++◌, none, some,
  Option-cases, Text, codes, ==_iff, arith,
}
use spyre_health_checker.Regexp.{
  Regexp, one, cat, star, lazy_star, opt, end_text, dot, plus, seq, group, exact, blank, Cursor,
  taken, group_of, find_submatch, folded,
}
use spyre_health_checker.Regexp.Sound.{Derives}
use spyre_health_checker.Regexp.Shape.{
  fits, seq-fits, taken-append, avoids-SameGroup, Found, find_submatch-Found,
}
use spyre_health_checker.Regexp.Language.{Language, Parts, no_part, part, Derives-Language}
use spyre_health_checker.Reporter.Lspci.Header.{
  hdr, hdr_rest, pci_pat, parse_header, header_of, HeaderFields,
}
use spyre_health_checker.Reporter.Lspci.Backwards.{
  rev_classes, vendev_classes, word_classes, HasEnd,
}
use spyre_health_checker.Reporter.Lspci.Ending.{IsBlank}

Parts-IsBlank : {s : Text} → Parts (Language (one blank)) s → IsBlank s
Parts-IsBlank no_part = tt
Parts-IsBlank (part {s} {t} (x, q, h) ls) =
    subst (λ y. IsBlank (y ++ t)) (sym q) (h, Parts-IsBlank ls)

star-IsBlank :
    (c d : Cursor)
    → Derives (star (one blank)) c d
    → (b : Text) × IsBlank b × (c.rest ≡ b ++ d.rest)
star-IsBlank c d m =
    let (b, l, q) = Derives-Language (star (one blank)) c d m in (b, Parts-IsBlank l, q)

plus-IsBlank :
    (c d : Cursor)
    → Derives (plus (one blank)) c d
    → (b : Text) × IsBlank b × (c.rest ≡ b ++ d.rest)
plus-IsBlank c d (e, (x, xs, q, h, w), m) =
    let (b, l, r) = star-IsBlank e d m in
    (x ∷ b, (h, l), q ∙ ap (◌∷◌ x) (ap (λ y. y.rest) (sym w) ∙ r))

opt-bracket :
    (c d : Cursor)
    → Derives (opt (one (exact b']'))) c d
    → (o : Text) × ((o ≡ []) ⊎ (o ≡ b']' ∷ [])) × (c.rest ≡ o ++ d.rest)
opt-bracket c d (inl (x, xs, q, h, w)) =
    (x ∷ [], inr (ap (λ y. y ∷ []) ((==_iff x b']').0 h)), q ∙ ap (λ y. x ∷ y.rest) (sym w))
opt-bracket c d (inr m) = ([], inl refl, ap (λ y. y.rest) (sym m))

group-seq :
    (n : ℕ) (ps : List (ℕ → Bool)) (c d : Cursor)
    → Derives (group n (seq ps)) c d
    → (s : Text) × (fits ps s ≡ true) × (c.rest ≡ s ++ d.rest) × (group_of n d.groups ≡ s)
unfolding group_of
group-seq n ps c d (e, m, q) =
    let (s, f, r, g) = seq-fits ps c e m in
    (
      s,
      f,
      r ∙ ap (λ x. s ++ x.rest) (sym q),
      ap (λ x. group_of n x.groups) q ∙ newest ∙ ap (λ x. taken x e.rest) r ∙ taken-append s e.rest,
    )
  where
    newest : group_of n ((n, taken c.rest e.rest) ∷ e.groups) ≡ taken c.rest e.rest
    newest = ground (arith, ==_iff n n)

-- `hdr_rest` behind its groups 3 and 4.
abbrev after_rev : Regexp
after_rev = cat (one (exact b')')) (cat (star (one blank)) end_text)

abbrev after_vendev : Regexp
after_vendev = cat (opt (one (exact b']'))) (
    cat (plus (one blank)) (
      cat (folded (codes "(rev"))
        (cat (plus (one blank)) (cat (group 4 (seq rev_classes)) after_rev))))

closed : (c d : Cursor) → Derives after_rev c d → (b : Text) × IsBlank b × (c.rest ≡ b')' ∷ b)
closed c d (e, (x, xs, q, h, w), (f, blanks, (none_left, last))) =
    let (b, l, r) = star-IsBlank e f blanks in
    (
      b,
      l,
      q
          ∙ ap (λ y. y ∷ xs) ((==_iff x b')').0 h)
          ∙ ap (◌∷◌ b')')
              (ap (λ y. y.rest) (sym w) ∙ r ∙ ap (λ y. b ++ y) none_left ∙ append-nil b),
    )

-- What `hdr_rest` takes has such an end, whose parts are in the groups 3 and 4.
rest-HasEnd :
    (d c : Cursor)
    → Derives hdr_rest d c
    → HasEnd d.rest (group_of 3 c.groups) (group_of 4 c.groups)
rest-HasEnd d c (e₁, stuff, (e₂, blanks₁, (e₃, opening, (e₄, vendev, tail)))) =
    let (t, lt, qt) = Derives-Language (group 2 (lazy_star (one dot))) d e₁ stuff in
    let (b₁, h₁, q₁) = plus-IsBlank e₁ e₂ blanks₁ in
    let (o₁, lo, q₂) = Derives-Language (opt (one (exact b'['))) e₂ e₃ opening in
    let (v, fv, qv, gv) = group-seq 3 vendev_classes e₃ e₄ vendev in
    let kept₃ = avoids-SameGroup 3 after_vendev e₄ c refl tail in
    let behind = v ++ e₄.rest in
    let before =
      qt
      ∙ ap (λ y. t ++ y)
          (q₁ ∙ ap (λ y. b₁ ++ y) (q₂ ∙ ap (λ y. o₁ ++ y) qv) ∙ sym (append_assoc b₁ o₁ behind))
      ∙ sym (append_assoc t (b₁ ++ o₁) behind) in
    go (t ++ (b₁ ++ o₁)) v fv (kept₃ ∙ gv) before tail
  where
    go :
        (pre v : Text)
        → fits vendev_classes v ≡ true
        → group_of 3 c.groups ≡ v
        → d.rest ≡ pre ++ (v ++ e₄.rest)
        → Derives after_vendev e₄ c
        → HasEnd d.rest (group_of 3 c.groups) (group_of 4 c.groups)
    go pre v fv gv qd (e₅, closing, (e₆, blanks₂, (e₇, word, (e₈, blanks₃, (e₉, rev, tail'))))) =
        let (o, fo, qo) = opt-bracket e₄ e₅ closing in
        let (b₂, h₂, q₃) = plus-IsBlank e₅ e₆ blanks₂ in
        let (k, fk, qk, gk) = seq-fits word_classes e₆ e₇ word in
        let (b₃, h₃, q₄) = plus-IsBlank e₇ e₈ blanks₃ in
        let (r, fr, qr, gr) = group-seq 4 rev_classes e₈ e₉ rev in
        let (b₄, h₄, q₅) = closed e₉ c tail' in
        let g₃ : fits vendev_classes (group_of 3 c.groups) ≡ true =
          ap (fits vendev_classes) gv ∙ fv in
        let g₄ = avoids-SameGroup 4 after_rev e₉ c refl tail' ∙ gr in
        let line =
          qd
          ∙ ap (λ y. pre ++ (v ++ y))
              (qo
                ∙ ap (λ y. o ++ y)
                    (q₃
                      ∙ ap (λ y. b₂ ++ y)
                          (qk
                            ∙ ap (λ y. k ++ y)
                                (q₄ ∙ ap (λ y. b₃ ++ y) (qr ∙ ap (λ y. r ++ y) q₅))))) in
        subst (λ y. HasEnd d.rest y (group_of 4 c.groups)) (sym gv)
          (subst (HasEnd d.rest v) (sym g₄)
            (pre, o, b₂, k, b₃, b₄, line, fv, fo, h₂, fk, h₃, fr, h₄))

HasEnd-prepend : (s line v r : Text) → HasEnd line v r → HasEnd (s ++ line) v r
HasEnd-prepend s line v r (pre, o, b₂, k, b₃, b₄, e, fv, fo, h₂, fk, h₃, fr, h₄) = (
  s ++ pre,
  o,
  b₂,
  k,
  b₃,
  b₄,
  ap (λ y. s ++ y) e
      ∙ sym (append_assoc s pre (v ++ (o ++ (b₂ ++ (k ++ (b₃ ++ (r ++ b')' ∷ b₄))))))),
  fv,
  fo,
  h₂,
  fk,
  h₃,
  fr,
  h₄,
)

match-HasEnd :
    (line : Text) (c : Cursor)
    → Found hdr none line c
    → HasEnd line (group_of 3 c.groups) (group_of 4 c.groups)
match-HasEnd line c (pre, b, p, g, (b', (start, same), (d, pci, after)), first) =
    let (s, l, q) = Derives-Language pci_pat b' d pci in
    subst (λ y. HasEnd y (group_of 3 c.groups) (group_of 4 c.groups))
      (sym (p ∙ ap (λ y. pre ++ y) (ap (λ y. y.rest) (sym same) ∙ q)))
      (HasEnd-prepend pre (s ++ d.rest) (group_of 3 c.groups) (group_of 4 c.groups) (
        HasEnd-prepend s d.rest (group_of 3 c.groups) (group_of 4 c.groups)
          (rest-HasEnd d c after)))

same_header : (c : Cursor) (h : HeaderFields) → some (header_of c) ≡ some h → header_of c ≡ h
same_header c h e = cc

pub parse_header-HasEnd :
    (line : Text) (h : HeaderFields) → parse_header line ≡ some h → HasEnd line h.vendev h.rev
unfolding parse_header
parse_header-HasEnd line h p = elim (Option-cases (find_submatch hdr line)) [
  | inl e ↦ absurd (ground (arith, rw (e, parse_header) at p))
  | inr (c, e) ↦
      subst (λ x. HasEnd line x.vendev x.rev) (same_header c h (rw (e, parse_header) at p))
        (match-HasEnd line c (find_submatch-Found hdr line c e))
]
