-- ===== src/Reporter/Lspci/Accept.antt =====
-- internal/reporter/lspci.go: the texts of the header expression are the lines of the form that is written out.
use mathlib.Core.List.{append-nil}
use spyre_health_checker.Base.{
  ◌≡◌, ◌≢◌, refl, sym, ap, ◌∙◌, ◌⊎◌, inl, inr, true, [], ◌∷◌, ◌++◌, Text, codes, arith,
}
use spyre_health_checker.Regexp.{
  Regexp, cat, star, end_text, one, plus, seq, opt, exact, blank, dot, hex_i,
}
use spyre_health_checker.Regexp.Shape.{fits, fits-append}
use spyre_health_checker.Regexp.Language.{Language}
use spyre_health_checker.Regexp.Pieces.{
  fits-Language, Language-fits, fits-split, All-Parts, Parts-All, plus-Language, Language-plus,
  opt-Language, Language-opt,
}
use spyre_health_checker.Reporter.Lspci.Header.{hdr, hdr_rest, hdr_rev, pci_pat}
use spyre_health_checker.Reporter.Lspci.Backwards.{word_classes}
use spyre_health_checker.Reporter.Lspci.Form.{
  HeaderParts, line_of, HasForm, short_form, domain_form, vendev_form, word_form, AllBlank,
  word-fits,
}

slot-Language :
    (s : Text)
    → (fits short_form s ≡ true) ⊎ (fits (domain_form ++ short_form) s ≡ true)
    → Language pci_pat s
slot-Language s (inl f) = ([], s, refl, inr refl, fits-Language short_form s f)
slot-Language s (inr f) =
    let (t, u, e, g, h) = fits-split domain_form short_form s f in
    (t, u, e, inl (fits-Language domain_form t g), fits-Language short_form u h)

Language-slot :
    (s : Text)
    → Language pci_pat s
    → (fits short_form s ≡ true) ⊎ (fits (domain_form ++ short_form) s ≡ true)
Language-slot s (t, u, e, inl d, k) = inr (
    rw e (
      fits-append domain_form short_form t u (Language-fits domain_form t d)
        (Language-fits short_form u k)))
Language-slot s (t, u, e, inr n, k) = inl (rw (e, n) (Language-fits short_form u k))

abbrev RevForm : Text → Text → Text → Text → Type 0
RevForm word gap rev tail =
    (fits word_form word ≡ true)
    × AllBlank gap
    × (gap ≢ [])
    × (fits (hex_i ∷ hex_i ∷ []) rev ≡ true)
    × AllBlank tail

abbrev rev_line : Text → Text → Text → Text → Text
rev_line word gap rev tail = word ++ (gap ++ (rev ++ (codes ")" ++ tail)))

RevForm-Language :
    (word gap rev tail : Text)
    → RevForm word gap rev tail
    → Language hdr_rev (rev_line word gap rev tail)
RevForm-Language word gap rev tail (w, g, g', r, t) =
    let end = codes ")" ++ tail in
    let trailing : Language (cat (star (one blank)) end_text) tail =
      (tail, [], sym (append-nil tail), All-Parts blank tail t, refl) in
    let closed : Language (cat (one (exact b')')) (cat (star (one blank)) end_text)) end =
      (codes ")", tail, refl, (b')', refl, refl), trailing) in
    let digits = fits-Language (hex_i ∷ hex_i ∷ []) rev r in
    (
      word,
      gap ++ (rev ++ end),
      refl,
      fits-Language word_classes word (word-fits word ∙ w),
      (gap, rev ++ end, refl, plus-Language blank gap g g', (rev, end, refl, digits, closed)),
    )

Language-RevForm :
    (s : Text)
    → Language hdr_rev s
    → (word : Text) × (gap : Text) × (rev : Text) × (tail : Text) × (s ≡ rev_line word gap rev tail)
      × RevForm word gap rev tail
Language-RevForm s
      (
        word,
        r,
        e,
        k,
        (gap, r₁, e₁, k₁, (rev, r₂, e₂, k₂, (paren, r₃, e₃, (x, q, h), (tail, n, e₄, k₃, l)))),
      ) =
    let (g, g') = Language-plus blank gap k₁ in
    let paren_eq : x ≡ b')' = ground arith in
    (
      word,
      gap,
      rev,
      tail,
      rw (e, e₁, e₂, e₃, q, paren_eq, e₄, l, append-nil tail) refl,
      (
        sym (word-fits word) ∙ Language-fits word_classes word k,
        g,
        g',
        Language-fits (hex_i ∷ hex_i ∷ []) rev k₂,
        Parts-All blank k₃,
      ),
    )

-- What follows the opening bracket.
abbrev ids_pat : Regexp
ids_pat = cat (seq vendev_form) (cat (opt (one (exact b']'))) (cat (plus (one blank)) hdr_rev))

-- A line of this form is a text of the expression.
pub HasForm-Language : (p : HeaderParts) → HasForm p → Language hdr (line_of p)
HasForm-Language p (slot, d, g, g', b, v, c, rg, rg', w, gb, gb', r, t) =
    let l₁ = rev_line p.word p.gap_behind p.rev p.tail in
    let l₂ = p.vendev ++ (p.closing ++ (p.rev_gap ++ l₁)) in
    let l₃ = p.gap ++ (p.bracket ++ l₂) in
    let revision = RevForm-Language p.word p.gap_behind p.rev p.tail (w, gb, gb', r, t) in
    let ids : Language ids_pat l₂ = (
      p.vendev,
      p.closing ++ (p.rev_gap ++ l₁),
      refl,
      fits-Language vendev_form p.vendev v,
      (
        p.closing,
        p.rev_gap ++ l₁,
        refl,
        opt-Language b']' p.closing c,
        (p.rev_gap, l₁, refl, plus-Language blank p.rev_gap rg rg', revision),
      ),
    ) in
    let rest : Language hdr_rest (p.stuff ++ l₃) = (
      p.stuff,
      l₃,
      refl,
      All-Parts dot p.stuff d,
      (
        p.gap,
        p.bracket ++ l₂,
        refl,
        plus-Language blank p.gap g g',
        (p.bracket, l₂, refl, opt-Language b'[' p.bracket b, ids),
      ),
    ) in
    ([], line_of p, refl, refl, (p.pci, p.stuff ++ l₃, refl, slot-Language p.pci slot, rest))

-- A text of the expression has this form.
pub Language-HasForm :
    (line : Text) → Language hdr line → (p : HeaderParts) × (line ≡ line_of p) × HasForm p
Language-HasForm line
      (
        z,
        r,
        e,
        n,
        (pci, r₁, e₁, k₁, (stuff, r₂, e₂, k₂, (gap, r₃, e₃, k₃, (bracket, r₄, e₄, k₄, ids)))),
      ) =
    let (vendev, r₅, e₅, k₅, (closing, r₆, e₆, k₆, (rev_gap, r₇, e₇, k₇, revision))) = ids in
    let (word, gap_behind, rev, tail, e₈, (w, gb, gb', d, t)) = Language-RevForm r₇ revision in
    let (g, g') = Language-plus blank gap k₃ in
    let (rg, rg') = Language-plus blank rev_gap k₇ in
    (
      record {
        pci = pci;
        stuff = stuff;
        gap = gap;
        bracket = bracket;
        vendev = vendev;
        closing = closing;
        rev_gap = rev_gap;
        word = word;
        gap_behind = gap_behind;
        rev = rev;
        tail = tail;
      },
      rw (e, n, e₁, e₂, e₃, e₄, e₅, e₆, e₇)
          (ap (λ y. pci ++ (stuff ++ (gap ++ (bracket ++ (vendev ++ (closing ++ (rev_gap ++ y)))))))
            e₈),
      (
        Language-slot pci k₁,
        Parts-All dot k₂,
        g,
        g',
        Language-opt b'[' bracket k₄,
        Language-fits vendev_form vendev k₅,
        Language-opt b']' closing k₆,
        rg,
        rg',
        w,
        gb,
        gb',
        d,
        t,
      ),
    )
