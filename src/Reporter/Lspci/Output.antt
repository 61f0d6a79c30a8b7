-- ===== src/Reporter/Lspci/Output.antt =====
-- internal/reporter/lspci.go: parseLSPCI on what `lspci -vvvnn` prints.
use mathlib.Core.List.{reverse, reverse-append, reverse-reverse, reverse-cons, append_assoc}
use spyre_health_checker.Base.{
  ℕ, ◌≡◌, refl, sym, ap, subst, ◌∙◌, inl, inr, Bool-cases, true, false, not, List, [], ◌∷◌, ◌++◌,
  Text, codes, text_eq, is_space, trim_left, trim_space, split, map, ◌==◌, All, arith,
}
use spyre_health_checker.Regexp.{hex_i, dot}
use spyre_health_checker.Reporter.Lspci.Header.{HeaderFields, parse_header}
use spyre_health_checker.Reporter.Lspci.Address.{IsSlot}
use spyre_health_checker.Reporter.Lspci.Roundtrip.{print_header, behind, parse_header_roundtrip}
use spyre_health_checker.Reporter.Lspci.Breaks.{is_spacing, begins_visibly}
use spyre_health_checker.Reporter.Lspci.Splitter.{
  is_compact, print_output, IsStanza, split_by_blank_lines-output,
}
use spyre_health_checker.Reporter.Lspci.Classify.{
  report_header, report_parsed, report_stanza, report_stanzas, parse_lspci-headers,
}
use spyre_health_checker.Reporter.Lspci.Cards.{
  Card, print_card, is_plain, IsPlain, begins_line, IsPrinted, reports, print_header-IsPlain,
}
use spyre_health_checker.Reporter.Lspci.{
  drop_crs, first_non_empty, first_non_empty_line, parse_lspci,
}

plain_compact : (s d : Text) → IsPlain s → is_compact d ≡ true → is_compact (s ++ d) ≡ true
plain_compact [] d h k = k
plain_compact (x ∷ s) d (h, hs) k = ground (arith, plain_compact s d hs k)

hex_i-visible : (c : ℕ) → hex_i c ≡ true → (is_spacing c ≡ false) × (is_space c ≡ false)
unfolding hex_i is_space
hex_i-visible c h = (ground arith, ground arith)

-- An address begins with a digit.
slot_begins :
    (s : Text)
    → IsSlot s
    → (c : ℕ) × (t : Text) × (s ≡ c ∷ t) × (is_spacing c ≡ false) × (is_space c ≡ false)
slot_begins [] (inl f) = cc
slot_begins [] (inr f) = cc
slot_begins (x ∷ s) (inl f) =
    (x, s, refl, (hex_i-visible x (ground arith)).0, (hex_i-visible x (ground arith)).1)
slot_begins (x ∷ s) (inr f) =
    (x, s, refl, (hex_i-visible x (ground arith)).0, (hex_i-visible x (ground arith)).1)

trim_left-last :
    (s : Text) (x : ℕ)
    → is_space x ≡ false
    → (y : ℕ) × (t : Text) × (trim_left (s ++ x ∷ []) ≡ y ∷ t)
unfolding trim_left
trim_left-last [] x h = (x, [], rw h refl)
trim_left-last (c ∷ s) x h = elim (Bool-cases (is_space c)) [
  | inl e ↦ let (y, t, q) = trim_left-last s x h in (y, t, rw e q)
  | inr e ↦ (c, s ++ x ∷ [], rw e refl)
]

reverse-nonempty : (y : ℕ) (t : Text) → text_eq (reverse (y ∷ t)) [] ≡ false
unfolding text_eq
reverse-nonempty y t = rw (reverse-cons y t) (last (reverse t))
  where
    last : (s : Text) → text_eq (s ++ y ∷ []) [] ≡ false
    last [] = refl
    last (x ∷ s) = refl

visible_kept :
    (x : ℕ) (s : Text) → is_space x ≡ false → not (text_eq (trim_space (x ∷ s)) []) ≡ true
unfolding trim_space trim_left
visible_kept x s h =
    let (y, t, q) = trim_left-last (reverse s) x h in
    rw (h, reverse-cons x s, q, reverse-nonempty y t) refl

print_card-IsStanza : (c : Card) → IsPrinted c → IsStanza (print_card c)
print_card-IsStanza c ((slot, v, r), d, b, k) =
    let (x, s, e, n, m) = slot_begins c.header.pci slot in
    let line = behind c.header c.description in
    (
      plain_compact (print_header c.header c.description) c.details
          (print_header-IsPlain c.header c.description (slot, v, r) d) k,
      λ u. subst (λ y. begins_visibly (((y ++ line) ++ c.details) ++ u) ≡ true) (sym e) (rw n refl),
      subst (λ y. not (text_eq (trim_space ((y ++ line) ++ c.details)) []) ≡ true) (sym e)
          (visible_kept x ((s ++ line) ++ c.details) m),
    )

plain_newline : (x : ℕ) → is_plain x ≡ true → (x == 10) ≡ false
plain_newline x h = ground arith

-- The first line of a text.
split-line :
    (s d : Text)
    → IsPlain s
    → begins_line d ≡ true
    → (lines : List Text) × (split 10 (s ++ d) ≡ s ∷ lines)
unfolding split
split-line [] [] h b = ([], refl)
split-line [] (c ∷ d) h b = (split 10 d, rw b refl)
split-line (x ∷ s) d (h, hs) b =
    let (lines, q) = split-line s d hs b in (lines, rw (plain_newline x h, q) refl)

-- A header ends with a parenthesis.
header_last :
    (h : HeaderFields) (stuff : Text) → (s : Text) × (print_header h stuff ≡ s ++ b')' ∷ [])
header_last h stuff =
    let word = codes "] (rev " in
    (
      h.pci ++ (stuff ++ (codes " [" ++ (h.vendev ++ (word ++ h.rev)))),
      ap (λ y. h.pci ++ (stuff ++ (codes " [" ++ y)))
            (ap (λ y. h.vendev ++ y) (sym (append_assoc word h.rev (codes ")")))
              ∙ sym (append_assoc h.vendev (word ++ h.rev) (codes ")")))
          ∙ ap (λ y. h.pci ++ y)
              (sym (append_assoc stuff (codes " [" ++ (h.vendev ++ (word ++ h.rev))) (codes ")")))
          ∙ sym (
              append_assoc h.pci (stuff ++ (codes " [" ++ (h.vendev ++ (word ++ h.rev))))
                (codes ")")),
    )

no_crs : (s : Text) → reverse (drop_crs (reverse (s ++ b')' ∷ []))) ≡ s ++ b')' ∷ []
unfolding drop_crs
no_crs s =
    ap (λ y. reverse (drop_crs y)) (reverse-append s (codes ")"))
    ∙ ap reverse (sym (reverse-append s (codes ")")))
    ∙ reverse-reverse (s ++ codes ")")

first_line-card :
    (c : Card)
    → IsPrinted c
    → first_non_empty_line (print_card c) ≡ print_header c.header c.description
unfolding first_non_empty_line first_non_empty
first_line-card c ((slot, v, r), d, b, k) =
    let line = print_header c.header c.description in
    let (lines, q) =
      split-line line c.details (print_header-IsPlain c.header c.description (slot, v, r) d) b in
    let (x, s, e, n, m) = slot_begins c.header.pci slot in
    let kept : not (text_eq (trim_space line) []) ≡ true =
      subst (λ y. not (text_eq (trim_space (y ++ behind c.header c.description)) []) ≡ true) (sym e)
        (visible_kept x (s ++ behind c.header c.description) m) in
    let (w, z) = header_last c.header c.description in
    ap first_non_empty q
    ∙ rw (kept, first_non_empty) (ap (λ y. reverse (drop_crs (reverse y))) z ∙ no_crs w ∙ sym z)

plain_dots : (s : Text) → IsPlain s → All (λ c. dot c ≡ true) s
unfolding dot
plain_dots [] h = tt
plain_dots (x ∷ s) (h, hs) = (ground arith, plain_dots s hs)

report-card : (c : Card) → IsPrinted c → report_stanza (print_card c) ≡ report_header c.header
report-card c (w, d, b, k) =
    ap (λ y. report_parsed (parse_header y)) (first_line-card c (w, d, b, k))
    ∙ ap report_parsed
        (parse_header_roundtrip c.header c.description w (plain_dots c.description d))

cards-stanzas :
    (cards : List Card)
    → All IsPrinted cards
    → All IsStanza (map print_card cards) × (report_stanzas (map print_card cards) ≡ reports cards)
cards-stanzas [] h = (tt, refl)
cards-stanzas (c ∷ cards) (h, hs) =
    let (stanzas, rest) = cards-stanzas cards hs in
    ((print_card-IsStanza c h, stanzas), rw (report-card c h, rest) refl)

-- From an output of lspci without carriage returns, with a header line of well-formed fields and any
-- description for each device, further lines that are not blank, and an empty line behind them, parseLSPCI
-- reads exactly what the headers say, device by device and in their order.
pub parse_lspci_roundtrip :
    (cards : List Card)
    → All IsPrinted cards
    → parse_lspci (print_output (map print_card cards)) ≡ reports cards
parse_lspci_roundtrip cards h =
    let (stanzas, said) = cards-stanzas cards h in
    parse_lspci-headers (print_output (map print_card cards))
    ∙ ap report_stanzas (split_by_blank_lines-output (map print_card cards) stanzas)
    ∙ said
