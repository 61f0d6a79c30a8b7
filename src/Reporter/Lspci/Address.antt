-- ===== src/Reporter/Lspci/Address.antt =====
-- The addresses that `parseLSPCI` reports are complete PCI addresses.
use spyre_health_checker.Base.{
  ℕ, ◌≡◌, refl, sym, ap, subst, ◌∙◌, ◌⊎◌, inl, inr, Bool, true, List, [], ◌∷◌, ◌++◌, Option, none,
  some, Option-cases, Text, codes, arith, All, All-append,
}
use spyre_health_checker.Regexp.{Cursor, find_submatch, group_of, hex_i}
use spyre_health_checker.Regexp.Shape.{
  fits, fits-append, fits-length, avoids-SameGroup, address-fits, Found, find_submatch-Found,
}
use spyre_health_checker.Reporter.Lspci.Header.{
  domain_classes, slot_classes, hdr_rest, hdr, parse_header, header_of, HeaderFields,
}
use spyre_health_checker.Types.{DeviceState}
use spyre_health_checker.Reporter.Lspci.Classify.{
  report_stanza, report_stanzas, report_parsed, report_header-All, parse_lspci-headers,
}
use spyre_health_checker.Reporter.Lspci.{first_non_empty_line, full_address, parse_lspci}
use spyre_health_checker.Reporter.Lspci.Header.{split_by_blank_lines}

-- `dddd:bb:dd.f`, with hexadecimal digits and an octal function.
abbrev pub address_classes : List (ℕ → Bool)
address_classes = domain_classes ++ slot_classes

-- A short address gets the domain 0000; a complete one stays.
full_address-fits :
    (s : Text)
    → (fits slot_classes s ≡ true) ⊎ (fits address_classes s ≡ true)
    → fits address_classes (full_address s) ≡ true
unfolding full_address
full_address-fits s (inl f) =
    rw (fits-length slot_classes s f)
      (fits-append domain_classes slot_classes (codes "0000:") s (unfold hex_i in refl) f)
full_address-fits s (inr f) = rw (fits-length address_classes s f) f

-- The address in a header is what its line begins with.
abbrev pub IsSlot : Text → Type 0
IsSlot s = (fits slot_classes s ≡ true) ⊎ (fits address_classes s ≡ true)

match_pci :
    (line : Text) (c : Cursor)
    → Found hdr none line c
    → IsSlot (group_of 1 c.groups) × ((rest : Text) × (line ≡ group_of 1 c.groups ++ rest))
unfolding group_of
match_pci line c (pre, b, p, g, (b', (start, same), (d, pci, after)), first) =
    let (s, f, r, q) = address-fits domain_classes slot_classes b' d pci in
    let kept : group_of 1 c.groups ≡ s =
      avoids-SameGroup 1 hdr_rest d c refl after ∙ ap (group_of 1) q in
    let whole : line ≡ s ++ d.rest =
      p ∙ (ap (λ x. x ++ b.rest) (first start).0 ∙ (ap (λ x. x.rest) (sym same) ∙ r)) in
    (subst IsSlot (sym kept) f, (d.rest, whole ∙ ap (λ x. x ++ d.rest) (sym kept)))

same_header : (c : Cursor) (h : HeaderFields) → some (header_of c) ≡ some h → header_of c ≡ h
same_header c h e = cc

pub parse_header-pci :
    (line : Text) (h : HeaderFields)
    → parse_header line ≡ some h
    → IsSlot h.pci × ((rest : Text) × (line ≡ h.pci ++ rest))
unfolding parse_header
parse_header-pci line h p = elim (Option-cases (find_submatch hdr line)) [
  | inl e ↦ absurd (ground (arith, rw (e, parse_header) at p))
  | inr (c, e) ↦
      subst (λ x. IsSlot x × ((rest : Text) × (line ≡ x ++ rest)))
        (ap (λ x. x.pci) (same_header c h (rw (e, parse_header) at p)))
        (match_pci line c (find_submatch-Found hdr line c e))
]

abbrev pub HasFullAddress : DeviceState → Type 0
HasFullAddress s = fits address_classes s.pci_address ≡ true

report_stanza-HasFullAddress : (stanza : Text) → All HasFullAddress (report_stanza stanza)
report_stanza-HasFullAddress stanza =
    go (parse_header (first_non_empty_line stanza)) (parse_header-pci (first_non_empty_line stanza))
  where
    go :
        (o : Option HeaderFields)
        → ((h : HeaderFields)
            → o ≡ some h
            → IsSlot h.pci × ((rest : Text) × (first_non_empty_line stanza ≡ h.pci ++ rest)))
        → All HasFullAddress (report_parsed o)
    go none f = tt
    go (some h) f =
        report_header-All (λ a. fits address_classes a ≡ true) h
          (full_address-fits h.pci (f h refl).0)

report_stanzas-HasFullAddress : (stanzas : List Text) → All HasFullAddress (report_stanzas stanzas)
report_stanzas-HasFullAddress [] = tt
report_stanzas-HasFullAddress (stanza ∷ stanzas) =
    All-append HasFullAddress (report_stanza stanza) (report_stanzas stanzas)
      (report_stanza-HasFullAddress stanza) (report_stanzas-HasFullAddress stanzas)

-- Each address that is read from the output of lspci has the full form dddd:bb:dd.f, of hexadecimal
-- digits and an octal function, whether or not lspci printed the domain.
pub parse_lspci-HasFullAddress : (output : Text) → All HasFullAddress (parse_lspci output)
parse_lspci-HasFullAddress output =
    subst (All HasFullAddress) (sym (parse_lspci-headers output))
      (report_stanzas-HasFullAddress (split_by_blank_lines output))
