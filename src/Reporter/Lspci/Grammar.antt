-- ===== src/Reporter/Lspci/Grammar.antt =====
-- Which header lines parseHeader accepts.
use mathlib.Core.List.{append-nil}
use spyre_health_checker.Base.{
  ◌≡◌, refl, sym, ap, ◌∙◌, ◌↔◌, inl, inr, true, [], ◌++◌, none, some, Option-cases, Text, arith,
}
use spyre_health_checker.Regexp.{Cursor, cat, find_submatch}
use spyre_health_checker.Regexp.Shape.{Found, find_submatch-Found}
use spyre_health_checker.Regexp.Complete.{is_found}
use spyre_health_checker.Regexp.Search.{find_submatch_complete}
use spyre_health_checker.Regexp.Language.{Language, Derives-Language, ends-Derives, ends-rest}
use spyre_health_checker.Reporter.Lspci.Header.{
  pci_pat, hdr, hdr_rest, header_of, HeaderFields, parse_header,
}

match-Language : (line : Text) (c : Cursor) → Found hdr none line c → Language hdr line
match-Language line c (pre, b, p, g, (e, (start, same), m), first) =
    let (s, l, q) = Derives-Language (cat pci_pat hdr_rest) e c m in
    let none_left : c.rest ≡ [] = ends-rest (cat pci_pat hdr_rest) e c refl m in
    let whole : line ≡ s =
      p
      ∙ (ap (λ x. x ++ b.rest) (first start).0
          ∙ (ap (λ x. x.rest) (sym same) ∙ (q ∙ (ap (λ x. s ++ x) none_left ∙ append-nil s)))) in
    ([], s, whole, refl, l)

Language-found : (line : Text) → Language hdr line → is_found (find_submatch hdr line) ≡ true
Language-found line (t, u, w, l, k) =
    let start : Cursor = record { before = none; rest = line; groups = [] } in
    let (d, m) = ends-Derives (cat pci_pat hdr_rest) u start refl k (w ∙ ap (λ x. x ++ u) l) in
    find_submatch_complete hdr [] line d refl (start, (refl, refl), m)

-- A header line parses exactly if it is a text of `hdr`.
pub parse_header-Language :
    (line : Text) → ((h : HeaderFields) × (parse_header line ≡ some h)) ↔ Language hdr line
unfolding parse_header
parse_header-Language line = elim (Option-cases (find_submatch hdr line)) [
  | inl e ↦ (
    λ h. absurd (ground (arith, rw (e, parse_header) at h.1)),
    λ n. absurd (ground (arith, Language-found line n)),
  )
  | inr (c, e) ↦ (
    λ h. match-Language line c (find_submatch-Found hdr line c e),
    λ n. (header_of c, rw (e, parse_header) refl),
  )
]
