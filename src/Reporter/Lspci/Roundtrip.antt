-- ===== src/Reporter/Lspci/Roundtrip.antt =====
-- internal/reporter/lspci.go: which header lines parseHeader accepts, and what it reads of them and of
-- those that lspci prints.
use mathlib.Core.List.{reverse, append_assoc}
use spyre_health_checker.Base.{
  ℕ, ◌≡◌, refl, sym, ap, ◌∙◌, ◌⊎◌, ◌↔◌, inl, inr, true, false, [], ◌∷◌, ◌++◌, some, Text, codes,
  if◌then◌else◌, arith, All,
}
use spyre_health_checker.Regexp.{blank, dot, hex_i, take}
use spyre_health_checker.Regexp.Shape.{fits}
use spyre_health_checker.Reporter.Lspci.Header.{slot_classes, colon, HeaderFields, parse_header}
use spyre_health_checker.Reporter.Lspci.Form.{HeaderParts, line_of, fields_of, HasForm, word-fits}
use spyre_health_checker.Reporter.Lspci.Accept.{HasForm-Language, Language-HasForm}
use spyre_health_checker.Reporter.Lspci.Grammar.{parse_header-Language}
use spyre_health_checker.Reporter.Lspci.Address.{IsSlot, address_classes, parse_header-pci}
use spyre_health_checker.Reporter.Lspci.Ending.{read_rev, read_vendev, take-fits}
use spyre_health_checker.Reporter.Lspci.Backwards.{HasEnd, HasEnd-read, vendev_classes, rev_classes}
use spyre_health_checker.Reporter.Lspci.Fields.{parse_header-HasEnd}

-- The address at the start of a line: it has a domain unless its third character is a colon.
abbrev pub read_pci : Text → Text
read_pci (a ∷ b ∷ c ∷ s) = take (if colon c then 7 else 12) (a ∷ b ∷ c ∷ s)
read_pci _ = []

hex_i-colon : (c : ℕ) → hex_i c ≡ true → colon c ≡ false
unfolding hex_i
hex_i-colon c h = ground arith

slot-read_pci : (s t : Text) → IsSlot s → read_pci (s ++ t) ≡ s
slot-read_pci [] t (inl f) = cc
slot-read_pci [] t (inr f) = cc
slot-read_pci (a ∷ []) t (inl f) = ground arith
slot-read_pci (a ∷ []) t (inr f) = ground arith
slot-read_pci (a ∷ b ∷ []) t (inl f) = ground arith
slot-read_pci (a ∷ b ∷ []) t (inr f) = ground arith
slot-read_pci (a ∷ b ∷ c ∷ s) t (inl f) =
    let third : colon c ≡ true = ground arith in
    rw third (take-fits slot_classes (a ∷ b ∷ c ∷ s) t f)
slot-read_pci (a ∷ b ∷ c ∷ s) t (inr f) =
    let third : hex_i c ≡ true = ground arith in
    rw (hex_i-colon c third) (take-fits address_classes (a ∷ b ∷ c ∷ s) t f)

fields_eq :
    (h : HeaderFields) {p v r : Text}
    → h.pci ≡ p
    → h.vendev ≡ v
    → h.rev ≡ r
    → h ≡ record { pci = p; vendev = v; rev = r }
fields_eq h {p} {v} a b c =
    ap (λ x. record { pci = x; vendev = h.vendev; rev = h.rev }) a
    ∙ ap (λ x. record { pci = p; vendev = x; rev = h.rev }) b
    ∙ ap (λ x. record { pci = p; vendev = v; rev = x }) c

-- The fields that `parseHeader` returns, read without a search.
parse_header-read :
    (line : Text) (h : HeaderFields)
    → parse_header line ≡ some h
    → h ≡ record {
      pci = read_pci line;
      vendev = read_vendev (reverse line);
      rev = read_rev (reverse line);
    }
parse_header-read line h p =
    let (slot, (rest, e)) = parse_header-pci line h p in
    let (v, r) = HasEnd-read line h.vendev h.rev (parse_header-HasEnd line h p) in
    let a : h.pci ≡ read_pci line = sym (ap read_pci e ∙ slot-read_pci h.pci rest slot) in
    fields_eq h a v r

closing-HasEnd : (s : Text) → (s ≡ codes "]") ⊎ (s ≡ []) → (s ≡ []) ⊎ (s ≡ codes "]")
closing-HasEnd s (inl e) = inr e
closing-HasEnd s (inr e) = inl e

HasForm-HasEnd : (p : HeaderParts) → HasForm p → HasEnd (line_of p) p.vendev p.rev
HasForm-HasEnd p (slot, d, g, g', b, v, c, rg, rg', w, gb, gb', r, t) =
    let id =
      p.vendev
      ++ (p.closing ++ (p.rev_gap ++ (p.word ++ (p.gap_behind ++ (p.rev ++ b')' ∷ p.tail))))) in
    (
      p.pci ++ (p.stuff ++ (p.gap ++ p.bracket)),
      p.closing,
      p.rev_gap,
      p.word,
      p.gap_behind,
      p.tail,
      sym (
          append_assoc p.pci (p.stuff ++ (p.gap ++ p.bracket)) id
          ∙ ap (λ x. p.pci ++ x)
              (append_assoc p.stuff (p.gap ++ p.bracket) id
                ∙ ap (λ x. p.stuff ++ x) (append_assoc p.gap p.bracket id))),
      v,
      closing-HasEnd p.closing c,
      rg,
      word-fits p.word ∙ w,
      gb,
      r,
      t,
    )

-- The fields that are found in a line are those that its form names.
HasForm-parse_header : (p : HeaderParts) → HasForm p → parse_header (line_of p) ≡ some (fields_of p)
HasForm-parse_header p f =
    let line = line_of p in
    let (found, e) = (parse_header-Language line).1 (HasForm-Language p f) in
    let (v, r) = HasEnd-read line p.vendev p.rev (HasForm-HasEnd p f) in
    let behind =
      p.stuff
      ++ (p.gap
          ++ (p.bracket
              ++ (p.vendev
                  ++ (p.closing
                      ++ (p.rev_gap
                          ++ (p.word ++ (p.gap_behind ++ (p.rev ++ (codes ")" ++ p.tail))))))))) in
    e
    ∙ ap some (
        parse_header-read line found e
        ∙ sym (fields_eq (fields_of p) (sym (slot-read_pci p.pci behind f.0)) v r))

same_fields : (h k : HeaderFields) → some h ≡ some k → h ≡ k
same_fields h k e = cc

-- parseHeader finds fields in a line exactly if the whole line is an address with or without its domain,
-- any text without a newline, blanks, the identifiers, each of whose two brackets may be missing, blanks,
-- `(rev` in any case, blanks, a revision of two hexadecimal digits, `)` and possibly blanks; and the
-- fields are this address, these identifiers and this revision.
pub parse_header_iff :
    (line : Text) (h : HeaderFields)
    → (parse_header line ≡ some h)
      ↔ ((p : HeaderParts) × (line ≡ line_of p) × HasForm p × (h ≡ fields_of p))
parse_header_iff line h = (
  λ e.
      let (p, q, f) = Language-HasForm line ((parse_header-Language line).0 (h, e)) in
      (
        p,
        q,
        f,
        same_fields h (fields_of p) (sym e ∙ (ap parse_header q ∙ HasForm-parse_header p f)),
      ),
  λ (p, q, f, k). ap parse_header q ∙ (HasForm-parse_header p f ∙ ap some (sym k)),
)

-- A header line as `lspci -nn` prints it, with a description of the device.
abbrev pub behind : HeaderFields → Text → Text
behind h stuff = stuff ++ (codes " [" ++ (h.vendev ++ (codes "] (rev " ++ (h.rev ++ codes ")"))))

abbrev pub print_header : HeaderFields → Text → Text
print_header h stuff = h.pci ++ behind h stuff

-- Fields of the right form.
abbrev pub IsWellFormed : HeaderFields → Type 0
IsWellFormed h =
    IsSlot h.pci × (fits vendev_classes h.vendev ≡ true) × (fits rev_classes h.rev ≡ true)

-- The parts of a printed line.
abbrev printed : HeaderFields → Text → HeaderParts
printed h stuff = record {
  pci = h.pci;
  stuff = stuff;
  gap = codes " ";
  bracket = codes "[";
  vendev = h.vendev;
  closing = codes "]";
  rev_gap = codes " ";
  word = codes "(rev";
  gap_behind = codes " ";
  rev = h.rev;
  tail = [];
}

printed-HasForm :
    (h : HeaderFields) (stuff : Text)
    → IsWellFormed h
    → All (λ c. dot c ≡ true) stuff
    → HasForm (printed h stuff)
unfolding blank
printed-HasForm h stuff (slot, v, r) d = (
  slot,
  d,
  (refl, tt),
  (λ e. cc),
  inl refl,
  v,
  inl refl,
  (refl, tt),
  (λ e. cc),
  refl,
  (refl, tt),
  (λ e. cc),
  r,
  tt,
)

-- From a header line with well-formed fields, as lspci prints it for any description of the device,
-- parseHeader reads exactly these fields.
pub parse_header_roundtrip :
    (h : HeaderFields) (stuff : Text)
    → IsWellFormed h
    → All (λ c. dot c ≡ true) stuff
    → parse_header (print_header h stuff) ≡ some h
parse_header_roundtrip h stuff w d =
    HasForm-parse_header (printed h stuff) (printed-HasForm h stuff w d)
