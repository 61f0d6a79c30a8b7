-- ===== src/Reporter/Lspci/Header.antt =====
-- internal/reporter/lspci.go: the stanzas of lspci and the header line of a device.
use spyre_health_checker.Base.{
  ℕ, Bool, not, ◌||◌, List, [], ◌∷◌, ◌++◌, Option, none, some, Text, codes, text_eq, trim_space,
  ◌==◌, keep,
}
use spyre_health_checker.Regexp.{
  Regexp, one, cat, star, lazy_star, group, begin_text, end_text, opt, plus, seq, exact, folded,
  hex_i, octal, blank, dot, Cursor, find_submatch, group_of, regexp_split,
}

-- `(?:\r?\n[ \t]*)+\r?\n`
abbrev pub blank_lines : Regexp
blank_lines =
    cat
      (plus
        (cat (opt (one (exact 13))) (cat (one (exact 10)) (star (one (λ c. c == 32 || c == 9))))))
      (cat (opt (one (exact 13))) (one (exact 10)))

unfoldable pub split_by_blank_lines : Text → List Text
split_by_blank_lines s = keep (λ p. not (text_eq (trim_space p) [])) (regexp_split blank_lines s)

abbrev pub colon : ℕ → Bool
colon = exact b':'

abbrev hex2 : List (ℕ → Bool)
hex2 = hex_i ∷ hex_i ∷ []

abbrev hex4 : List (ℕ → Bool)
hex4 = hex_i ∷ hex_i ∷ hex_i ∷ hex_i ∷ []

-- The domain with its colon, and `bus:device.function`.
abbrev pub domain_classes : List (ℕ → Bool)
domain_classes = hex_i ∷ hex_i ∷ hex_i ∷ hex_i ∷ colon ∷ []

abbrev pub slot_classes : List (ℕ → Bool)
slot_classes = hex_i ∷ hex_i ∷ colon ∷ hex_i ∷ hex_i ∷ exact b'.' ∷ octal ∷ []

-- `pciPat`
abbrev pub pci_pat : Regexp
pci_pat = group 1 (cat (opt (seq domain_classes)) (seq slot_classes))

-- `\(rev\s+([0-9a-f]{2})\)\s*$`
abbrev pub hdr_rev : Regexp
hdr_rev = cat (folded (codes "(rev")) (
    cat (plus (one blank))
      (cat (group 4 (seq hex2)) (cat (one (exact b')')) (cat (star (one blank)) end_text))))

-- `hdr`, whose groups are pci, stuff, vendev and rev, and what follows pci in it.
abbrev pub hdr_rest : Regexp
hdr_rest = cat (group 2 (lazy_star (one dot))) (
    cat (plus (one blank)) (
      cat (opt (one (exact b'['))) (
        cat (group 3 (seq (hex4 ++ colon ∷ hex4)))
          (cat (opt (one (exact b']'))) (cat (plus (one blank)) hdr_rev)))))

abbrev pub hdr : Regexp
hdr = cat begin_text (cat pci_pat hdr_rest)

pub record HeaderFields : Type 0 where
  pub pci : Text
  pub vendev : Text
  pub rev : Text

-- The fields of a match, by the numbers of their groups.
abbrev pub header_of : Cursor → HeaderFields
header_of c = record {
  pci = group_of 1 c.groups;
  vendev = group_of 3 c.groups;
  rev = group_of 4 c.groups;
}

-- `parseHeader`
unfoldable pub parse_header : Text → Option HeaderFields
parse_header first_line = elim (find_submatch hdr first_line) [
  | none ↦ none
  | some c ↦ some (header_of c)
]
