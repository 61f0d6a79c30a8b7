-- ===== src/Reporter/Lspci/Form.antt =====
-- internal/reporter/lspci.go: the header line of a device, written out part by part, and the expression
-- that parseHeader searches it with.
use spyre_health_checker.Base.{
  ℕ, ◌≡◌, ◌≢◌, refl, ◌⊎◌, Bool, true, ◌||◌, ◌==◌, List, [], ◌∷◌, ◌++◌, Text, codes, All, arith,
}
use spyre_health_checker.Regexp.{exact, blank, dot, hex_i, octal, same_fold, simple_fold}
use spyre_health_checker.Regexp.Shape.{fits}
use spyre_health_checker.Reporter.Lspci.Header.{HeaderFields}
use spyre_health_checker.Reporter.Lspci.Backwards.{word_classes}

-- The parts of a header line, from left to right.
pub record HeaderParts : Type 0 where
  pub pci : Text
  pub stuff : Text
  pub gap : Text
  pub bracket : Text
  pub vendev : Text
  pub closing : Text
  pub rev_gap : Text
  pub word : Text
  pub gap_behind : Text
  pub rev : Text
  pub tail : Text

abbrev pub line_of : HeaderParts → Text
line_of p =
    p.pci
    ++ (p.stuff
        ++ (p.gap
            ++ (p.bracket
                ++ (p.vendev
                    ++ (p.closing
                        ++ (p.rev_gap
                            ++ (p.word ++ (p.gap_behind ++ (p.rev ++ (codes ")" ++ p.tail))))))))))

abbrev pub fields_of : HeaderParts → HeaderFields
fields_of p = record { pci = p.pci; vendev = p.vendev; rev = p.rev }

-- `1a:00.0`
abbrev pub short_form : List (ℕ → Bool)
short_form = hex_i ∷ hex_i ∷ exact b':' ∷ hex_i ∷ hex_i ∷ exact b'.' ∷ octal ∷ []

-- `0000:`
abbrev pub domain_form : List (ℕ → Bool)
domain_form = hex_i ∷ hex_i ∷ hex_i ∷ hex_i ∷ exact b':' ∷ []

-- `1014:06a7`
abbrev pub vendev_form : List (ℕ → Bool)
vendev_form = hex_i ∷ hex_i ∷ hex_i ∷ hex_i ∷ exact b':' ∷ hex_i ∷ hex_i ∷ hex_i ∷ hex_i ∷ []

abbrev either_case : ℕ → ℕ → ℕ → Bool
either_case a b x = x == a || x == b

-- `(rev`, in any case
abbrev pub word_form : List (ℕ → Bool)
word_form = exact b'(' ∷ either_case b'r' b'R' ∷ either_case b'e' b'E' ∷ either_case b'v' b'V' ∷ []

abbrev pub AllBlank : Text → Type 0
AllBlank s = All (λ c. blank c ≡ true) s

-- Each part has its form: the blanks around the identifiers and in front of the revision are there,
-- the brackets may be missing.
abbrev pub HasForm : HeaderParts → Type 0
HasForm p =
    ((fits short_form p.pci ≡ true) ⊎ (fits (domain_form ++ short_form) p.pci ≡ true))
    × All (λ c. dot c ≡ true) p.stuff
    × AllBlank p.gap
    × (p.gap ≢ [])
    × ((p.bracket ≡ codes "[") ⊎ (p.bracket ≡ []))
    × (fits vendev_form p.vendev ≡ true)
    × ((p.closing ≡ codes "]") ⊎ (p.closing ≡ []))
    × AllBlank p.rev_gap
    × (p.rev_gap ≢ [])
    × (fits word_form p.word ≡ true)
    × AllBlank p.gap_behind
    × (p.gap_behind ≢ [])
    × (fits (hex_i ∷ hex_i ∷ []) p.rev ≡ true)
    × AllBlank p.tail

-- No letter of `(rev` is the fold of a character outside ASCII.
same_fold-paren : (x : ℕ) → same_fold b'(' x ≡ exact b'(' x
unfolding same_fold simple_fold
same_fold-paren x = ground arith

same_fold-r : (x : ℕ) → same_fold b'r' x ≡ either_case b'r' b'R' x
unfolding same_fold simple_fold
same_fold-r x = ground arith

same_fold-e : (x : ℕ) → same_fold b'e' x ≡ either_case b'e' b'E' x
unfolding same_fold simple_fold
same_fold-e x = ground arith

same_fold-v : (x : ℕ) → same_fold b'v' x ≡ either_case b'v' b'V' x
unfolding same_fold simple_fold
same_fold-v x = ground arith

pub word-fits : (s : Text) → fits word_classes s ≡ fits word_form s
word-fits [] = refl
word-fits (a ∷ []) = rw (same_fold-paren a) refl
word-fits (a ∷ b ∷ []) = rw (same_fold-paren a, same_fold-r b) refl
word-fits (a ∷ b ∷ c ∷ []) = rw (same_fold-paren a, same_fold-r b, same_fold-e c) refl
word-fits (a ∷ b ∷ c ∷ d ∷ s) =
    rw (same_fold-paren a, same_fold-r b, same_fold-e c, same_fold-v d) refl
