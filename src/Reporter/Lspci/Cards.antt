-- ===== src/Reporter/Lspci/Cards.antt =====
-- internal/reporter/lspci.go: what `lspci -vvvnn` prints of a device.
use spyre_health_checker.Base.{
  ℕ, ◌≡◌, refl, inl, inr, Bool, true, not, ◌&&◌, List, [], ◌∷◌, ◌++◌, Text, codes, ◌==◌, All,
  All-append, arith,
}
use spyre_health_checker.Types.{DeviceState}
use spyre_health_checker.Regexp.{hex_i, octal, exact}
use spyre_health_checker.Regexp.Shape.{fits}
use spyre_health_checker.Reporter.Lspci.Header.{HeaderFields, colon, domain_classes, slot_classes}
use spyre_health_checker.Reporter.Lspci.Address.{IsSlot, address_classes}
use spyre_health_checker.Reporter.Lspci.Backwards.{vendev_classes, rev_classes}
use spyre_health_checker.Reporter.Lspci.Roundtrip.{print_header, behind, IsWellFormed}
use spyre_health_checker.Reporter.Lspci.Splitter.{is_compact}
use spyre_health_checker.Reporter.Lspci.Classify.{report_header}

-- What lspci prints of a device: the fields of its header, the description between them, and further lines,
-- each with the end of the line before it.
pub record Card : Type 0 where
  pub header : HeaderFields
  pub description : Text
  pub details : Text

abbrev pub print_card : Card → Text
print_card c = print_header c.header c.description ++ c.details

-- Part of a line
abbrev pub is_plain : ℕ → Bool
is_plain c = not (c == 10) && not (c == 13)

abbrev pub IsPlain : Text → Type 0
IsPlain s = All (λ c. is_plain c ≡ true) s

abbrev pub begins_line : Text → Bool
begins_line [] = true
begins_line (c ∷ s) = c == 10

-- The fields are well formed, the description is part of a line, and the further lines are not blank.
abbrev pub IsPrinted : Card → Type 0
IsPrinted c =
    IsWellFormed c.header
    × IsPlain c.description
    × (begins_line c.details ≡ true)
    × (is_compact c.details ≡ true)

-- What parseLSPCI makes of the headers alone.
abbrev pub reports : List Card → List DeviceState
reports [] = []
reports (c ∷ cards) = report_header c.header ++ reports cards

abbrev ArePlain : List (ℕ → Bool) → Type 0
ArePlain ps = All (λ p. (c : ℕ) → p c ≡ true → is_plain c ≡ true) ps

fits-IsPlain : (ps : List (ℕ → Bool)) (s : Text) → ArePlain ps → fits ps s ≡ true → IsPlain s
fits-IsPlain [] [] h f = tt
fits-IsPlain [] (x ∷ s) h f = cc
fits-IsPlain (p ∷ ps) [] h f = cc
fits-IsPlain (p ∷ ps) (x ∷ s) (h, hs) f = (h x (ground arith), fits-IsPlain ps s hs (ground arith))

hex_i-IsPlain : (c : ℕ) → hex_i c ≡ true → is_plain c ≡ true
unfolding hex_i
hex_i-IsPlain c h = ground arith

octal-IsPlain : (c : ℕ) → octal c ≡ true → is_plain c ≡ true
unfolding octal
octal-IsPlain c h = ground arith

colon-IsPlain : (c : ℕ) → colon c ≡ true → is_plain c ≡ true
colon-IsPlain c h = ground arith

point-IsPlain : (c : ℕ) → exact b'.' c ≡ true → is_plain c ≡ true
point-IsPlain c h = ground arith

slot-ArePlain : ArePlain slot_classes
slot-ArePlain = (
  hex_i-IsPlain,
  (
    hex_i-IsPlain,
    (colon-IsPlain, (hex_i-IsPlain, (hex_i-IsPlain, (point-IsPlain, (octal-IsPlain, tt))))),
  ),
)

domain-ArePlain : ArePlain domain_classes
domain-ArePlain =
    (hex_i-IsPlain, (hex_i-IsPlain, (hex_i-IsPlain, (hex_i-IsPlain, (colon-IsPlain, tt)))))

vendev-ArePlain : ArePlain vendev_classes
vendev-ArePlain = (
  hex_i-IsPlain,
  (
    hex_i-IsPlain,
    (
      hex_i-IsPlain,
      (
        hex_i-IsPlain,
        (colon-IsPlain, (hex_i-IsPlain, (hex_i-IsPlain, (hex_i-IsPlain, (hex_i-IsPlain, tt))))),
      ),
    ),
  ),
)

slot-IsPlain : (s : Text) → IsSlot s → IsPlain s
slot-IsPlain s (inl f) = fits-IsPlain slot_classes s slot-ArePlain f
slot-IsPlain s (inr f) =
    fits-IsPlain address_classes s
      (All-append (λ p. (c : ℕ) → p c ≡ true → is_plain c ≡ true) domain_classes slot_classes
        domain-ArePlain slot-ArePlain)
      f

append-IsPlain : (s t : Text) → IsPlain s → IsPlain t → IsPlain (s ++ t)
append-IsPlain s t h k = All-append (λ c. is_plain c ≡ true) s t h k

pub print_header-IsPlain :
    (h : HeaderFields) (stuff : Text)
    → IsWellFormed h
    → IsPlain stuff
    → IsPlain (print_header h stuff)
print_header-IsPlain h stuff (slot, v, r) d =
    let end = h.rev ++ codes ")" in
    let word = codes "] (rev " ++ end in
    append-IsPlain h.pci (behind h stuff) (slot-IsPlain h.pci slot) (
      append-IsPlain stuff (codes " [" ++ (h.vendev ++ word)) d (
        refl,
        (
          refl,
          append-IsPlain h.vendev word (fits-IsPlain vendev_classes h.vendev vendev-ArePlain v) (
              append-IsPlain (codes "] (rev ") end
                (refl, (refl, (refl, (refl, (refl, (refl, (refl, tt)))))))
                (append-IsPlain h.rev (codes ")")
                  (fits-IsPlain rev_classes h.rev (hex_i-IsPlain, (hex_i-IsPlain, tt)) r)
                  (refl, tt))),
        ),
      ))
