-- ===== src/Tests/Lspci.antt =====
-- What lspci prints for a card that has fallen off its bus, one that works and another device.
use spyre_health_checker.Base.{
  ◌≡◌, ◌↔◌, inl, inr, List, map, Bool, true, ◌&&◌, arith, some, refl, [], ◌∷◌, ◌++◌, Text, codes,
  All, text_eq, trim_space, split, contains, to_lower,
}
use spyre_health_checker.Regexp.{
  regexp_split, find_submatch, hex_i, octal, blank, dot, same_fold, group_of, not_blank,
}
use spyre_health_checker.Scanner.{scan_lines}
use spyre_health_checker.Types.{DeviceState, PbDeviceState, online, in_error, pf, vf}
use spyre_health_checker.Reporter.Lspci.{parse_lspci}
use spyre_health_checker.Reporter.Lspci.Form.{HeaderParts, line_of, fields_of, HasForm}
use spyre_health_checker.Reporter.Lspci.Header.{split_by_blank_lines, HeaderFields, parse_header}
use spyre_health_checker.Reporter.Lspci.Roundtrip.{
  print_header, parse_header_iff, parse_header_roundtrip,
}
use spyre_health_checker.Reporter.Lspci.Splitter.{print_output}
use spyre_health_checker.Reporter.Lspci.Cards.{Card, print_card, IsPrinted, is_plain, reports}
use spyre_health_checker.Reporter.Lspci.Output.{parse_lspci_roundtrip}
use spyre_health_checker.Reporter.Lspci.Classify.{report_stanzas, parse_lspci-headers}
use spyre_health_checker.Reporter.Lspci.Address.{HasFullAddress, parse_lspci-HasFullAddress}

abbrev output : Text
output =
    codes "1a:00.0 Processing accelerators [1200]: IBM Spyre [1014:06a7] (rev ff)\n"
    ++ codes "\tKernel driver in use: vfio-pci\n\n"
    ++ codes "0001:1c:00.1 Processing accelerators [1200]: IBM Spyre [1014:06a8] (rev 02)\n\n"
    ++ codes "00:1f.0 ISA bridge [0601]: Intel [8086:a145] (rev 31)\n"

abbrev state_of : Text → PbDeviceState → DeviceState
state_of a s = record { pci_address = a; type = pf; state = s; source = []; priority = 0 }

cards_found :
    parse_lspci output
    ≡ state_of (codes "0000:1a:00.0") in_error
      ∷ record (state_of (codes "0001:1c:00.1") online) { type = vf }
      ∷ []
unfolding parse_lspci text_eq regexp_split trim_space find_submatch split hex_i octal blank dot
    same_fold group_of scan_lines not_blank contains to_lower
cards_found = refl

parse_lspci-headers_example : parse_lspci output ≡ report_stanzas (split_by_blank_lines output)
parse_lspci-headers_example = parse_lspci-headers output

parse_lspci-HasFullAddress_example : All HasFullAddress (parse_lspci output)
parse_lspci-HasFullAddress_example = parse_lspci-HasFullAddress output

abbrev header : Text
header = codes "1a:00.0 1200: 1014:06a7 (rev 02)"

abbrev header_fields : HeaderFields
header_fields = record { pci = codes "1a:00.0"; vendev = codes "1014:06a7"; rev = codes "02" }

parse_header_iff_example :
    (parse_header header ≡ some header_fields)
    ↔ ((p : HeaderParts) × (header ≡ line_of p) × HasForm p × (header_fields ≡ fields_of p))
parse_header_iff_example = parse_header_iff header header_fields

abbrev no_newline : Text → Bool
no_newline [] = true
no_newline (c ∷ s) = dot c && no_newline s

All-dots : (s : Text) → no_newline s ≡ true → All (λ c. dot c ≡ true) s
All-dots [] h = tt
All-dots (c ∷ s) h = (ground arith, All-dots s (ground arith))

-- The description of the device may itself look like the end of a header.
abbrev fields : HeaderFields
fields = record { pci = codes "0001:1c:00.1"; vendev = codes "1014:06a8"; rev = codes "02" }

abbrev description : Text
description = codes " IBM [1014:06a7] (rev 01)"

parse_header_roundtrip_example : parse_header (print_header fields description) ≡ some fields
unfolding hex_i octal dot
parse_header_roundtrip_example =
    parse_header_roundtrip fields description (inr refl, refl, refl) dots
  where
    dots : All (λ c. dot c ≡ true) description
    dots = All-dots description refl

-- Two cards, one of them with a further line.
abbrev pub two_cards : List Card
two_cards =
    record {
      header = record { pci = codes "1a:00.0"; vendev = codes "1014:06A7"; rev = codes "ff" };
      description = codes " Accelerator [1200]";
      details = codes "\n\tKernel driver in use: vfio-pci";
    }
    ∷ record { header = fields; description = description; details = [] }
    ∷ []

abbrev plain : Text → Bool
plain [] = true
plain (c ∷ s) = is_plain c && plain s

All-plain : (s : Text) → plain s ≡ true → All (λ c. is_plain c ≡ true) s
All-plain [] h = tt
All-plain (c ∷ s) h = (ground arith, All-plain s (ground arith))

pub two_cards-IsPrinted : All IsPrinted two_cards
unfolding hex_i octal
two_cards-IsPrinted = (
  ((inl refl, refl, refl), All-plain (codes " Accelerator [1200]") refl, refl, refl),
  (((inr refl, refl, refl), All-plain description refl, refl, refl), tt),
)

parse_lspci_roundtrip_example :
    parse_lspci (print_output (map print_card two_cards)) ≡ reports two_cards
parse_lspci_roundtrip_example = parse_lspci_roundtrip two_cards two_cards-IsPrinted

both_reported :
    reports two_cards
    ≡ state_of (codes "0000:1a:00.0") in_error
      ∷ record (state_of (codes "0001:1c:00.1") online) { type = vf }
      ∷ []
unfolding parse_lspci text_eq to_lower
both_reported = refl
