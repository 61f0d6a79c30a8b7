-- ===== src/Reporter/Lspci/Classify.antt =====
-- What parseLSPCI reports of a stanza, read from its header line alone.
use spyre_health_checker.Base.{
  ◌≡◌, refl, ap, ◌∙◌, inl, inr, Bool, true, false, List, [], ◌∷◌, ◌++◌, Option, none, some,
  Bool-cases, Text, codes, text_eq, to_lower, map, arith, if◌then◌else◌, All,
}
use spyre_health_checker.Regexp.{Cursor, find_all}
use spyre_health_checker.Scanner.{scan_lines}
use spyre_health_checker.Types.{DeviceState, PbDeviceType, pf, vf, online, in_error}
use spyre_health_checker.Reporter.Lspci.Header.{parse_header, HeaderFields, split_by_blank_lines}
use spyre_health_checker.Reporter.Lspci.Details.{
  DeviceInfo, no_info, is_no_info, add_token, add_tokens, add_dstate, add_status, add_dev_sta,
  add_driver, add_line, add_lines, parse_details, err_token_re,
}
use spyre_health_checker.Reporter.Lspci.{
  first_non_empty_line, full_address, info_of_header, parse_device_stanza, dev_type, state_of_info,
  is_skipped, parse_stanzas, parse_lspci, pf_vdid, vf_vdid,
}

-- What the reported state depends on.
abbrev Identity : Type 0
Identity = Text × Text × Text

abbrev identity : DeviceInfo → Identity
identity di = (di.pci_address, di.ven_dev_id, di.revision)

add_token-identity : (di : DeviceInfo) (c : Cursor) → identity (add_token di c) ≡ identity di
unfolding add_token
add_token-identity di c = ground arith

add_tokens-identity :
    (di : DeviceInfo) (cs : List Cursor) → identity (add_tokens di cs) ≡ identity di
unfolding add_tokens
add_tokens-identity di [] = refl
add_tokens-identity di (c ∷ cs) = add_tokens-identity (add_token di c) cs ∙ add_token-identity di c

add_dstate-identity : (di : DeviceInfo) (line : Text) → identity (add_dstate di line) ≡ identity di
unfolding add_dstate
add_dstate-identity di line = ground arith

add_status-identity : (di : DeviceInfo) (line : Text) → identity (add_status di line) ≡ identity di
unfolding add_status
add_status-identity di line = ground (
  arith,
  add_dstate-identity (add_tokens di (find_all err_token_re none 0 line)) line,
  add_tokens-identity di (find_all err_token_re none 0 line),
)

add_dev_sta-identity :
    (di : DeviceInfo) (line : Text) → identity (add_dev_sta di line) ≡ identity di
unfolding add_dev_sta
add_dev_sta-identity di line = ground arith

add_driver-identity : (di : DeviceInfo) (line : Text) → identity (add_driver di line) ≡ identity di
unfolding add_driver
add_driver-identity di line = ground arith

add_lines-identity :
    (di : DeviceInfo) (lines : List Text) → identity (add_lines di lines) ≡ identity di
unfolding add_lines add_line
add_lines-identity di [] = refl
add_lines-identity di (line ∷ lines) =
    add_lines-identity (add_line di line) lines
    ∙ (add_driver-identity (add_dev_sta (add_status di line) line) line
        ∙ (add_dev_sta-identity (add_status di line) line ∙ add_status-identity di line))

parse_details-identity :
    (stanza : Text) (di : DeviceInfo) → identity (parse_details stanza di) ≡ identity di
unfolding parse_details
parse_details-identity stanza di = add_lines-identity di (scan_lines stanza)

-- The card that a vendor and device identifier in lower case stands for.
abbrev card_type : Text → Option PbDeviceType
card_type v = if text_eq v pf_vdid then some pf else if text_eq v vf_vdid then some vf else none

-- What a card is reported as, if at all.
abbrev report_identity : Identity → List DeviceState
report_identity (pci, ven_dev_id, revision) = elim (card_type ven_dev_id) [
  | none ↦ []
  | some t ↦
      record {
        pci_address = pci;
        type = t;
        state = if text_eq revision (codes "ff") then in_error else online;
        source = [];
        priority = 0;
      }
      ∷ []
]

abbrev pub report_header : HeaderFields → List DeviceState
report_header h =
    if text_eq h.rev (codes "01")
    then []
    else report_identity (full_address h.pci, map to_lower h.vendev, map to_lower h.rev)

abbrev pub report_parsed : Option HeaderFields → List DeviceState
report_parsed none = []
report_parsed (some h) = report_header h

abbrev pub report_stanza : Text → List DeviceState
report_stanza stanza = report_parsed (parse_header (first_non_empty_line stanza))

abbrev pub report_stanzas : List Text → List DeviceState
report_stanzas [] = []
report_stanzas (stanza ∷ stanzas) = report_stanza stanza ++ report_stanzas stanzas

-- One round of the loop of `parseLSPCI`.
abbrev add_info : DeviceInfo → List DeviceState → List DeviceState
add_info di rest = if is_skipped di then rest else state_of_info di ∷ rest

no_info-skipped : (rest : List DeviceState) → add_info no_info rest ≡ rest
unfolding is_skipped is_no_info text_eq
no_info-skipped rest = refl

empty-card_type : (v : Text) → text_eq v [] ≡ true → card_type v ≡ none
unfolding text_eq
empty-card_type [] h = refl
empty-card_type (x ∷ v) h = cc

-- Information that the loop takes for empty is of no card.
no_info-card_type : (di : DeviceInfo) → is_no_info di ≡ true → card_type di.ven_dev_id ≡ none
unfolding is_no_info
no_info-card_type di h = empty-card_type di.ven_dev_id (ground arith)

info-report :
    (di : DeviceInfo) (rest : List DeviceState)
    → add_info di rest ≡ report_identity (identity di) ++ rest
unfolding is_skipped state_of_info dev_type
info-report di rest = ground (arith, no_info-card_type di)

header-report :
    (stanza : Text) (h : HeaderFields) (rest : List DeviceState)
    → add_info (if text_eq h.rev (codes "01") then no_info else info_of_header stanza h) rest
      ≡ report_header h ++ rest
unfolding info_of_header
header-report stanza h rest = elim (Bool-cases (text_eq h.rev (codes "01"))) [
  | inl e ↦ rw e (no_info-skipped rest)
  | inr e ↦ rw e (
      info-report (info_of_header stanza h) rest
      ∙ ap (λ i. report_identity i ++ rest) (parse_details-identity stanza start))
]
  where
    start : DeviceInfo
    start = record no_info {
      pci_address = full_address h.pci;
      ven_dev_id = map to_lower h.vendev;
      revision = map to_lower h.rev;
    }

stanza-report :
    (stanza : Text) (rest : List DeviceState)
    → add_info (parse_device_stanza stanza) rest ≡ report_stanza stanza ++ rest
unfolding parse_device_stanza
stanza-report stanza rest = go (parse_header (first_non_empty_line stanza))
  where
    go :
        (o : Option HeaderFields)
        → add_info
            (elim o [
              | none ↦ no_info
              | some h ↦ if text_eq h.rev (codes "01") then no_info else info_of_header stanza h
            ])
            rest
          ≡ report_parsed o ++ rest
    go none = no_info-skipped rest
    go (some h) = header-report stanza h rest

parse_stanzas-report : (devs : List Text) → parse_stanzas devs ≡ report_stanzas devs
unfolding parse_stanzas
parse_stanzas-report [] = refl
parse_stanzas-report (dev ∷ devs) =
    stanza-report dev (parse_stanzas devs)
    ∙ ap (λ x. report_stanza dev ++ x) (parse_stanzas-report devs)

pub report_header-All :
    (P : Text → Type 0) (h : HeaderFields)
    → P (full_address h.pci)
    → All (λ (s : DeviceState). P s.pci_address) (report_header h)
report_header-All P h p = go (text_eq h.rev (codes "01")) (card_type (map to_lower h.vendev))
  where
    go :
        (known : Bool) (o : Option PbDeviceType)
        → All
            (λ (s : DeviceState). P s.pci_address)
            (if known then [] else elim o [
              | none ↦ []
              | some t ↦
                  record {
                    pci_address = full_address h.pci;
                    type = t;
                    state = if text_eq (map to_lower h.rev) (codes "ff") then in_error else online;
                    source = [];
                    priority = 0;
                  }
                  ∷ []
            ])
    go true o = tt
    go false none = tt
    go false (some t) = (p, tt)

-- What parseLSPCI returns is read from the header lines alone; the other lines of a stanza change
-- nothing. A stanza is reported exactly if its header parses, has a revision other than 01 and, in
-- lower case, one of the two identifiers, which decides its type. It is in error exactly if its
-- revision, in lower case, is ff, and online otherwise.
pub parse_lspci-headers :
    (output : Text) → parse_lspci output ≡ report_stanzas (split_by_blank_lines output)
unfolding parse_lspci
parse_lspci-headers output = parse_stanzas-report (split_by_blank_lines output)
