-- ===== src/Reporter/Lspci.antt =====
-- internal/reporter/lspci.go: the reporter that runs `lspci -vvvnn` and parses what it prints.
pub mod Header
pub mod Details
pub mod Address
pub mod Classify
pub mod Form
pub mod Accept
pub mod Grammar
pub mod Ending
pub mod Backwards
pub mod Fields
pub mod Roundtrip
pub mod Breaks
pub mod Splitter
pub mod Cards
pub mod Output
use mathlib.Core.List.{reverse}
use spyre_health_checker.Base.{
  ℕ, Bool, true, false, not, ◌&&◌, ◌||◌, List, [], ◌∷◌, ◌++◌, Option, none, some, Text, codes,
  text_eq, has_prefix, contains, trim_space, to_lower, to_upper, split, map, length, if◌then◌else◌,
  ◌==◌, keep,
}
use spyre_health_checker.Regexp.{
  Regexp, one, cat, alt, star, lazy_star, group, begin_text, end_text, word_boundary, opt, plus,
  seq, exact, folded, literal, hex_i, octal, same_fold, blank, not_blank, dot, digit, Cursor,
  find_submatch, find_all, group_of, regexp_split,
}
use spyre_health_checker.Scanner.{scan_lines}
use spyre_health_checker.Types.{
  DeviceState, PbDeviceType, PbDeviceState, type_unspecified, pf, vf, online, in_error, Outcome, ok,
  err, Fault, lspci_not_found, lspci_failed, Reporter, priority_lspci,
}
use spyre_health_checker.Reporter.{stamp}
use Header.{split_by_blank_lines, parse_header, HeaderFields}
use Details.{DeviceInfo, no_info, is_no_info, parse_details}

-- `strings.TrimRight(s, "\r")`, on the text backwards.
unfoldable pub drop_crs : Text → Text
drop_crs [] = []
drop_crs (c ∷ s) = if c == 13 then drop_crs s else c ∷ s

unfoldable pub first_non_empty : List Text → Text
unfolding drop_crs
first_non_empty [] = []
first_non_empty (line ∷ lines) =
    if not (text_eq (trim_space line) [])
    then reverse (drop_crs (reverse line))
    else first_non_empty lines

-- `firstNonEmptyLine`
unfoldable pub first_non_empty_line : Text → Text
unfolding first_non_empty
first_non_empty_line s = first_non_empty (split 10 s)

-- An address without a domain is one of domain 0000.
unfoldable pub full_address : Text → Text
full_address pci = if length pci == 7 then codes "0000:" ++ pci else pci

-- What `parseDeviceStanza` does with a header that it accepts.
unfoldable pub info_of_header : Text → HeaderFields → DeviceInfo
unfolding parse_details full_address
info_of_header stanza h = parse_details stanza (record no_info {
  pci_address = full_address h.pci;
  ven_dev_id = map to_lower h.vendev;
  revision = map to_lower h.rev;
})

-- `parseDeviceStanza`
unfoldable pub parse_device_stanza : Text → DeviceInfo
unfolding parse_header first_non_empty_line info_of_header
parse_device_stanza stanza = elim (parse_header (first_non_empty_line stanza)) [
  | none ↦ no_info
  | some h ↦ if text_eq h.rev (codes "01") then no_info else info_of_header stanza h
]

abbrev pub pf_vdid : Text
pf_vdid = codes "1014:06a7"

abbrev pub vf_vdid : Text
vf_vdid = codes "1014:06a8"

unfoldable pub dev_type : Text → PbDeviceType
dev_type ven_dev_id =
    if text_eq ven_dev_id pf_vdid
    then pf
    else if text_eq ven_dev_id vf_vdid
    then vf
    else type_unspecified

-- The state of a device, not yet stamped.
unfoldable pub state_of_info : DeviceInfo → DeviceState
unfolding dev_type
state_of_info di = record {
  pci_address = di.pci_address;
  type = dev_type di.ven_dev_id;
  state = if text_eq di.revision (codes "ff") then in_error else online;
  source = [];
  priority = 0;
}

-- Whether the loop of `parseLSPCI` skips a stanza.
unfoldable pub is_skipped : DeviceInfo → Bool
unfolding is_no_info
is_skipped di =
    is_no_info di || (not (text_eq di.ven_dev_id pf_vdid) && not (text_eq di.ven_dev_id vf_vdid))

unfoldable pub parse_stanzas : List Text → List DeviceState
unfolding parse_device_stanza is_skipped state_of_info
parse_stanzas [] = []
parse_stanzas (dev ∷ devs) =
    let di = parse_device_stanza dev in
    let rest = parse_stanzas devs in if is_skipped di then rest else state_of_info di ∷ rest

-- `parseLSPCI`
unfoldable pub parse_lspci : Text → List DeviceState
unfolding split_by_blank_lines parse_stanzas
parse_lspci output = parse_stanzas (split_by_blank_lines output)

-- `pathEnv`, of the value of PATH, for the message of an error
unfoldable pub path_env : Text → Text
path_env path = if not (text_eq path []) then path else codes "(PATH not set)"

-- What comes of looking up lspci, which may not be on PATH, and of running it.
pub data LspciRun : Type 0 where
  missing : Text → LspciRun
  failed : LspciRun
  printed : Text → LspciRun

abbrev pub lspci_name : Text
lspci_name = codes "lspci"

-- `LSPCIReporter.Collect`
unfoldable pub lspci_collect : LspciRun → Outcome Fault (List DeviceState)
unfolding parse_lspci stamp path_env
lspci_collect (missing path) = err (lspci_not_found (path_env path))
lspci_collect failed = err lspci_failed
lspci_collect (printed out) = ok (stamp (parse_lspci out) lspci_name priority_lspci)

-- `LSPCIReporter`, in a world that shows what lspci does.
abbrev pub lspci_reporter : {W : Type 0} → (W → LspciRun) → Reporter W
lspci_reporter lspci = record {
  name = lspci_name;
  priority = priority_lspci;
  collect = λ w. lspci_collect (lspci w);
}
