-- ===== src/Reporter/Lspci/Details.antt =====
-- internal/reporter/lspci.go: what is read from the other lines of a device's stanza.
use spyre_health_checker.Base.{
  Bool, true, false, not, ◌&&◌, ◌||◌, List, [], ◌∷◌, none, some, Text, codes, text_eq, has_prefix,
  contains, trim_space, to_lower, to_upper, map, if◌then◌else◌, ◌==◌,
}
use spyre_health_checker.Regexp.{
  Regexp, one, cat, alt, star, lazy_star, group, begin_text, word_boundary, opt, plus, folded,
  same_fold, blank, not_blank, digit, Cursor, find_submatch, find_all, group_of,
}
use spyre_health_checker.Scanner.{scan_lines}

pub record BitValue : Type 0 where
  pub present : Bool
  pub enabled : Bool

pub record DeviceInfo : Type 0 where
  pub pci_address : Text
  pub ven_dev_id : Text
  pub revision : Text
  pub perr : BitValue
  pub serr : BitValue
  pub tabort : BitValue
  pub mabort : BitValue
  pub dstate : Text
  pub dev_sta_fatal : Bool
  pub kernel_driver : Text

abbrev no_bit : BitValue
no_bit = record { present = false; enabled = false }

-- `deviceInfo{}`
abbrev pub no_info : DeviceInfo
no_info = record {
  pci_address = [];
  ven_dev_id = [];
  revision = [];
  perr = no_bit;
  serr = no_bit;
  tabort = no_bit;
  mabort = no_bit;
  dstate = [];
  dev_sta_fatal = false;
  kernel_driver = [];
}

abbrev bit_is_zero : BitValue → Bool
bit_is_zero b = not b.present && not b.enabled

-- `di == (deviceInfo{})`
unfoldable pub is_no_info : DeviceInfo → Bool
is_no_info di =
    text_eq di.pci_address []
    && text_eq di.ven_dev_id []
    && text_eq di.revision []
    && bit_is_zero di.perr
    && bit_is_zero di.serr
    && bit_is_zero di.tabort
    && bit_is_zero di.mabort
    && text_eq di.dstate []
    && not di.dev_sta_fatal
    && text_eq di.kernel_driver []

-- `errTokenRe`
abbrev pub err_token_re : Regexp
err_token_re = cat (opt (one (λ c. c == b'<' || c == b'>'))) (
    cat
      (group 1 (
        alt (folded (codes "perr"))
          (alt (folded (codes "serr")) (alt (folded (codes "tabort")) (folded (codes "mabort"))))))
      (group 2 (one (λ c. c == b'+' || c == b'-'))))

-- `fatalRe`
abbrev pub fatal_re : Regexp
fatal_re =
    cat word_boundary
      (cat (folded (codes "fatalerr")) (group 1 (one (λ c. c == b'+' || c == b'-'))))

-- `pmStatusRe`
abbrev pub pm_status_re : Regexp
pm_status_re = cat word_boundary (
    cat (folded (codes "status:")) (
      cat (star (one blank)) (
        cat (group 1 (cat (one (same_fold b'd')) (cat (one digit) (lazy_star (one digit)))))
          word_boundary)))

-- `driverRe`
abbrev pub driver_re : Regexp
driver_re = cat begin_text (
    cat (star (one blank)) (
      cat (folded (codes "kernel driver in use:"))
        (cat (star (one blank)) (group 1 (plus (one not_blank))))))

-- Duplicates of a token are joined by OR.
abbrev seen : BitValue → Bool → BitValue
seen b sign = record { present = true; enabled = b.enabled || sign }

-- One round of the loop over the tokens of a status line.
unfoldable pub add_token : DeviceInfo → Cursor → DeviceInfo
add_token di c =
    let name = map to_upper (group_of 1 c.groups) in
    let sign = text_eq (group_of 2 c.groups) (codes "+") in
    if text_eq name (codes "PERR")
    then record di { perr = seen di.perr sign }
    else if text_eq name (codes "SERR")
    then record di { serr = seen di.serr sign }
    else if text_eq name (codes "TABORT")
    then record di { tabort = seen di.tabort sign }
    else if text_eq name (codes "MABORT")
    then record di { mabort = seen di.mabort sign }
    else di

unfoldable pub add_tokens : DeviceInfo → List Cursor → DeviceInfo
unfolding add_token
add_tokens di [] = di
add_tokens di (c ∷ cs) = add_tokens (add_token di c) cs

-- The first power state is kept.
unfoldable pub add_dstate : DeviceInfo → Text → DeviceInfo
add_dstate di line =
    if text_eq di.dstate []
    then elim (find_submatch pm_status_re line) [
      | none ↦ di
      | some c ↦ record di { dstate = group_of 1 c.groups }
    ]
    else di

unfoldable pub add_status : DeviceInfo → Text → DeviceInfo
unfolding add_tokens add_dstate
add_status di line =
    if has_prefix (map to_lower (trim_space line)) (codes "status:")
    then add_dstate (add_tokens di (find_all err_token_re none 0 line)) line
    else di

unfoldable pub add_dev_sta : DeviceInfo → Text → DeviceInfo
add_dev_sta di line =
    if contains (map to_lower line) (codes "devsta:")
    then elim (find_submatch fatal_re line) [
      | none ↦ di
      | some c ↦ record di { dev_sta_fatal = text_eq (group_of 1 c.groups) (codes "+") }
    ]
    else di

unfoldable pub add_driver : DeviceInfo → Text → DeviceInfo
add_driver di line = elim (find_submatch driver_re line) [
  | none ↦ di
  | some c ↦ record di { kernel_driver = trim_space (group_of 1 c.groups) }
]

-- One round of the loop over the lines.
unfoldable pub add_line : DeviceInfo → Text → DeviceInfo
unfolding add_status add_dev_sta add_driver
add_line di line = add_driver (add_dev_sta (add_status di line) line) line

unfoldable pub add_lines : DeviceInfo → List Text → DeviceInfo
unfolding add_line
add_lines di [] = di
add_lines di (line ∷ lines) = add_lines (add_line di line) lines

-- `parseDetails`
unfoldable pub parse_details : Text → DeviceInfo → DeviceInfo
unfolding add_lines
parse_details stanza di = add_lines di (scan_lines stanza)
