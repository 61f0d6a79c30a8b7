-- ===== src/Reporter/Ras/Logs.antt =====
-- internal/reporter/ras.go: how the lines of a container's log are scanned.
use spyre_health_checker.Base.{
  ℕ, Bool, true, false, not, ◌&&◌, List, [], ◌∷◌, ◌++◌, none, some, Text, codes, contains,
  if◌then◌else◌, ◌==◌, length, Dict,
}
use spyre_health_checker.Regexp.{
  Regexp, cat, group, opt, seq, exact, literal, hex, octal, find_submatch, group_of,
}
use spyre_health_checker.Scanner.{scan_lines}
use spyre_health_checker.Types.{DeviceState}
use spyre_health_checker.Reporter.Ras.{add_ras_error}

-- The address in `senPCIRe`, whose digits are in lower case.
abbrev pub sen_domain : List (ℕ → Bool)
sen_domain = hex ∷ hex ∷ hex ∷ hex ∷ exact b':' ∷ []

abbrev pub sen_slot : List (ℕ → Bool)
sen_slot = hex ∷ hex ∷ exact b':' ∷ hex ∷ hex ∷ exact b'.' ∷ octal ∷ []

abbrev pub sen_prefix : Text
sen_prefix = codes "SEN:VFIO:TYPE1:"

-- `senPCIRe`
abbrev pub sen_pci_re : Regexp
sen_pci_re = cat (literal sen_prefix) (group 1 (cat (opt (seq sen_domain)) (seq sen_slot)))

unfoldable pub normalised : Text → Text
normalised addr = if length addr == 7 then codes "0000:" ++ addr else addr

-- `extractSENPCIAddress`
unfoldable pub extract_sen_pci_address : Text → Text
unfolding normalised
extract_sen_pci_address line = elim (find_submatch sen_pci_re line) [
  | none ↦ []
  | some c ↦ normalised (group_of 1 c.groups)
]

-- `containsRASError`
unfoldable pub contains_ras_error : Text → Bool
contains_ras_error line =
    contains line (codes "\"name\":\"RAS::") && contains line (codes "\"severity\":\"ERROR\"")

abbrev pub is_empty : Text → Bool
is_empty [] = true
is_empty (x ∷ s) = false

-- The address that holds after a line.
unfoldable pub next_pci : Text → Text → Text
next_pci last_pci line =
    let pci = extract_sen_pci_address line in if is_empty pci then last_pci else pci

-- The loop of `scanLines`.
unfoldable pub scan_log : Text → Dict DeviceState → List Text → Dict DeviceState
unfolding next_pci
scan_log last_pci errors [] = errors
scan_log last_pci errors (line ∷ lines) =
    let pci = next_pci last_pci line in
    scan_log pci
      (if contains_ras_error line && not (is_empty pci) then add_ras_error pci errors else errors)
      lines

-- `scanLines`
unfoldable pub scan_stream : Dict DeviceState → Text → Dict DeviceState
unfolding scan_log
scan_stream errors text = scan_log [] errors (scan_lines text)
