-- ===== src/Reporter/Ras/Address.antt =====
-- The errors that the RAS reporter records are of complete addresses, and in error.
use spyre_health_checker.Base.{
  ◌≡◌, refl, sym, ap, subst, ◌⊎◌, inl, inr, true, false, not, ◌&&◌, Bool-cases, List, [], ◌∷◌, ◌++◌,
  none, Option-cases, Text, codes, if◌then◌else◌, Dict, All, insert-All, arith,
}
use spyre_health_checker.Regexp.{Cursor, group_of, find_submatch, hex}
use spyre_health_checker.Regexp.Shape.{
  fits, fits-append, fits-length, address-fits, Found, find_submatch-Found,
}
use spyre_health_checker.Scanner.{scan_lines}
use spyre_health_checker.Types.{DeviceState}
use spyre_health_checker.Reporter.Ras.{RasReporter, ras_error, add_ras_error}
use spyre_health_checker.Reporter.Ras.Watch.{Cycle, start}
use spyre_health_checker.Reporter.Ras.Invariant.{start_invariant}
use spyre_health_checker.Reporter.Ras.Logs.{
  sen_domain, sen_slot, sen_pci_re, normalised, extract_sen_pci_address, is_empty, next_pci,
  contains_ras_error, scan_log, scan_stream,
}

-- `dddd:bb:dd.f` in lower case.
abbrev pub IsSenAddress : Text → Type 0
IsSenAddress a = fits (sen_domain ++ sen_slot) a ≡ true

normalised-IsSenAddress :
    (s : Text)
    → (fits sen_slot s ≡ true) ⊎ (fits (sen_domain ++ sen_slot) s ≡ true)
    → IsSenAddress (normalised s)
unfolding normalised
normalised-IsSenAddress s (inl f) =
    rw (fits-length sen_slot s f)
      (fits-append sen_domain sen_slot (codes "0000:") s (unfold hex in refl) f)
normalised-IsSenAddress s (inr f) = rw (fits-length (sen_domain ++ sen_slot) s f) f

pub match-IsSenAddress :
    (line : Text) (c : Cursor)
    → Found sen_pci_re none line c
    → IsSenAddress (normalised (group_of 1 c.groups))
unfolding group_of
match-IsSenAddress line c (pre, b, p, g, (d, prefix, pci), first) =
    let (s, f, r, q) = address-fits sen_domain sen_slot d c pci in
    subst (λ x. IsSenAddress (normalised x)) (sym (ap (group_of 1) q)) (normalised-IsSenAddress s f)

extract-IsSenAddress :
    (line : Text)
    → is_empty (extract_sen_pci_address line) ≡ false
    → IsSenAddress (extract_sen_pci_address line)
unfolding extract_sen_pci_address
extract-IsSenAddress line n = elim (Option-cases (find_submatch sen_pci_re line)) [
  | inl e ↦ absurd (ground (arith, rw (e, extract_sen_pci_address) at n))
  | inr (c, e) ↦
      rw (e, extract_sen_pci_address)
        (match-IsSenAddress line c (find_submatch-Found sen_pci_re line c e))
]

-- The last address, if there is one yet.
abbrev IsLast : Text → Type 0
IsLast a = is_empty a ≡ false → IsSenAddress a

next_pci-IsLast : (last line : Text) → IsLast last → IsLast (next_pci last line)
unfolding next_pci
next_pci-IsLast last line h = elim (Bool-cases (is_empty (extract_sen_pci_address line))) [
  | inl e ↦ rw e h
  | inr e ↦ rw e (λ _. extract-IsSenAddress line e)
]

-- An entry of the map of errors.
abbrev pub IsRecord : Text × DeviceState → Type 0
IsRecord (a, s) = (s ≡ ras_error a) × IsSenAddress a

line-IsRecord :
    (pci line : Text) (errors : Dict DeviceState)
    → IsLast pci
    → All IsRecord errors
    → All IsRecord
        (if contains_ras_error line && not (is_empty pci) then add_ras_error pci errors else errors)
unfolding add_ras_error
line-IsRecord pci line errors last h =
    elim (Bool-cases (contains_ras_error line && not (is_empty pci))) [
      | inl e ↦ rw e (insert-All IsRecord pci (ras_error pci) errors (refl, last (ground arith)) h)
      | inr e ↦ rw e h
    ]

scan_log-IsRecord :
    (last : Text) (errors : Dict DeviceState) (lines : List Text)
    → IsLast last
    → All IsRecord errors
    → All IsRecord (scan_log last errors lines)
unfolding scan_log
scan_log-IsRecord last errors [] l h = h
scan_log-IsRecord last errors (line ∷ lines) l h =
    let l' = next_pci-IsLast last line l in
    scan_log-IsRecord (next_pci last line)
      (if contains_ras_error line && not (is_empty (next_pci last line))
        then add_ras_error (next_pci last line) errors
        else errors)
      lines l' (line-IsRecord (next_pci last line) line errors l' h)

-- At every time of the watch, from an empty map of errors on, each recorded error is a PF in error
-- at the address under which it is recorded, and that address has the full form dddd:bb:dd.f, with
-- digits in lower case and an octal function.
pub start-IsRecord :
    (r : RasReporter) (cycles : List Cycle) → r.errors ≡ [] → All IsRecord (start r cycles).errors
unfolding scan_stream
start-IsRecord r cycles e =
    start_invariant (All IsRecord)
      (λ d text. scan_log-IsRecord [] d (scan_lines text) (λ n. absurd (ground arith))) r cycles
      (rw e tt)
