-- ===== src/Reporter/Ras/Blame.antt =====
-- Which addresses the scan of a log records: those of the last SEN line at some RAS error.
use spyre_health_checker.Base.{
  ◌≡◌, refl, sym, ap, ◌∙◌, ◌⊎◌, inl, inr, ◌↔◌, true, false, not, ◌&&◌, List, [], ◌∷◌, ◌++◌, some,
  Text, text_eq_iff, if◌then◌else◌, Dict, lookup, lookup-insert, arith, iff_step, iff_none,
  iff_right, iff_sym,
}
use spyre_health_checker.Types.{DeviceState}
use spyre_health_checker.Reporter.Ras.{ras_error, add_ras_error}
use spyre_health_checker.Reporter.Ras.Logs.{next_pci, contains_ras_error, is_empty, scan_log}

-- The address is recorded.
abbrev pub Known : Text → Dict DeviceState → Type 0
Known a errors = lookup a errors ≡ some (ras_error a)

-- The last address that the lines name, if they name one.
abbrev pub last_sen : Text → List Text → Text
last_sen last [] = last
last_sen last (line ∷ lines) = last_sen (next_pci last line) lines

-- Some line is a RAS error, and the last address up to it, itself included, is this one.
abbrev pub Blamed : Text → Text → List Text → Type 0
Blamed last a lines =
    (before : List Text) × (line : Text) × (after : List Text) × (lines ≡ before ++ line ∷ after)
    × (contains_ras_error line ≡ true)
    × (next_pci (last_sen last before) line ≡ a)
    × (is_empty a ≡ false)

-- The line itself is one.
abbrev Names : Text → Text → Text → Type 0
Names last a line =
    (contains_ras_error line ≡ true) × (next_pci last line ≡ a) × (is_empty a ≡ false)

Blamed-cons :
    (last a line : Text) (lines : List Text)
    → Blamed last a (line ∷ lines) ↔ (Names last a line ⊎ Blamed (next_pci last line) a lines)
Blamed-cons last a line lines = (to, from)
  where
    to : Blamed last a (line ∷ lines) → Names last a line ⊎ Blamed (next_pci last line) a lines
    to ([], x, after, e, c, p, n) =
        let q : x ≡ line = cc in
        inl (ap contains_ras_error (sym q) ∙ c, ap (next_pci last) (sym q) ∙ p, n)
    to (y ∷ before, x, after, e, c, p, n) =
        let q : line ≡ y = cc in
        inr (
          before,
          x,
          after,
          cc,
          c,
          ap (λ z. next_pci (last_sen (next_pci last z) before) x) q ∙ p,
          n,
        )

    from : Names last a line ⊎ Blamed (next_pci last line) a lines → Blamed last a (line ∷ lines)
    from (inl (c, p, n)) = ([], line, lines, refl, c, p, n)
    from (inr (before, x, after, e, c, p, n)) = (line ∷ before, x, after, ap (◌∷◌ line) e, c, p, n)

-- One round of the loop.
line-Known :
    (last a line : Text) (errors : Dict DeviceState)
    → Known a (
        if contains_ras_error line && not (is_empty (next_pci last line))
        then add_ras_error (next_pci last line) errors
        else errors)
      ↔ (Known a errors ⊎ Names last a line)
unfolding add_ras_error
line-Known last a line errors = ground (
  arith,
  text_eq_iff (next_pci last line) a,
  lookup-insert a (next_pci last line) (ras_error (next_pci last line)) errors,
)

nil-Blamed : (last a : Text) → Blamed last a [] → ⊥
nil-Blamed last a ([], x, after, e, c, p, n) = cc
nil-Blamed last a (y ∷ before, x, after, e, c, p, n) = cc

-- The scan of lines records an address exactly if it is recorded already, or some line is a RAS
-- error and the last address named up to that line, the line itself included, is this one.
pub scan_log-Known :
    (last a : Text) (lines : List Text) (errors : Dict DeviceState)
    → Known a (scan_log last errors lines) ↔ (Known a errors ⊎ Blamed last a lines)
unfolding scan_log
scan_log-Known last a [] errors = iff_none (nil-Blamed last a)
scan_log-Known last a (line ∷ lines) errors =
    iff_right
      (iff_step
        (scan_log-Known (next_pci last line) a lines (
          if contains_ras_error line && not (is_empty (next_pci last line))
          then add_ras_error (next_pci last line) errors
          else errors))
        (line-Known last a line errors))
      (iff_sym (Blamed-cons last a line lines))
