-- ===== src/Main/Priorities.antt =====
-- The priorities of the states that the reporters before the RAS reporter collect.
use spyre_health_checker.Base.{
  ℕ, ◌<◌, inl, inr, Bool-cases, List, [], ◌∷◌, some, Text, text_eq, codes, trim_space, split, All,
  All-append, arith,
}
use spyre_health_checker.Types.{
  DeviceState, Reporter, Outcome, ok, err, Fault, priority_ras, priority_lspci, priority_cardmgmt,
}
use spyre_health_checker.Reporter.{stamp}
use spyre_health_checker.Reporter.Merge.Verdict.{collected, collected_by}
use spyre_health_checker.Reporter.Lspci.{lspci_collect, lspci_reporter}
use spyre_health_checker.Reporter.Lspci
use spyre_health_checker.Reporter.Pseudo.{pseudo_collect, pseudo_reporter, pseudo_name}
use spyre_health_checker.Reporter.Cardmgmt.{cardmgmt_collect, cardmgmt_reporter, cardmgmt_name}
use spyre_health_checker.Utils.PseudoDevice.{is_pseudo_device_mode, get_pseudo_device_healths}
use spyre_health_checker.Main.{
  Host, named_reporters, reporters_of, or_lspci, device_reporters, discover_and_collect,
}

-- The state ranks below those of the RAS reporter.
abbrev pub IsLow : DeviceState → Type 0
IsLow s = s.priority < priority_ras

stamp-IsLow :
    (states : List DeviceState) (name : Text) (p : ℕ)
    → p < priority_ras
    → All IsLow (stamp states name p)
unfolding stamp
stamp-IsLow [] name p h = tt
stamp-IsLow (s ∷ states) name p h = (h, stamp-IsLow states name p h)

-- Whatever a reporter collects ranks below.
abbrev CollectsLow : Host → Reporter Host → Type 0
CollectsLow host rep = All IsLow (collected_by host rep)

lspci-CollectsLow : (host : Host) → CollectsLow host (lspci_reporter (λ h. h.lspci))
unfolding collected_by lspci_collect
lspci-CollectsLow host = go host.lspci
  where
    go :
        (run : Lspci.LspciRun)
        → All IsLow (elim (lspci_collect run) [ ok states ↦ states | err e ↦ [] ])
    go (Lspci.missing path) = tt
    go Lspci.failed = tt
    go (Lspci.printed out) = stamp-IsLow _ _ _ (omega arith)

cardmgmt-CollectsLow :
    (host : Host)
    → CollectsLow host (cardmgmt_reporter (record { collect_fn = some discover_and_collect }))
unfolding collected_by cardmgmt_collect
cardmgmt-CollectsLow host = go (discover_and_collect host)
  where
    go :
        (o : Outcome Fault (List DeviceState))
        → All IsLow
            (elim (elim o as (λ _. Outcome Fault (List DeviceState)) [
              | err e ↦ err e
              | ok states ↦ ok (stamp states cardmgmt_name priority_cardmgmt)
            ]) [ ok states ↦ states | err e ↦ [] ])
    go (ok states) = stamp-IsLow states cardmgmt_name priority_cardmgmt (omega arith)
    go (err e) = tt

pseudo-CollectsLow : (host : Host) (arch : Text) → CollectsLow host (pseudo_reporter arch)
unfolding collected_by pseudo_collect
pseudo-CollectsLow host arch =
    stamp-IsLow (get_pseudo_device_healths arch) pseudo_name priority_lspci (omega arith)

named-CollectsLow : (host : Host) (name : Text) → All (CollectsLow host) (named_reporters name)
unfolding named_reporters
named-CollectsLow host name = elim (Bool-cases (text_eq name (codes "lspci"))) [
  | inl e ↦ rw (e, named_reporters) (lspci-CollectsLow host, tt)
  | inr e ↦ elim (Bool-cases (text_eq name (codes "cardmgmt"))) [
    | inl f ↦ rw (e, named_reporters, f) (cardmgmt-CollectsLow host, tt)
    | inr f ↦ rw (e, named_reporters, f) tt
  ]
]

reporters-CollectsLow :
    (host : Host) (names : List Text) → All (CollectsLow host) (reporters_of names)
unfolding reporters_of
reporters-CollectsLow host [] = tt
reporters-CollectsLow host (name ∷ names) =
    All-append (CollectsLow host) (named_reporters (trim_space name)) (reporters_of names)
      (named-CollectsLow host (trim_space name)) (reporters-CollectsLow host names)

or_lspci-CollectsLow :
    (host : Host) (reporters : List (Reporter Host))
    → All (CollectsLow host) reporters
    → All (CollectsLow host) (or_lspci reporters)
unfolding or_lspci
or_lspci-CollectsLow host [] h = (lspci-CollectsLow host, tt)
or_lspci-CollectsLow host (rep ∷ reporters) h = h

device_reporters-CollectsLow :
    (host : Host) (mode arch reporter_names : Text)
    → All (CollectsLow host) (device_reporters mode arch reporter_names)
unfolding device_reporters
device_reporters-CollectsLow host mode arch names = elim (Bool-cases (is_pseudo_device_mode mode)) [
  | inl e ↦ rw (e, device_reporters) (pseudo-CollectsLow host arch, tt)
  | inr e ↦
      rw (e, device_reporters)
        (or_lspci-CollectsLow host _ (reporters-CollectsLow host (split b',' (trim_space names))))
]

collected-IsLow :
    (host : Host) (reporters : List (Reporter Host))
    → All (CollectsLow host) reporters
    → All IsLow (collected host reporters)
collected-IsLow host [] h = tt
collected-IsLow host (rep ∷ reporters) (h, hs) =
    All-append IsLow (collected_by host rep) (collected host reporters) h
      (collected-IsLow host reporters hs)

pub device_reporters-IsLow :
    (host : Host) (mode arch reporter_names : Text)
    → All IsLow (collected host (device_reporters mode arch reporter_names))
device_reporters-IsLow host mode arch names =
    collected-IsLow host (device_reporters mode arch names)
      (device_reporters-CollectsLow host mode arch names)
