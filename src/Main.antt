-- ===== src/Main.antt =====
-- cmd/health-checker/main.go: the choice of the reporters and one round of the periodic checks.
pub mod Priorities
pub mod Safety
pub mod Refresh
pub mod Flags
pub mod Startup
pub mod Delivery
pub mod Nominal
use spyre_health_checker.Base.{
  ℕ, Bool, true, false, List, [], ◌∷◌, ◌++◌, Option, none, some, Text, codes, text_eq, trim_space,
  split, map, if◌then◌else◌, MapRange,
}
use spyre_health_checker.Types.{DeviceState, Reporter, Outcome, ok, err, Fault}
use spyre_health_checker.Utils.PseudoDevice.{is_pseudo_device_mode}
use spyre_health_checker.Reporter.Lspci.{LspciRun, lspci_collect, lspci_reporter}
use spyre_health_checker.Reporter.Pseudo.{pseudo_reporter}
use spyre_health_checker.Reporter.Cardmgmt.{cardmgmt_reporter}
use spyre_health_checker.Reporter.CardHealth.{Peer, Rpc, collect_for_slots}
use spyre_health_checker.Reporter.Ras.{RasReporter, ras_reporter}

-- What the reporters find when they are asked.
pub record Host : Type 0 where
  pub lspci : LspciRun
  pub sidecar : Peer
  pub stub : Text → Rpc
  pub ras : RasReporter
  pub range : MapRange DeviceState

-- `getEnvOrDefault`, of the value of the variable, empty if it is not set
unfoldable pub get_env_or_default : Text → Text → Text
get_env_or_default value default_value = if text_eq value [] then default_value else value

unfoldable pub slots_of : List DeviceState → List Text
slots_of [] = []
slots_of (s ∷ discovered) = s.pci_address ∷ slots_of discovered

unfoldable pub collect_discovered : Host → List DeviceState → Outcome Fault (List DeviceState)
unfolding slots_of collect_for_slots
collect_discovered host [] = ok []
collect_discovered host (s ∷ discovered) =
    elim (collect_for_slots host.stub host.sidecar (slots_of (s ∷ discovered))) [
      | err e ↦ err e
      | ok r ↦ ok r.0
    ]

-- `CollectFn` of the card management reporter: lspci finds the slots, the sidecar is asked for each.
unfoldable pub discover_and_collect : Host → Outcome Fault (List DeviceState)
unfolding lspci_collect collect_discovered
discover_and_collect host = elim (lspci_collect host.lspci) [
  | err e ↦ err e
  | ok discovered ↦ collect_discovered host discovered
]

-- One round of the loop over the names: an unknown name adds nothing.
unfoldable pub named_reporters : Text → List (Reporter Host)
unfolding discover_and_collect
named_reporters name =
    if text_eq name (codes "lspci")
    then lspci_reporter (λ host. host.lspci) ∷ []
    else if text_eq name (codes "cardmgmt")
    then cardmgmt_reporter (record { collect_fn = some discover_and_collect }) ∷ []
    else []

unfoldable pub reporters_of : List Text → List (Reporter Host)
unfolding named_reporters
reporters_of [] = []
reporters_of (name ∷ names) = named_reporters (trim_space name) ++ reporters_of names

unfoldable pub or_lspci : List (Reporter Host) → List (Reporter Host)
or_lspci [] = lspci_reporter (λ host. host.lspci) ∷ []
or_lspci (rep ∷ reporters) = rep ∷ reporters

abbrev pub host_ras : Reporter Host
host_ras = ras_reporter (λ host. host.range) (λ host. host.ras)

-- The reporters before the RAS reporter, from the value of PSEUDO_DEVICE_MODE, the architecture and the flag.
unfoldable pub device_reporters : Text → Text → Text → List (Reporter Host)
unfolding or_lspci reporters_of
device_reporters mode arch reporter_names =
    if is_pseudo_device_mode mode
    then pseudo_reporter arch ∷ []
    else or_lspci (reporters_of (split b',' (trim_space reporter_names)))

-- `buildReporters`
unfoldable pub build_reporters : Text → Text → Text → List (Reporter Host)
unfolding device_reporters
build_reporters mode arch reporter_names =
    device_reporters mode arch reporter_names ++ host_ras ∷ []
