-- ===== src/Main/Nominal.antt =====
-- From what lspci prints to what main publishes, in the default configuration.
use mathlib.Core.List.{append-nil}
use mathlib.Core.Option
use spyre_health_checker.Base.{
  ◌≡◌, refl, sym, ap, ◌∙◌, inl, inr, false, Bool-cases, List, [], ◌∷◌, Option, none, some, Text,
  codes, text_eq, text_eq_iff, split, trim_space, map, MapRange, order-All, Dict, All, arith,
}
use spyre_health_checker.Types.{DeviceState, find_state, NodupAddresses, Reporter, priority_lspci}
use spyre_health_checker.Utils.PseudoDevice.{is_pseudo_device_mode}
use spyre_health_checker.Reporter.{stamp}
use spyre_health_checker.Reporter.Lspci.{printed, lspci_name, lspci_collect, lspci_reporter}
use spyre_health_checker.Reporter.Lspci.Splitter.{print_output}
use spyre_health_checker.Reporter.Lspci.Cards.{Card, print_card, IsPrinted, reports}
use spyre_health_checker.Reporter.Lspci.Output.{parse_lspci_roundtrip}
use spyre_health_checker.Reporter.Ras.{ras_collect}
use spyre_health_checker.Reporter.Merge.{merge}
use spyre_health_checker.Reporter.Merge.Verdict.{settle, states_at, collected, collected_by}
use spyre_health_checker.Reporter.Merge.Result.{find_state-merge}
use spyre_health_checker.Reporter.Merge.Errors.{failures, failed_by}
use spyre_health_checker.Healthcheck.{StatRace, check_driver, update_states}
use spyre_health_checker.Healthcheck.Publish.{
  update_states_succeeding, find_state-update_driver_status,
}
use spyre_health_checker.Main.{Host, host_ras, build_reporters, device_reporters}

find_state-absent :
    (a : Text) (ss : List DeviceState) → find_state a ss ≡ none → states_at a ss ≡ []
unfolding find_state
find_state-absent a [] h = refl
find_state-absent a (s ∷ ss) h = ground (arith, find_state-absent a ss)

-- Of states with distinct addresses, there is one at most to settle on.
settle-distinct :
    (a : Text) (ss : List DeviceState)
    → NodupAddresses ss
    → settle none (states_at a ss) ≡ find_state a ss
unfolding find_state
settle-distinct a [] u = refl
settle-distinct a (s ∷ ss) (fresh, u) = elim (Bool-cases (text_eq s.pci_address a)) [
  | inl e ↦
      rw
        (
          e,
          find_state-absent a ss
              (ap (λ b. find_state b ss) (sym ((text_eq_iff s.pci_address a).0 e)) ∙ fresh),
        )
        refl
  | inr e ↦ rw e (settle-distinct a ss u)
]

-- The state of a device as the lspci reporter stamps it.
abbrev pub as_lspci : DeviceState → DeviceState
as_lspci s = record s { source = lspci_name; priority = priority_lspci }

find_state-stamp :
    (a : Text) (ss : List DeviceState)
    → find_state a (stamp ss lspci_name priority_lspci) ≡ Option.map as_lspci (find_state a ss)
unfolding find_state stamp
find_state-stamp a [] = refl
find_state-stamp a (s ∷ ss) = elim (Bool-cases (text_eq s.pci_address a)) [
  | inl e ↦ rw e refl
  | inr e ↦ rw e (find_state-stamp a ss)
]

stamp-NodupAddresses :
    (ss : List DeviceState)
    → NodupAddresses ss
    → NodupAddresses (stamp ss lspci_name priority_lspci)
unfolding stamp
stamp-NodupAddresses [] u = tt
stamp-NodupAddresses (s ∷ ss) (fresh, u) =
    (find_state-stamp s.pci_address ss ∙ ap (Option.map as_lspci) fresh, stamp-NodupAddresses ss u)

no_entries : (d : Dict DeviceState) → All (λ e. ⊥) d → d ≡ []
no_entries [] h = refl
no_entries (e ∷ d) h = absurd h.0

default_reporters :
    (mode arch : Text)
    → is_pseudo_device_mode mode ≡ false
    → build_reporters mode arch (codes "lspci")
      ≡ lspci_reporter (λ host. host.lspci) ∷ host_ras ∷ []
unfolding build_reporters device_reporters split trim_space text_eq
default_reporters mode arch h = rw (h, device_reporters) refl

module _ (host : Host) (cards : List Card)
    (prints : host.lspci ≡ printed (print_output (map print_card cards)))
    (no_errors : host.ras.errors ≡ []) (well_formed : All IsPrinted cards) where
  abbrev default : List (Reporter Host)
  default = lspci_reporter (λ host. host.lspci) ∷ host_ras ∷ []

  ras_silent : collected_by host host_ras ≡ []
  unfolding collected_by ras_collect stamp
  ras_silent =
      rw (no_errors, no_entries (host.range.order []) (order-All host.range (λ e. ⊥) [] tt)) refl

  lspci_says :
      collected_by host (lspci_reporter (λ host. host.lspci))
      ≡ stamp (reports cards) lspci_name priority_lspci
  unfolding collected_by lspci_collect
  lspci_says = rw (prints, parse_lspci_roundtrip cards well_formed) refl

  collected-default : collected host default ≡ stamp (reports cards) lspci_name priority_lspci
  collected-default =
      rw (lspci_says, ras_silent) (append-nil (stamp (reports cards) lspci_name priority_lspci))

  none_fails : failures host default ≡ []
  unfolding failed_by lspci_collect ras_collect
  none_fails = rw prints refl

Option-map-map :
    {A B C : Type 0} (f : A → B) (g : B → C) (o : Option A)
    → Option.map g (Option.map f o) ≡ Option.map (λ x. g (f x)) o
Option-map-map f g none = refl
Option-map-map f g (some x) = refl

-- On a host without pseudo devices, with the lspci reporter only and no RAS error, a refresh publishes for each
-- address what the header says that lspci prints of the card with this address, and nothing if it prints none;
-- the state is an error if the driver of the card is not found in time. The cards that are reported have
-- distinct addresses, and lspci prints well-formed headers.
pub published_from_lspci :
    (mode arch : Text) (stat : Text → StatRace) (range : MapRange DeviceState) (host : Host)
    (states : List DeviceState) (cards : List Card) (a : Text)
    → is_pseudo_device_mode mode ≡ false
    → host.lspci ≡ printed (print_output (map print_card cards))
    → host.ras.errors ≡ []
    → All IsPrinted cards
    → NodupAddresses (reports cards)
    → find_state a
        (update_states stat range host (record {
          states = states;
          reporters = build_reporters mode arch (codes "lspci");
        })).0.states
      ≡ Option.map (λ s. check_driver stat (as_lspci s)) (find_state a (reports cards))
published_from_lspci mode arch stat range host states cards a real prints no_errors ok distinct =
    let stamped = stamp (reports cards) lspci_name priority_lspci in
    let default = lspci_reporter (λ host. host.lspci) ∷ host_ras ∷ [] in
    rw (default_reporters mode arch real) (
      rw
        (update_states_succeeding stat range host (record { states = states; reporters = default })
          (none_fails host cards prints no_errors ok))
        (find_state-update_driver_status stat a (merge host range default).0
          ∙ ap (Option.map (check_driver stat)) (
              find_state-merge host range default a
              ∙ ap (λ ss. settle none (states_at a ss))
                  (collected-default host cards prints no_errors ok)
              ∙ settle-distinct a stamped (stamp-NodupAddresses (reports cards) distinct)
              ∙ find_state-stamp a (reports cards))
          ∙ Option-map-map as_lspci (check_driver stat) (find_state a (reports cards))))
