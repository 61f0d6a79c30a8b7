-- ===== src/Tests/Main.antt =====
-- Refreshes of a host with a RAS error.
use spyre_health_checker.Base.{
  ◌≡◌, refl, [], some, codes, in_order, text_eq, to_lower, map, split, trim_space, false,
}
use spyre_health_checker.Types.{DeviceState, is_online, find_state}
use spyre_health_checker.Healthcheck.{update_states, check_driver}
use spyre_health_checker.Reporter.Merge.Errors.{failed_by}
use spyre_health_checker.Reporter.Ras.{new_ras_reporter, ras_collect}
use spyre_health_checker.Utils.PseudoDevice.{is_pseudo_device_mode}
use mathlib.Core.Option
use spyre_health_checker.Reporter.Lspci.{LspciRun, full_address}
use spyre_health_checker.Reporter.Lspci.Splitter.{print_output}
use spyre_health_checker.Reporter.Lspci.Cards.{print_card, reports}
use spyre_health_checker.Main.Nominal.{as_lspci, published_from_lspci}
use spyre_health_checker.Tests.Lspci.{two_cards, two_cards-IsPrinted}
use spyre_health_checker.Main.{Host, build_reporters}
use spyre_health_checker.Main.Safety.{published_ras_error}
use spyre_health_checker.Tests.Merge.{card}
use spyre_health_checker.Tests.Publish.{all_there}
use spyre_health_checker.Tests.Ras.{host, cycles, card-Known}

published_ras_error_example :
    (s : DeviceState) × (find_state card
        (update_states all_there in_order host (record {
          states = [];
          reporters = build_reporters [] (codes "amd64") (codes "lspci");
        })).0.states
      ≡ some s)
    × (is_online s.state ≡ false)
unfolding build_reporters failed_by is_pseudo_device_mode text_eq split trim_space ras_collect
published_ras_error_example =
    published_ras_error [] (codes "amd64") (codes "lspci") all_there in_order host []
      new_ras_reporter cycles card refl refl card-Known refl

-- The two cards, on a host whose drivers answer.
abbrev plain_host : Host
plain_host = record host {
  lspci = LspciRun.printed (print_output (map print_card two_cards));
  ras = new_ras_reporter;
}

published_from_lspci_example :
    find_state card
      (update_states all_there in_order plain_host (record {
        states = [];
        reporters = build_reporters [] (codes "amd64") (codes "lspci");
      })).0.states
    ≡ Option.map (λ s. check_driver all_there (as_lspci s)) (find_state card (reports two_cards))
unfolding find_state text_eq to_lower is_pseudo_device_mode full_address
published_from_lspci_example =
    published_from_lspci [] (codes "amd64") all_there in_order plain_host [] two_cards card refl
      refl refl two_cards-IsPrinted (refl, (refl, tt))
