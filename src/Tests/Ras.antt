-- ===== src/Tests/Ras.antt =====
-- A pod that fails with a RAS error in its log, and the reporters that see it.
use spyre_health_checker.Base.{
  ◌≡◌, ◌↔◌, ◌⊎◌, refl, inl, true, false, List, [], ◌∷◌, none, some, Text, codes, in_order, All, Any,
  text_eq, lookup, contains, has_prefix,
}
use spyre_health_checker.Regexp.{find_submatch, hex, octal, group_of}
use spyre_health_checker.Reporter.Ras.Logs.{is_empty}
use spyre_health_checker.Reporter.Ras.Naming.{NamesSen, extract_iff}
use spyre_health_checker.Scanner.{scan_lines}
use spyre_health_checker.Types.{DeviceState, is_online, find_state, ok, err}
use spyre_health_checker.Reporter.Merge.{merge}
use spyre_health_checker.Reporter.Lspci
use spyre_health_checker.Reporter.Ras.{RasReporter, new_ras_reporter, add_ras_error}
use spyre_health_checker.Reporter.Ras.Pods.{Pod, Cluster, other_error, skip_pod}
use spyre_health_checker.Reporter.Ras.Logs.{
  scan_log, scan_stream, next_pci, contains_ras_error, extract_sen_pci_address,
}
use spyre_health_checker.Reporter.Ras.Watch.{
  Event, added, Cycle, start, handle_events, is_change, crash_looping,
}
use spyre_health_checker.Reporter.Ras.Blame.{Known, Blamed, scan_log-Known}
use spyre_health_checker.Reporter.Ras.Evidence.{Accuses, handle_events-Known, start-Known}
use spyre_health_checker.Reporter.Ras.Address.{IsRecord, start-IsRecord}
use spyre_health_checker.Main.{Host, build_reporters}
use spyre_health_checker.Main.Safety.{ras_error_wins}
use spyre_health_checker.Tests.Merge.{card}

abbrev ras_log : Text
ras_log =
    codes
      "Reusing PfInterface forSEN:VFIO:TYPE1:1a:00.0, usage = 2\n{\"name\":\"RAS::PT\",\"severity\":\"ERROR\"}\n"

abbrev pod : Pod
pod = record {
  namespace = codes "jobs";
  name = codes "train";
  phase = codes "Failed";
  containers = record { name = codes "main"; requests = codes "ibm.com/spyre_pf" ∷ [] } ∷ [];
  container_statuses = [];
  resource_claims = [];
  resource_claim_statuses = [];
  extended_resource_claim = none;
}

abbrev cluster : Cluster
cluster = record {
  get_claim = λ namespace name. err other_error;
  get_logs = λ namespace name opts. ok ras_log;
}

abbrev event : Event
event = record { type = added; object = some pod; cluster = cluster }

abbrev pub cycles : List Cycle
cycles = record { watch = ok (event ∷ []); is_done = true } ∷ []

abbrev watched : RasReporter
watched = start new_ras_reporter cycles

card-Blamed : Blamed [] card (scan_lines ras_log)
unfolding scan_lines contains_ras_error contains next_pci extract_sen_pci_address find_submatch hex
    octal group_of
card-Blamed = (
  codes "Reusing PfInterface forSEN:VFIO:TYPE1:1a:00.0, usage = 2" ∷ [],
  codes "{\"name\":\"RAS::PT\",\"severity\":\"ERROR\"}",
  [],
  refl,
  refl,
  refl,
  refl,
)

scan_log-Known_example :
    Known card (scan_log [] [] (scan_lines ras_log))
    ↔ (Known card [] ⊎ Blamed [] card (scan_lines ras_log))
scan_log-Known_example = scan_log-Known [] card (scan_lines ras_log) []

handle_events-Known_example :
    Known card (handle_events new_ras_reporter (event ∷ [])).errors
    ↔ (Known card new_ras_reporter.errors ⊎ Any (Accuses none card) (event ∷ []))
handle_events-Known_example = handle_events-Known card new_ras_reporter (event ∷ [])

event-Accuses : Accuses none card event
unfolding is_change skip_pod text_eq has_prefix crash_looping
event-Accuses = (pod, refl, refl, refl, inl (refl, (ras_log, refl, card-Blamed)))

pub card-Known : Known card watched.errors
unfolding lookup start skip_pod text_eq has_prefix scan_stream scan_lines contains_ras_error
    contains extract_sen_pci_address find_submatch hex octal group_of add_ras_error
card-Known = refl

start-Known_example : Known card (start watched cycles).errors
start-Known_example = start-Known card watched cycles (card-Known)

start-IsRecord_example : All IsRecord watched.errors
start-IsRecord_example = start-IsRecord new_ras_reporter cycles refl

abbrev pub host : Host
host = record {
  lspci = Lspci.printed (codes "1a:00.0 1014:06a7 (rev 02)");
  sidecar = record {
    key_pair_loads = false;
    ca_file = none;
    has_certificate = λ pem. false;
    dials = false;
  };
  stub = λ slot. err (codes "unavailable");
  ras = watched;
  range = in_order;
}

ras_error_wins_example :
    (s : DeviceState) × (find_state card
        (merge host in_order (build_reporters [] (codes "amd64") (codes "lspci"))).0
      ≡ some s)
    × (is_online s.state ≡ false)
ras_error_wins_example =
    ras_error_wins [] (codes "amd64") (codes "lspci") in_order host new_ras_reporter cycles card
      refl refl card-Known

extract_iff_example :
    (is_empty (extract_sen_pci_address (codes "using SEN:VFIO:TYPE1:1a:00.0")) ≡ false)
    ↔ NamesSen (codes "using SEN:VFIO:TYPE1:1a:00.0")
extract_iff_example = extract_iff (codes "using SEN:VFIO:TYPE1:1a:00.0")
