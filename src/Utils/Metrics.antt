-- ===== src/Utils/Metrics.antt =====
-- internal/utils/prometheus.go: the gauge of the device states. A series is its labels; each is set
-- to 1, and setting one twice leaves one series.
use spyre_health_checker.Base.{
  ◌≡◌, List, [], ◌∷◌, Text, codes, arith, Bool, true, text_eq, ◌&&◌, if◌then◌else◌, any, ◌||◌,
  text_eq_iff,
}
use spyre_health_checker.Types.{
  DeviceState, PbDeviceType, type_unspecified, vf, pf, PbDeviceState, state_unspecified, offline,
  booting, shutting_down, online, running_diagnostics, in_error, removed, Outcome, ok, err,
}

-- `enumDeviceType`
unfoldable pub enum_device_type : PbDeviceType → Text
enum_device_type pf = codes "PF"
enum_device_type vf = codes "VF"
enum_device_type type_unspecified = codes "UNSPECIFIED"

-- `enumDeviceState`
unfoldable pub enum_device_state : PbDeviceState → Text
enum_device_state offline = codes "OFFLINE"
enum_device_state booting = codes "BOOTING"
enum_device_state shutting_down = codes "SHUTTING_DOWN"
enum_device_state online = codes "ONLINE"
enum_device_state running_diagnostics = codes "RUNNING_DIAGNOSTICS"
enum_device_state in_error = codes "IN_ERROR"
enum_device_state removed = codes "REMOVED"
enum_device_state state_unspecified = codes "UNSPECIFIED"

-- The labels of `newDeviceStateGauge`
pub record Labels : Type 0 where
  pub node : Text
  pub pci_address : Text
  pub devicetype : Text
  pub state : Text
  pub source : Text

-- What `Register` answers for the gauge: it takes the new one, it hands out the one that it has with its
-- series, or it fails.
pub data Registration : Type 0 where
  registered : Registration
  already_registered : List Labels → Registration
  register_failed : Text → Registration

-- `InitMetrics`: the series of the gauge, or the error with which it panics. What `Register` answers for
-- the collectors of Go and of the process is ignored.
unfoldable pub init_metrics : Registration → Outcome Text (List Labels)
init_metrics registered = ok []
init_metrics (already_registered series) = ok series
init_metrics (register_failed e) = err e

unfoldable pub same_labels : Labels → Labels → Bool
unfolding text_eq
same_labels l m =
    text_eq l.node m.node
    && text_eq l.pci_address m.pci_address
    && text_eq l.devicetype m.devicetype
    && text_eq l.state m.state
    && text_eq l.source m.source

unfoldable pub labels_of : Text → DeviceState → Labels
unfolding enum_device_type enum_device_state
labels_of node s = record {
  node = node;
  pci_address = s.pci_address;
  devicetype = enum_device_type s.type;
  state = enum_device_state s.state;
  source = s.source;
}

-- `With(labels).Set(1)`
unfoldable pub set_series : List Labels → Labels → List Labels
unfolding same_labels
set_series [] l = l ∷ []
set_series (m ∷ series) l = if same_labels m l then m ∷ series else m ∷ set_series series l

unfoldable pub set_states : Text → List Labels → List DeviceState → List Labels
unfolding set_series labels_of
set_states node series [] = series
set_states node series (s ∷ states) = set_states node (set_series series (labels_of node s)) states

-- `UpdateDeviceMetrics`, which resets the series of the gauge first
unfoldable pub update_device_metrics : Text → List Labels → List DeviceState → List Labels
unfolding set_states
update_device_metrics node series states = set_states node [] states

abbrev pub has_series : List Labels → Labels → Bool
has_series series l = any (λ m. same_labels m l) series

same_labels-eq : (l m k : Labels) → same_labels l m ≡ true → same_labels l k ≡ same_labels m k
unfolding same_labels
same_labels-eq l m k h = ground (
  arith,
  text_eq_iff l.node m.node,
  text_eq_iff l.pci_address m.pci_address,
  text_eq_iff l.devicetype m.devicetype,
  text_eq_iff l.state m.state,
  text_eq_iff l.source m.source,
)

has_series-set_series :
    (series : List Labels) (m l : Labels)
    → has_series (set_series series m) l ≡ (has_series series l || same_labels m l)
unfolding set_series
has_series-set_series [] m l = ground arith
has_series-set_series (k ∷ series) m l =
    ground (arith, has_series-set_series series m l, same_labels-eq k m l)

has_series-set_states :
    (node : Text) (series : List Labels) (states : List DeviceState) (l : Labels)
    → has_series (set_states node series states) l
      ≡ (has_series series l || any (λ s. same_labels (labels_of node s) l) states)
unfolding set_states
has_series-set_states node series [] l = ground arith
has_series-set_states node series (s ∷ states) l = ground (
  arith,
  has_series-set_states node (set_series series (labels_of node s)) states l,
  has_series-set_series series (labels_of node s) l,
)

-- After an update, the gauge has the series of exactly the given states, whatever it had before.
pub has_series-update_device_metrics :
    (node : Text) (series : List Labels) (states : List DeviceState) (l : Labels)
    → has_series (update_device_metrics node series states) l
      ≡ any (λ s. same_labels (labels_of node s) l) states
unfolding update_device_metrics
has_series-update_device_metrics node series states l = has_series-set_states node [] states l
