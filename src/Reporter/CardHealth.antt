-- ===== src/Reporter/CardHealth.antt =====
-- internal/reporter/cardmgmt_client.go: the client of the aiu-cardmgmt-health-api sidecar. The files
-- with the credentials, the dialling and the replies to GetCardHealth are arguments.
pub mod Slots
pub mod Deadline
use spyre_health_checker.Base.{
  ℕ, zero, suc, ◌+◌, ◌-◌, ◌*◌, ◌≤◌, ◌≡◌, refl, ◌⊎◌, inl, inr, Bool, true, false, not, List, [], ◌∷◌,
  ◌++◌, Option, none, some, Text, codes, text_eq, if◌then◌else◌, ◌<|>◌, length, ◌==◌, arith, All,
}
use spyre_health_checker.Types.{
  DeviceState, PbDeviceState, online, in_error, pf, Outcome, ok, err, Fault, load_client_cert,
  read_ca, no_valid_ca, dial,
}

-- `time.Second`, in nanoseconds
abbrev pub second : ℕ
second = 1000000000

-- `defaultCardHealthTimeout`
abbrev pub default_card_health_timeout : ℕ
default_card_health_timeout = 10 * second

-- `CardHealthClient`
pub record CardHealthClient : Type 0 where
  pub socket_path : Text
  pub timeout : ℕ
  pub tls_cert_path : Text
  pub tls_key_path : Text
  pub tls_ca_path : Text
  pub tls_server_name : Text
  pub debug : Bool

-- `NewCardHealthClient`
unfoldable pub new_card_health_client : Text → Text → Text → Text → Text → CardHealthClient
new_card_health_client socket_path tls_cert_path tls_key_path tls_ca_path tls_server_name = record {
  socket_path = socket_path;
  timeout = default_card_health_timeout;
  tls_cert_path = tls_cert_path;
  tls_key_path = tls_key_path;
  tls_ca_path = tls_ca_path;
  tls_server_name = tls_server_name;
  debug = false;
}

-- `SetDebug`
unfoldable pub set_debug : CardHealthClient → Bool → CardHealthClient
set_debug c enabled = record c { debug = enabled }

-- What the client finds on disk and at the socket: whether the key pair loads, the bytes of the CA
-- file if it can be read, whether these hold a certificate, and whether dialling succeeds.
pub record Peer : Type 0 where
  pub key_pair_loads : Bool
  pub ca_file : Option Text
  pub has_certificate : Text → Bool
  pub dials : Bool

-- `GetCardHealthResponse`, with the code and the message of its error, which may be nil.
pub record GetCardHealthResponse : Type 0 where
  pub health : Text
  pub error : Option (Text × Text)

-- A call of GetCardHealth gives an RPC error or a response.
abbrev pub Rpc : Type 0
Rpc = Outcome Text GetCardHealthResponse

-- `buildMTLSCredentials`
unfoldable pub build_mtls_credentials : Peer → Outcome Fault (Unit {0})
build_mtls_credentials p =
    if p.key_pair_loads
    then elim p.ca_file [
      | none ↦ err read_ca
      | some ca_pem ↦ if p.has_certificate ca_pem then ok tt else err no_valid_ca
    ]
    else err load_client_cert

-- The three results of `querySlot`: a state, a sidecar error, an RPC error.
pub data SlotResult : Type 0 where
  answered : DeviceState → SlotResult
  sidecar_error : Text → SlotResult
  rpc_error : Text → SlotResult

unfoldable pub is_sidecar_error : Option (Text × Text) → Bool
is_sidecar_error none = false
is_sidecar_error (some (error_code, message)) = not (text_eq error_code [])

-- `fmt.Sprintf("code=%s msg=%s", …)`
unfoldable pub sidecar_message : Option (Text × Text) → Text
sidecar_message none = []
sidecar_message (some (error_code, message)) =
    codes "code=" ++ (error_code ++ (codes " msg=" ++ message))

-- `querySlot`, of the reply to its call. The state is stamped later.
unfoldable pub query_slot : Text → Rpc → SlotResult
unfolding is_sidecar_error sidecar_message
query_slot slot (err e) = rpc_error e
query_slot slot (ok resp) =
    if is_sidecar_error resp.error
    then sidecar_error (sidecar_message resp.error)
    else answered (record {
      pci_address = slot;
      type = pf;
      state = if text_eq resp.health (codes "healthy") then online else in_error;
      source = [];
      priority = 0;
    })

-- The variables of the loop in `CollectForSlots`.
pub record SlotLoop : Type 0 where
  pub states : List DeviceState
  pub first_rpc_err : Option Text
  pub first_sidecar_err : Option Text

unfoldable pub add_slot : SlotLoop → SlotResult → SlotLoop
add_slot c (answered s) = record c { states = c.states ++ s ∷ [] }
add_slot c (sidecar_error m) = record c { first_sidecar_err = c.first_sidecar_err <|> some m }
add_slot c (rpc_error e) = record c { first_rpc_err = c.first_rpc_err <|> some e }

-- The warning that `logSkipped` prints: how many of how many slots, and the first error.
pub data SkipWarning : Type 0 where
  skipped_rpc skipped_sidecar : ℕ → ℕ → Text → SkipWarning

unfoldable pub skip_warning : ℕ → ℕ → Option Text → Option Text → Option SkipWarning
skip_warning skipped total (some e) sidecar_err = some (skipped_rpc skipped total e)
skip_warning skipped total none (some m) = some (skipped_sidecar skipped total m)
skip_warning skipped total none none = none

-- `logSkipped`
unfoldable pub log_skipped : ℕ → ℕ → Option Text → Option Text → Option SkipWarning
unfolding skip_warning
log_skipped total succeeded rpc_err sidecar_err =
    if total - succeeded == 0
    then none
    else skip_warning (total - succeeded) total rpc_err sidecar_err

abbrev pub no_slots : SlotLoop
no_slots = record { states = []; first_rpc_err = none; first_sidecar_err = none }

module _ (stub : Text → Rpc) where
  unfoldable pub collect_slots : SlotLoop → List Text → SlotLoop
  unfolding add_slot query_slot
  collect_slots c [] = c
  collect_slots c (slot ∷ slots) = collect_slots (add_slot c (query_slot slot (stub slot))) slots

  -- The states of all slots, and the warning that is printed.
  unfoldable pub collection : List Text → List DeviceState × Option SkipWarning
  unfolding collect_slots log_skipped
  collection slots =
      let c = collect_slots no_slots slots in
      (c.states, log_skipped (length slots) (length c.states) c.first_rpc_err c.first_sidecar_err)

  -- `CollectForSlots`
  unfoldable pub collect_for_slots :
      Peer → List Text → Outcome Fault (List DeviceState × Option SkipWarning)
  unfolding build_mtls_credentials collection
  collect_for_slots p slots = elim (build_mtls_credentials p) [
    | err e ↦ err e
    | ok creds ↦ if p.dials then ok (collection slots) else err dial
  ]
