-- ===== src/Client.antt =====
-- cmd/client/client.go: the example client, which logs the devices that the server sends. What it finds on disk and
-- what it receives are arguments.
pub mod Log
use spyre_health_checker.Base.{
  Bool, true, false, List, [], ◌∷◌, ◌++◌, Option, none, some, Text, codes, contains, if◌then◌else◌,
  ◌<|>◌,
}
use spyre_health_checker.Types.{
  PbDeviceType, type_unspecified, vf, pf, PbDeviceState, state_unspecified, offline, booting,
  shutting_down, online, running_diagnostics, in_error, removed, PbDevice, PbDevices, Outcome, ok,
  err, Fault, load_client_cert, read_ca, no_valid_ca, dial,
}
use spyre_health_checker.Reporter.CardHealth.{Peer}
use spyre_health_checker.Main.{get_env_or_default}

-- The flags of the client
pub record ClientFlags : Type 0 where
  pub socket : Text
  pub tls_cert : Text
  pub tls_key : Text
  pub tls_ca : Text
  pub tls_server_name : Text

-- The flags of a command line without arguments, from the values of the environment variables.
unfoldable pub default_client_flags : (Text → Text) → ClientFlags
unfolding get_env_or_default
default_client_flags getenv = record {
  socket = codes "checker.sock";
  tls_cert =
      get_env_or_default (getenv (codes "SPYRE_TLS_CERT"))
        (codes "/etc/spyre-health-checker/certs/tls.crt");
  tls_key =
      get_env_or_default (getenv (codes "SPYRE_TLS_KEY"))
        (codes "/etc/spyre-health-checker/certs/tls.key");
  tls_ca =
      get_env_or_default (getenv (codes "SPYRE_TLS_CA"))
        (codes "/etc/spyre-health-checker/certs/ca.crt");
  tls_server_name =
      get_env_or_default (getenv (codes "SPYRE_TLS_SERVER_NAME")) (codes "spyre-components");
}

-- `sock` in main
unfoldable pub dial_target : Text → Text
unfolding contains
dial_target socket =
    if contains socket (codes "/") then codes "unix://" ++ socket else codes "unix:" ++ socket

-- `logger.Infof("using socket %s", *socket)`
unfoldable pub socket_line : ClientFlags → Text
socket_line flags = codes "using socket " ++ flags.socket

abbrev pub tls_line : Text
tls_line = codes "TLS enabled for client connection "

-- The set-up of the connection: what it logs, and the failure that ends the client. Dialling depends on the target.
unfoldable pub connect : (Text → Peer) → ClientFlags → List Text × Option Fault
unfolding dial_target socket_line
connect peer_at flags =
    let peer = peer_at (dial_target flags.socket) in
    let begun = socket_line flags ∷ [] in
    if peer.key_pair_loads
    then elim peer.ca_file [
      | none ↦ (begun, some read_ca)
      | some ca_cert ↦
          if peer.has_certificate ca_cert
          then (begun ++ tls_line ∷ [], if peer.dials then none else some dial)
          else (begun, some no_valid_ca)
    ]
    else (begun, some load_client_cert)

-- `d.GetDeviceID().GetPCIAddress()`
unfoldable pub get_pci_address : PbDevice → Text
get_pci_address d = elim d.device_id [ none ↦ [] | some a ↦ a ]

-- `DEVICE_TYPE.String`
unfoldable pub device_type_string : PbDeviceType → Text
device_type_string type_unspecified = codes "DEVICE_TYPE_UNSPECIFIED"
device_type_string vf = codes "VF"
device_type_string pf = codes "PF"

-- `DEVICE_STATE.String`
unfoldable pub device_state_string : PbDeviceState → Text
device_state_string state_unspecified = codes "DEVICE_STATE_UNSPECIFIED"
device_state_string offline = codes "OFFLINE"
device_state_string booting = codes "BOOTING"
device_state_string shutting_down = codes "SHUTTING_DOWN"
device_state_string online = codes "ONLINE"
device_state_string running_diagnostics = codes "RUNNING_DIAGNOSTICS"
device_state_string in_error = codes "IN_ERROR"
device_state_string removed = codes "REMOVED"

-- `logger.Infof("  PCIAddress=%s  Type=%s  State=%s", …)`
unfoldable pub device_line : PbDevice → Text
unfolding get_pci_address device_type_string device_state_string
device_line d =
    codes "  PCIAddress="
    ++ (get_pci_address d
        ++ (codes "  Type="
            ++ (device_type_string d.device_type
                ++ (codes "  State=" ++ device_state_string d.device_state))))

unfoldable pub device_lines : List PbDevice → List Text
unfolding device_line
device_lines [] = []
device_lines (d ∷ devices) = device_line d ∷ device_lines devices

abbrev pub no_devices_line : Text
no_devices_line = codes "Query did not identify any supported devices."

-- What the client logs of a message.
unfoldable pub message_lines : PbDevices → List Text
unfolding device_lines
message_lines m = elim m.devices [
  | [] ↦ no_devices_line ∷ []
  | d ∷ devices ↦ device_lines (d ∷ devices)
]

-- What `stream.Recv` gives: a message, the end of the stream, or an error.
pub data Received : Type 0 where
  device_list : PbDevices → Received
  end_of_stream : Received
  recv_failed : Text → Received

-- How the client ends.
pub data ClientEnd : Type 0 where
  finished : ClientEnd
  set_up_failed : Fault → ClientEnd
  register_failed stream_failed : Text → ClientEnd

-- The loop of main: what is logged, and how the client ends if it does.
unfoldable pub receive : List Received → List Text × Option ClientEnd
unfolding message_lines
receive [] = ([], none)
receive (end_of_stream ∷ received) = ([], some finished)
receive (recv_failed e ∷ received) = ([], some (stream_failed e))
receive (device_list m ∷ received) =
    let rest = receive received in (message_lines m ++ rest.0, rest.1)

-- `main`, with the error of the call that registers the client: what it logs at the level of Infof, and how the
-- client ends if it does. A call of Fatalf is its end.
unfoldable pub client_main :
    (Text → Peer) → ClientFlags → Option Text → List Received → List Text × Option ClientEnd
unfolding connect receive
client_main peer_at flags register_error received =
    let set_up = connect peer_at flags in
    let streamed = receive received in
    elim set_up.1 [
      | some f ↦ (set_up.0, some (set_up_failed f))
      | none ↦ elim register_error [
        | some e ↦ (set_up.0, some (register_failed e))
        | none ↦ (set_up.0 ++ streamed.0, streamed.1)
      ]
    ]
