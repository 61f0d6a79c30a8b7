-- ===== src/Client/Log.antt =====
-- cmd/client/client.go: what the log of the client tells of the messages.
use spyre_health_checker.Base.{
  ℕ, ◌≡◌, refl, ap, ◌∙◌, false, List, [], ◌∷◌, ◌++◌, none, some, Text, codes, text_eq, Bool,
  has_prefix, if◌then◌else◌, ◌==◌, All, any, map, subst, sym, arith,
}
use spyre_health_checker.Types.{
  PbDeviceType, type_unspecified, vf, pf, PbDeviceState, state_unspecified, offline, booting,
  shutting_down, online, running_diagnostics, in_error, removed, PbDevice, PbDevices,
}
use spyre_health_checker.Reporter.CardHealth.{Peer}
use spyre_health_checker.Client.{
  device_type_string, device_state_string, device_line, device_lines, get_pci_address,
  message_lines, ClientFlags, connect, socket_line, Received, device_list, end_of_stream, finished,
  receive, client_main,
}

-- The text up to the first space, and the rest.
abbrev pub cut_space : Text → Text × Text
cut_space [] = ([], [])
cut_space (c ∷ s) = let rest = cut_space s in if c == 32 then ([], c ∷ s) else (c ∷ rest.0, rest.1)

abbrev pub drop_count : ℕ → Text → Text
drop_count ℕ.zero s = s
drop_count (ℕ.suc n) [] = []
drop_count (ℕ.suc n) (c ∷ s) = drop_count n s

abbrev pub NoSpace : Text → Type 0
NoSpace s = any (λ c. c == 32) s ≡ false

cut_space-append : (a s : Text) → NoSpace a → cut_space (a ++ 32 ∷ s) ≡ (a, 32 ∷ s)
cut_space-append [] s h = refl
cut_space-append (c ∷ a) s h = ground (arith, cut_space-append a s)

abbrev pub type_of : Text → PbDeviceType
type_of s =
    if text_eq s (codes "VF") then vf else if text_eq s (codes "PF") then pf else type_unspecified

type_of-string : (t : PbDeviceType) → type_of (device_type_string t) ≡ t
unfolding device_type_string text_eq
type_of-string type_unspecified = refl
type_of-string vf = refl
type_of-string pf = refl

abbrev pub state_of : Text → PbDeviceState
state_of s =
    if text_eq s (codes "OFFLINE")
    then offline
    else if text_eq s (codes "BOOTING")
    then booting
    else if text_eq s (codes "SHUTTING_DOWN")
    then shutting_down
    else if text_eq s (codes "ONLINE")
    then online
    else if text_eq s (codes "RUNNING_DIAGNOSTICS")
    then running_diagnostics
    else if text_eq s (codes "IN_ERROR")
    then in_error
    else if text_eq s (codes "REMOVED")
    then removed
    else state_unspecified

state_of-string : (s : PbDeviceState) → state_of (device_state_string s) ≡ s
unfolding device_state_string text_eq
state_of-string state_unspecified = refl
state_of-string offline = refl
state_of-string booting = refl
state_of-string shutting_down = refl
state_of-string online = refl
state_of-string running_diagnostics = refl
state_of-string in_error = refl
state_of-string removed = refl

device_type_string-NoSpace : (t : PbDeviceType) → NoSpace (device_type_string t)
unfolding device_type_string
device_type_string-NoSpace type_unspecified = refl
device_type_string-NoSpace vf = refl
device_type_string-NoSpace pf = refl

-- A reader of the log, which knows the names of the types and of the states.
abbrev pub read_line : Text → PbDevice
read_line line =
    let address = cut_space (drop_count 13 line) in
    let type = cut_space (drop_count 7 address.1) in
    record {
      device_id = some address.0;
      device_type = type_of type.0;
      device_state = state_of (drop_count 8 type.1);
    }

-- A device with an address that has no space.
abbrev pub IsReadable : PbDevice → Type 0
IsReadable d = (a : Text) × (d.device_id ≡ some a) × NoSpace a

read_line-device_line : (d : PbDevice) → IsReadable d → read_line (device_line d) ≡ d
unfolding device_line get_pci_address
read_line-device_line d (a, e, n) =
    subst (λ o. read_line (device_line (record d { device_id = o })) ≡ record d { device_id = o })
      (sym e) (go a d.device_type d.device_state n)
  where
    go :
        (a : Text) (t : PbDeviceType) (s : PbDeviceState)
        → NoSpace a
        → read_line (device_line (record { device_id = some a; device_type = t; device_state = s }))
          ≡ record { device_id = some a; device_type = t; device_state = s }
    go a t s n =
        let rest = codes " State=" ++ device_state_string s in
        rw
          (
            cut_space-append a (32 ∷ codes "Type=" ++ (device_type_string t ++ 32 ∷ rest)) n,
            cut_space-append (device_type_string t) rest (device_type_string-NoSpace t),
            type_of-string t,
            state_of-string s,
          )
          refl

-- What every line about a device begins with.
abbrev pub is_device_line : Text → Bool
is_device_line line = has_prefix line (codes "  PCIAddress=")

-- A reader of the whole log, which skips the lines that are not about a device.
abbrev pub read_log : List Text → List PbDevice
read_log [] = []
read_log (line ∷ lines) =
    let rest = read_log lines in if is_device_line line then read_line line ∷ rest else rest

read_log-append : (k l : List Text) → read_log (k ++ l) ≡ read_log k ++ read_log l
read_log-append [] l = refl
read_log-append (line ∷ k) l = ground (arith, read_log-append k l)

abbrev pub devices_of : List PbDevices → List PbDevice
devices_of [] = []
devices_of (m ∷ messages) = m.devices ++ devices_of messages

read_log-device_lines :
    (devices : List PbDevice) → All IsReadable devices → read_log (device_lines devices) ≡ devices
unfolding device_lines device_line has_prefix
read_log-device_lines [] h = refl
read_log-device_lines (d ∷ devices) (r, h) =
    rw (read_line-device_line d r, read_log-device_lines devices h) refl

read_log-message_lines :
    (m : PbDevices) → All IsReadable m.devices → read_log (message_lines m) ≡ m.devices
unfolding message_lines has_prefix
read_log-message_lines m h = go m.devices h
  where
    go :
        (devices : List PbDevice)
        → All IsReadable devices
        → read_log (message_lines (record { devices = devices })) ≡ devices
    go [] h = refl
    go (d ∷ devices) h = read_log-device_lines (d ∷ devices) h

-- The lines of the set-up are not about devices.
read_log-connect :
    (peer_at : Text → Peer) (flags : ClientFlags) → read_log (connect peer_at flags).0 ≡ []
unfolding connect socket_line has_prefix
read_log-connect peer_at flags = ground arith

abbrev ending : List PbDevices → List Received
ending messages = map device_list messages ++ end_of_stream ∷ []

read_log-receive :
    (messages : List PbDevices)
    → All (λ m. All IsReadable m.devices) messages
    → (read_log (receive (ending messages)).0 ≡ devices_of messages)
      × ((receive (ending messages)).1 ≡ some finished)
unfolding receive
read_log-receive [] h = (refl, refl)
read_log-receive (m ∷ messages) (l, h) =
    let (p, q) = read_log-receive messages h in
    (
      read_log-append (message_lines m) (receive (ending messages)).0
          ∙ ap (λ x. x ++ read_log (receive (ending messages)).0) (read_log-message_lines m l)
          ∙ ap (λ x. m.devices ++ x) p,
      q,
    )

-- The whole log of a client that is connected and registered tells all of what it is sent: a reader that
-- skips the lines that do not begin as those about a device gets from it the devices of all messages in their
-- order, with their types and states, if the addresses have no spaces. At the end of the stream the
-- client finishes.
pub client_log_roundtrip :
    (peer_at : Text → Peer) (flags : ClientFlags) (messages : List PbDevices)
    → (connect peer_at flags).1 ≡ none
    → All (λ m. All IsReadable m.devices) messages
    → (read_log (client_main peer_at flags none (map device_list messages ++ end_of_stream ∷ [])).0
        ≡ devices_of messages)
      × ((client_main peer_at flags none (map device_list messages ++ end_of_stream ∷ [])).1
          ≡ some finished)
unfolding client_main
client_log_roundtrip peer_at flags messages c h =
    let (p, q) = read_log-receive messages h in
    rw (c, client_main)
      (
        read_log-append (connect peer_at flags).0 (receive (ending messages)).0
            ∙ ap (λ x. x ++ read_log (receive (ending messages)).0) (read_log-connect peer_at flags)
            ∙ p,
        q,
      )
