-- ===== src/Tests/Client.antt =====
-- The client on one message, and a socket path that it cannot dial.
use spyre_health_checker.Base.{◌≡◌, refl, true, List, [], ◌∷◌, ◌++◌, none, some, codes, map}
use spyre_health_checker.Types.{PbDevices, pf, online, removed, type_unspecified}
use spyre_health_checker.Reporter.CardHealth.{Peer}
use spyre_health_checker.Client.{
  ClientFlags, default_client_flags, dial_target, connect, client_main, device_list, end_of_stream,
  finished,
}
use spyre_health_checker.Client.Log.{read_log, devices_of, client_log_roundtrip}
use spyre_health_checker.Tests.Merge.{card, other_card}

abbrev peer : Peer
peer = record {
  key_pair_loads = true;
  ca_file = some (codes "pem");
  has_certificate = λ pem. true;
  dials = true;
}

abbrev flags : ClientFlags
flags = default_client_flags (λ name. [])

relative_socket : dial_target (codes "run/checker.sock") ≡ codes "unix://run/checker.sock"
unfolding dial_target
relative_socket = refl

abbrev messages : List PbDevices
messages =
    record {
      devices =
          record { device_id = some card; device_type = pf; device_state = online }
          ∷ record {
            device_id = some other_card;
            device_type = type_unspecified;
            device_state = removed;
          }
          ∷ [];
    }
    ∷ []

client_log_roundtrip_example :
    (read_log
        (client_main (λ target. peer) flags none (map device_list messages ++ end_of_stream ∷ [])).0
      ≡ devices_of messages)
    × ((client_main (λ target. peer) flags none (map device_list messages ++ end_of_stream ∷ [])).1
        ≡ some finished)
unfolding connect
client_log_roundtrip_example =
    client_log_roundtrip (λ target. peer) flags messages refl
      (((card, refl, refl), ((other_card, refl, refl), tt)), tt)
