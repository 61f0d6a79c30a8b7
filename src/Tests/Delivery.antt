-- ===== src/Tests/Delivery.antt =====
-- Two rounds of main, the second one with a reporter that fails, and a client that waits.
use spyre_health_checker.Base.{
  ◌≡◌, refl, Bool, true, false, List, [], ◌∷◌, ◌++◌, some, codes, map, in_order, text_eq, lookup,
  insert, if◌then◌else◌,
}
use spyre_health_checker.Types.{DeviceState, Reporter, ok, in_error, online}
use spyre_health_checker.Healthcheck.{Tick, update_states, check_driver}
use spyre_health_checker.Reporter.Merge.{merge}
use spyre_health_checker.Main.Refresh.{Monitor, periodic_checks}
use spyre_health_checker.Main.Delivery.{rounds_states, rounds_delivered}
use spyre_health_checker.Server.Queue.{
  ServerEvent, offered, delivered, offer, deliver, Run, done, next, is_member,
}
use spyre_health_checker.Server.Order.{received_by, held}
use spyre_health_checker.Server.Stream.{update, message, stream_updates}
use spyre_health_checker.Tests.Merge.{card, other_card, entry, broken}
use spyre_health_checker.Tests.Publish.{all_there}
use spyre_health_checker.Tests.Server.{sole_client}

abbrev states : List DeviceState
states = entry card in_error (codes "flaky") 1 ∷ entry other_card online (codes "flaky") 1 ∷ []

-- A reporter that answers as long as the world is `true`.
abbrev flaky : Reporter Bool
flaky = record {
  name = codes "flaky";
  priority = 1;
  collect = λ up. if up then ok states else broken.collect tt;
}

abbrev round : Bool → Tick Bool
round up = record { world = up; stat = all_there; range = in_order }

abbrev rounds : List (Tick Bool)
rounds = round true ∷ round false ∷ []

abbrev at_start : Monitor Bool
at_start = record {
  vitals = record { states = []; reporters = flaky ∷ [] };
  series = [];
  updates = [];
}

abbrev events : List ServerEvent
events = offered states ∷ delivered 1 states ∷ offered states ∷ []

events-Run : Run sole_client events (record sole_client { pending = some states })
unfolding is_member
events-Run =
    next (offer refl refl refl) (next (deliver refl refl) (next (offer refl refl refl) done))

rounds_delivered_example :
    map message (rounds_states (flaky ∷ []) rounds [])
    ≡ stream_updates (map (λ states. update states true) (received_by 1 events))
      ++ map message (held (some states))
unfolding periodic_checks update_states merge lookup insert text_eq check_driver
rounds_delivered_example =
    rounds_delivered (codes "node") rounds at_start refl events-Run (refl, (refl, (refl, tt)))
      (refl, refl) refl
