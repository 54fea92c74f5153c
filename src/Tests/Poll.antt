-- ===== src/Tests/Poll.antt =====
-- A poll over two devices, of which one changed, while a third vanished.
use itdashboard.Prelude.{
  ℕ, ◌≡◌, refl, String, Option, none, List, [], ◌∷◌, ◌++◌, map, arith, eq_iff, length, All,
}
use itdashboard.Table.Delete.{IsKeyed}
use itdashboard.Poller.Queue.{empty, enqueue_many, depth, in_order, message}
use itdashboard.Poller.StateStore.{StateStore, record_status}
use itdashboard.Poller.StateStore
use itdashboard.Poller.Poll.{Reading, Own, poll_once}
use itdashboard.Poller.Poll.Transitions.{
  reading_key, reports, Remembers, SaysVanished, poll_once_lem,
}

abbrev reading : String → String → Reading String
reading d status = record {
  device_id = d;
  status = status;
  score = 50;
  periodic = "periodic";
  transition = "transition";
}

abbrev readings : List (Reading String)
readings = reading "sw1" "healthy" ∷ reading "sw2" "degraded" ∷ []

-- sw2 was healthy, and sw3 was last seen at 4.
abbrev store : StateStore
store =
    (record_status 5 "sw2" "healthy" 100 (record_status 4 "sw3" "healthy" 100 StateStore.empty).0).0

abbrev own : Own String
own = record { vanished = λ d t. d; edge_health = λ tracked unhealthy depth. "heartbeat" }

abbrev kind_of : String → Option String
kind_of s = none

poll_test :
    map (λ r. r.1) (map message (in_order (poll_once own kind_of 9 9 6 "9" readings store empty).1))
    ≡ "periodic" ∷ "periodic" ∷ "transition" ∷ "sw3" ∷ "heartbeat" ∷ []
unfolding poll_once in_order record_status enqueue_many StateStore.devices_not_seen_since
poll_test = refl

readings-IsKeyed : IsKeyed reading_key readings
readings-IsKeyed = (((λ e. ground (arith, eq_iff "sw2" "sw1")), tt), (tt, tt))

poll_once_lem_example :
    (let r = poll_once own kind_of 9 9 6 "9" readings store empty in
      Remembers r.0 readings
      × ((vanished : List String) × (unhealthy : ℕ) × (let heartbeat =
              own.edge_health (length r.0.device_state) unhealthy (depth {P = String} empty) in
            All (SaysVanished own readings) vanished
            × (r.1
                ≡ enqueue_many kind_of 9
                    (reports store readings ++ vanished ++ heartbeat ∷ [])
                    empty))))
poll_once_lem_example = poll_once_lem own kind_of 9 9 6 "9" readings store empty readings-IsKeyed
