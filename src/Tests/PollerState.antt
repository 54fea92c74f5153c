-- ===== src/Tests/PollerState.antt =====
-- Runs of the poller's state store, and its theorems at a concrete store.
use itdashboard.Prelude.{◌≡◌, refl, some, [], ◌∷◌}
use itdashboard.Table.Delete.{IsKeyed}
use itdashboard.Poller.StateStore.{StateStore, empty, record_status, devices_not_seen_since}
use itdashboard.Poller.StateStore.Laws.{device_key, record_status-IsKeyed}

abbrev store : StateStore
store = (record_status 5 "sw1" "healthy" 100 empty).0

record_twice : (record_status 9 "sw1" "degraded" 70 store).1 ≡ some "healthy"
unfolding record_status
record_twice = refl

vanished : devices_not_seen_since 6 store ≡ ("sw1", "healthy", 5) ∷ []
unfolding record_status devices_not_seen_since
vanished = refl

store-IsKeyed : IsKeyed device_key store.device_state
store-IsKeyed = record_status-IsKeyed 5 "sw1" "healthy" 100 empty tt
