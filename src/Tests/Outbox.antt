-- ===== src/Tests/Outbox.antt =====
-- Runs of the cloud's outbox, its stream and its automatic fixes, and their theorems at concrete
-- inputs.
use itdashboard.Prelude.{
  ℕ, ◌*◌, ◌≡◌, refl, String, Bool, true, false, none, some, List, [], ◌∷◌, ◌++◌, map, take, drop,
  arith,
}
use itdashboard.Table.Delete.{IsKeyed}
use itdashboard.Status.{healthy, degraded}
use itdashboard.Backend.Database.{
  p1, Event, edge_heartbeat, device_health_changed, alert_updated, OutboxRow, empty,
}
use itdashboard.Backend.Outbox.{outbox_id, poll_limit, polls, channel}
use itdashboard.Backend.Outbox.Delivery.{events, IsSublist, polls-deliver, polls-drain}
use itdashboard.Backend.Stream.{message_of, passes_filter, BufferedEvent}
use itdashboard.Backend.Stream.Replay.{names_property, Asked, passes_filter-Asked}
use itdashboard.Tests.Pages.{alert}
use itdashboard.Backend.Message.{Fresh}
use itdashboard.Backend.Raising.Sound.{IsSound}
use itdashboard.Backend.AutoFix.{Server, Response, accepted, get_cached_response, auto_fix}
use itdashboard.Backend.AutoFix.Once.{Happening, asked, changed, happen, auto_fix-repeat}
use itdashboard.Backend.AutoFix.Sound.{auto_fix-IsSound}

abbrev row : ℕ → Event → OutboxRow
row n event = record {
  outbox_id = n;
  event_id = "evt";
  property_id = "hotel";
  event = event;
  enqueued_at = n;
  published_at = none;
  attempts = 0;
}

abbrev outbox : List OutboxRow
outbox = row 1 (alert_updated "a") ∷ row 2 (device_health_changed "sw1" healthy degraded) ∷ []

outbox-IsKeyed : IsKeyed outbox_id outbox
outbox-IsKeyed = ((omega arith, tt), (tt, tt))

-- Redis fails at the second event, then works.
abbrev trials : List ((OutboxRow → Bool) × ℕ)
trials = ((λ r. elim r.event [ alert_updated a ↦ true | _ ↦ false ]), 5) ∷ ((λ r. true), 6) ∷ []

trials_test :
    (polls trials outbox).1
    ≡ ("hosp:prop:hotel", alert_updated "a")
      ∷ ("hosp:prop:hotel", alert_updated "a")
      ∷ ("hosp:prop:hotel", device_health_changed "sw1" healthy degraded)
      ∷ []
unfolding polls channel
trials_test = refl

polls-deliver_example :
    (let r = polls trials outbox in
      (settled : List (String × Event)) × (events outbox ≡ settled ++ events r.0)
      × IsSublist settled r.1)
polls-deliver_example = polls-deliver trials outbox outbox-IsKeyed

polls-drain_example :
    (let r = polls (map (λ now. ((λ _. true), now)) (5 ∷ [])) outbox in
      (r.1 ≡ take (poll_limit * 1) (events outbox))
      × (events r.0 ≡ drop (poll_limit * 1) (events outbox)))
polls-drain_example = polls-drain (5 ∷ []) outbox outbox-IsKeyed

-- A client that asks for one property never hears of a change of health there.
unheard :
    passes_filter
      (some ("hotel" ∷ []))
      none
      none
      (message_of (device_health_changed "sw1" healthy degraded))
    ≡ false
unfolding passes_filter message_of
unheard = refl

heard :
    passes_filter (some ("hotel" ∷ [])) none none (message_of (edge_heartbeat "e" "hotel" 0)) ≡ true
unfolding passes_filter message_of
heard = refl

passes_filter-Asked_example : Asked ("hotel" ∷ []) (names_property (edge_heartbeat "e" "hotel" 0))
passes_filter-Asked_example =
    passes_filter-Asked "hotel" [] none none (edge_heartbeat "e" "hotel" 0) heard

abbrev event : String → ℕ → BufferedEvent
event id at = record {
  event_id = id;
  event_kind = "alert.updated";
  property_id = "";
  payload = "";
  at = at;
}

abbrev fresh : Fresh
fresh = record {
  raw_uuid = "r";
  correlation_uuid = "c";
  alert_uuid = "a";
  event_uuid = λ n. "evt_1";
  clock = 7;
}

abbrev server : Server
server = record { database = record empty { alerts = alert "x" p1 5 ∷ [] }; cache = [] }

abbrev response : Response
response = record {
  alert_id = "x";
  action_event_id = "evt_1";
  dispatched_at = 7;
  expected_recovery_by = 97;
  status_url = "/v1/alerts/x";
}

dispatched : (auto_fix 7 fresh (some "key") true "x" "isp" server).1 ≡ accepted response
unfolding auto_fix
dispatched = refl

no_cache : get_cached_response 7 "key" server.cache ≡ none
unfolding get_cached_response
no_cache = refl

-- Another client fixes the alert under a key of its own, then the alerts are lost, and the first key
-- is used once more.
abbrev meanwhile : List Happening
meanwhile =
    asked (record {
      now = 8;
      fresh = fresh;
      idempotency_key = some "other";
      confirm = true;
      alert_id = "x";
      provider_id = "isp";
    })
    ∷ changed empty
    ∷ asked (record {
      now = 9;
      fresh = fresh;
      idempotency_key = some "key";
      confirm = true;
      alert_id = "y";
      provider_id = "net";
    })
    ∷ []

auto_fix-repeat_example :
    (let s' = happen meanwhile (auto_fix 7 fresh (some "key") true "x" "isp" server).0 in
      auto_fix 10 fresh (some "key") true "x" "isp" s' ≡ (s', accepted response))
auto_fix-repeat_example =
    auto_fix-repeat 7 10 fresh fresh "key" "x" "isp" "x" "isp" server response meanwhile refl
      no_cache dispatched (omega arith) (omega arith, (tt, (omega arith, tt)))

server-IsSound : IsSound server.database
server-IsSound = record {
  devices = tt;
  alerts = (tt, tt);
  single = λ d k. ground arith;
  outbox = tt;
  below = tt;
}

auto_fix-IsSound_example : IsSound (auto_fix 7 fresh (some "key") true "x" "isp" server).0.database
auto_fix-IsSound_example =
    auto_fix-IsSound 7 fresh (some "key") true "x" "isp" server server-IsSound
