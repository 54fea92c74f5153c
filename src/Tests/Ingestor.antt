-- ===== src/Tests/Ingestor.antt =====
-- Runs of the cloud's ingestor, and its theorems at a concrete batch.
use itdashboard.Prelude.{
  ◌+◌, ◌≡◌, ◌≤◌, ◌↔◌, refl, String, none, some, List, [], ◌∷◌, map, length, str_eq, arith,
}
use itdashboard.Status.{healthy, degraded, unhealthy, unknown}
use itdashboard.Backend.Database.{Database, Property, empty, Alert, first_where}
use itdashboard.Backend.Health.{status_to_score_floor, property_health_score}
use itdashboard.Backend.Health.Score.{Devices, having, property_health_score_lem}
use itdashboard.Backend.Devices
use itdashboard.Backend.Properties
use itdashboard.Backend.Ingestor.{handle_batch, handle_transition, Reply}
use itdashboard.Backend.Message.{
  EdgeHealth, DeviceReport, Message, edge_health, periodic, transition, Sender, Fresh,
}
use itdashboard.Backend.Ingestor.Batches.{index_of, without, handle_batch_atomic}
use itdashboard.Backend.Ingestor.Sound.{handle_batch-IsSound}
use itdashboard.Backend.Raising.Sound.{IsSound}
use itdashboard.Backend.Ingestor.Transition.{Yields, reported, AsExpected, handle_transition_lem}

abbrev sender : Sender
sender = record { edge_id = "edge1"; provider_id = "isp"; property_id = "hotel" }

abbrev report : DeviceReport
report = record {
  ts = 100;
  device_id = "sw1";
  device_name = some "Switch 1";
  device_class = none;
  vendor = none;
  site = none;
  status = unhealthy;
  score = 20;
  reasons = "six errors" ∷ [];
  event_count = 9;
  error_count = 6;
  warn_count = 1;
}

abbrev heart : EdgeHealth
heart = record {
  ts = 253402300800;
  tracked_devices = 1;
  unhealthy_devices = 1;
  queue_depth = 0;
  summary_interval_seconds = 60;
}

abbrev fresh : String → Fresh
fresh id = record {
  raw_uuid = id;
  correlation_uuid = id;
  alert_uuid = id;
  event_uuid = λ n. id;
  clock = 7;
}

abbrev keep : String → String
keep s = s

-- The heartbeat is out of range, and the second alert has the id of the first.
abbrev batch : List (Message × Fresh)
batch =
    (transition report [], fresh "a")
    ∷ (edge_health heart, fresh "b")
    ∷ (transition (record report { status = degraded }) [], record (fresh "c") { alert_uuid = "a" })
    ∷ (periodic report, fresh "d")
    ∷ []

abbrev reply : Reply
reply = handle_batch keep 5 sender none batch empty

reply_test : (reply.accepted ≡ 2) × (map index_of reply.rejected ≡ 1 ∷ 2 ∷ [])
unfolding handle_batch
reply_test = (refl, refl)

alerts_test : length reply.database.alerts ≡ 1
unfolding handle_batch
alerts_test = refl

handle_batch_atomic_example :
    (let kept = without 0 (map index_of reply.rejected) batch in
      (reply.accepted + length reply.rejected ≡ length batch)
      × (reply.accepted ≡ length kept)
      × (handle_batch keep 5 sender none kept empty
          ≡ record { database = reply.database; accepted = reply.accepted; rejected = [] }))
handle_batch_atomic_example = handle_batch_atomic keep 5 sender none batch empty

empty-IsSound : IsSound empty
empty-IsSound = record {
  devices = tt;
  alerts = tt;
  single = λ d k. omega arith;
  outbox = tt;
  below = tt;
}

handle_batch-IsSound_example : IsSound reply.database
handle_batch-IsSound_example = handle_batch-IsSound keep 5 sender none batch empty empty-IsSound

abbrev known : Database
known = Properties.upsert "isp" "hotel" "Hotel" none none empty

abbrev hotel : Property
hotel = record {
  provider_id = "isp";
  property_id = "hotel";
  name = "Hotel";
  site_code = none;
  address = none;
}

known_hotel : Properties.get "isp" "hotel" known.properties ≡ some hotel
unfolding Properties.upsert Properties.get
known_hotel = refl

known_new : (first_where (λ (r : Alert). str_eq r.alert_id "a") known.alerts) ≡ none
unfolding Properties.upsert first_where
known_new = refl

handle_transition_lem_example :
    Yields
      (λ db'.
        (Devices.get "sw1" db'.devices
          ≡ some (reported 5 sender report (Devices.get "sw1" known.devices)))
        × AsExpected report known.alerts db'.alerts)
      (handle_transition keep 5 sender (fresh "a") report [] known)
unfolding Properties.upsert first_where
handle_transition_lem_example =
    handle_transition_lem keep 5 sender (fresh "a") report [] known hotel (λ d k. omega arith) refl
      refl known_hotel

property_health_score_lem_example :
    (let devices : Devices = (healthy, some 90) ∷ (unhealthy, some 20) ∷ (degraded, none) ∷ [] in
      let (score, status) = property_health_score devices in
      (score ≤ status_to_score_floor status)
      × ((status ≡ unknown) ↔ (devices ≡ []))
      × ((status ≡ unhealthy) ↔ (1 ≤ having unhealthy devices))
      × ((status ≡ healthy) ↔ ((1 ≤ length devices) × (having healthy devices ≡ length devices))))
property_health_score_lem_example =
    property_health_score_lem ((healthy, some 90) ∷ (unhealthy, some 20) ∷ (degraded, none) ∷ [])
