-- ===== src/Tests/SyslogAgent.antt =====
-- Runs of the syslog agent, and its theorems at concrete inputs.
use mathlib.Core.List.{Perm}
use itdashboard.Prelude.{
  ℕ, ◌+◌, ◌*◌, ◌≤◌, ◌<◌, ◌≡◌, ◌≢◌, refl, String, true, false, none, List, [], ◌∷◌, map, arith, take,
  drop, count, length, min,
}
use itdashboard.Status.{healthy, unhealthy}
use itdashboard.Syslog.Classify.{rank_of, parse_pri}
use itdashboard.Syslog.Queue as Queue
use itdashboard.Syslog.Queue.Invariant as Invariant
use itdashboard.Syslog.Queue.Drain.{messages, batch_ids, syslog_queue_refines}
use itdashboard.Syslog.Uploader.{Config, Exchange, raised, answered, send, rounds}
use itdashboard.Syslog.Uploader.Rounds.{rounds-messages}
use itdashboard.Syslog.Device as Device
use itdashboard.Syslog.Device.{Event, DeviceState, Meta, second, evict_old, new_device}
use itdashboard.Syslog.Device.Window.{IsOrderly}
use itdashboard.Syslog.Health.{compute_health, score_of, is_error, is_warning}
use itdashboard.Syslog.Health.Laws.{
  Agrees, IsHeard, compute_health-Agrees, compute_health_evidence, score_of_antitone,
}
use itdashboard.Syslog.Summary.{transition, shorten, build_summary}
use itdashboard.Syslog.Summary.Top.{IsRanked, top_events_lem}

parse_pri_134 : parse_pri 134 ≡ ("local0", "info")
unfolding parse_pri
parse_pri_134 = refl

kind_of : String → String
kind_of m = m

abbrev script : List (Invariant.Call String)
script =
    Invariant.enqueued 10 "periodic"
    ∷ Invariant.enqueued 11 "transition"
    ∷ Invariant.failed (1 ∷ [])
    ∷ []

abbrev queue : Queue.Outbound String
queue = Invariant.calls kind_of script Queue.empty

syslog_calls-IsValid_example : Invariant.IsValid queue × (Queue.depth queue ≤ 25000)
syslog_calls-IsValid_example =
    Invariant.syslog_calls-IsValid kind_of script Queue.empty Invariant.empty-IsValid

syslog_queue_refines_example :
    (Queue.take_batch 1 queue ≡ take 1 (messages queue))
    × (messages (Queue.ack (batch_ids 1 queue) queue) ≡ drop 1 (messages queue))
    × (messages (Queue.mark_failed (2 ∷ []) queue) ≡ messages queue)
syslog_queue_refines_example = syslog_queue_refines 1 (2 ∷ []) queue syslog_calls-IsValid_example.0

abbrev uploads : Config
uploads = record { upload_batch_size = 1; upload_retry_seconds = 30 }

abbrev exchanges : List Exchange
exchanges = raised ∷ answered 503 ∷ answered 200 ∷ []

rounds-messages_example :
    messages (rounds uploads exchanges (record { queue = queue; backoff = 30 })).queue
    ≡ drop (count send exchanges * 1) (messages queue)
rounds-messages_example =
    rounds-messages uploads exchanges (record { queue = queue; backoff = 30 })
      syslog_calls-IsValid_example.0

abbrev cfg : Device.Config
cfg = record { window_seconds = 300; stale_threshold_seconds = 600 }

abbrev meta : Meta
meta = record {
  device_id = "sw1";
  device_name = none;
  device_class = none;
  vendor = none;
  site = none;
}

abbrev event : ℕ → String → String → Event
event ts severity category = record {
  ts = ts;
  severity = severity;
  category = category;
  message = "m";
}

abbrev device : DeviceState
device = record {
  device_id = "sw1";
  device_name = "sw1";
  device_class = "unknown";
  vendor = "unknown";
  site = "unknown";
  events = event (1 * second) "err" "link" ∷ event (2 * second) "warning" "link" ∷ [];
  last_seen = 2 * second;
  last_status = healthy;
  dedup_cache = [];
}

one_error : compute_health cfg (3 * second) device ≡ (healthy, 90, [])
unfolding compute_health rank_of
one_error = refl

compute_health-Agrees_example : Agrees (compute_health cfg (3 * second) device)
compute_health-Agrees_example = compute_health-Agrees cfg (3 * second) device

compute_health_evidence_example :
    (((compute_health cfg (3 * second) device).0 ≡ healthy)
      → IsHeard cfg (3 * second) device
        × (count is_error device.events ≤ 1)
        × (count is_warning device.events ≤ 7))
    × (IsHeard cfg (3 * second) device
        → 6 ≤ count is_error device.events
        → (compute_health cfg (3 * second) device).0 ≡ unhealthy)
    × (device.last_seen ≢ 0
        → device.last_seen + cfg.stale_threshold_seconds * second < 3 * second
        → ((compute_health cfg (3 * second) device).0 ≡ unhealthy)
          × ((compute_health cfg (3 * second) device).1 ≡ 10))
compute_health_evidence_example = compute_health_evidence cfg (3 * second) device

score_of_antitone_example :
    (score_of 3 4 false ≤ score_of 1 2 false) × (score_of 1 2 true ≤ score_of 1 2 false)
score_of_antitone_example = score_of_antitone 1 3 2 4 false (omega arith) (omega arith)

top_events_lem_example :
    (ranking : List Event) × IsRanked ranking
    × Perm ranking device.events
    × ((build_summary cfg (3 * second) transition device).top_events ≡ map shorten (take 5 ranking))
    × (length (take 5 ranking) ≡ min 5 (length ranking))
top_events_lem_example = top_events_lem cfg (3 * second) transition device

device-IsOrderly : IsOrderly device
device-IsOrderly = record { ordered = omega arith; seen = omega arith }
