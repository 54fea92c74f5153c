-- ===== src/Backend/Stream.antt =====
-- `_passes_filter` of backend/app/routers/stream.py, and lib/sse_buffer.py. A message of the stream
-- has the fields that the filter reads, each of which may be missing; the outbox poller publishes an
-- event's kind and its payload.
pub mod Replay
use itdashboard.Prelude.{
  ℕ, ◌+◌, String, Bool, true, false, not, ◌&&◌, ◌||◌, Option, none, some, List, [], ◌∷◌, ◌++◌,
  str_eq, leb, ltb, ◌==◌, if◌then◌else◌, select,
}
use itdashboard.Text.{truthy}
use itdashboard.Backend.Database.{
  Severity, p1, p2, p3, p4, Event, edge_heartbeat, device_health_changed, alert_state_changed,
  alert_updated, alert_opened, auto_fix_dispatched,
}

pub record Message : Type 0 where
  pub event_kind : Option String
  pub property_id : Option String
  pub severity : Option String

abbrev pub severity_text : Severity → String
severity_text p1 = "p1"
severity_text p2 = "p2"
severity_text p3 = "p3"
severity_text p4 = "p4"

-- `{"event_kind": …, **payload_json}` of lib/outbox_poller.py, by the payloads of lib/ingestor.py.
unfoldable pub message_of : Event → Message
message_of (edge_heartbeat edge property depth) = record {
  event_kind = some "edge.heartbeat";
  property_id = some property;
  severity = none;
}
message_of (device_health_changed device old new) = record {
  event_kind = some "device.health_changed";
  property_id = none;
  severity = none;
}
message_of (alert_state_changed alert old new) = record {
  event_kind = some "alert.state_changed";
  property_id = none;
  severity = none;
}
message_of (alert_updated alert) = record {
  event_kind = some "alert.updated";
  property_id = none;
  severity = none;
}
message_of (alert_opened a) = record {
  event_kind = some "alert.opened";
  property_id = some a.property_id;
  severity = some (severity_text a.severity);
}
message_of (auto_fix_dispatched alert action) = record {
  event_kind = some "auto_fix.dispatched";
  property_id = none;
  severity = none;
}

unfoldable pub has_text : List String → String → Bool
has_text [] t = false
has_text (s ∷ rest) t = if str_eq s t then true else has_text rest t

abbrev pub is_among : List String → Option String → Bool
is_among l none = false
is_among l (some t) = has_text l t

-- `_SEV_ORDER.index`
unfoldable pub sev_index : String → Option ℕ
sev_index s =
    if str_eq s "p1"
    then some 0
    else if str_eq s "p2"
    then some 1
    else if str_eq s "p3"
    then some 2
    else if str_eq s "p4"
    then some 3
    else none

-- A text that is not a severity raises ValueError, and the message passes.
abbrev pub not_worse : Option ℕ → Option ℕ → Bool
not_worse (some i) (some j) = leb i j
not_worse _ _ = true

abbrev pub listed : Option (List String) → Option String → Bool
listed none t = true
listed (some []) t = true
listed (some (s ∷ rest)) t = is_among (s ∷ rest) t

abbrev pub severe : Option String → Option String → Bool
severe (some lowest) (some severity) =
    if truthy lowest && truthy severity
    then not_worse (sev_index severity) (sev_index lowest)
    else true
severe _ _ = true

unfoldable pub passes_filter :
    Option (List String) → Option (List String) → Option String → Message → Bool
unfolding has_text sev_index
passes_filter requested_pids kind_filter min_severity m =
    listed requested_pids m.property_id
    && listed kind_filter m.event_kind
    && severe min_severity m.severity

-- lib/sse_buffer.py
pub record BufferedEvent : Type 0 where
  pub event_id : String
  pub event_kind : String
  pub property_id : String
  pub payload : String
  pub at : ℕ

pub record SseReplayBuffer : Type 0 where
  pub events : List BufferedEvent
  pub window : ℕ

-- `e.at >= time.time() - window`
abbrev pub is_recent : ℕ → ℕ → BufferedEvent → Bool
is_recent window now e = leb now (e.at + window)

unfoldable pub add : ℕ → BufferedEvent → SseReplayBuffer → SseReplayBuffer
add now event b = record b { events = select (is_recent b.window now) b.events ++ event ∷ [] }

unfoldable pub after_id : String → List BufferedEvent → List BufferedEvent
after_id last_event_id [] = []
after_id last_event_id (e ∷ rest) =
    if str_eq e.event_id last_event_id then rest else after_id last_event_id rest

unfoldable pub events_since : String → SseReplayBuffer → List BufferedEvent
unfolding after_id
events_since last_event_id b = after_id last_event_id b.events
