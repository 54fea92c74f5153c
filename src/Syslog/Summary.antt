-- ===== src/Syslog/Summary.antt =====
-- `_build_summary` of syslog/aggregator.py.
pub mod Top
use itdashboard.Prelude.{
  ℕ, ◌+◌, String, Bool, ◌&&◌, ◌||◌, List, [], ◌∷◌, map, str_eq, leb, ltb, ◌==◌, if◌then◌else◌,
  length, count, take,
}
use itdashboard.Text.{left}
use itdashboard.Status.{Status}
use itdashboard.Syslog.Classify.{rank_of}
use itdashboard.Syslog.Device.{Config, Event, DeviceState}
use itdashboard.Syslog.Health.{compute_health, is_error}

pub data Kind : Type 0 where
  periodic transition : Kind

pub record Payload : Type 0 where
  pub kind : Kind
  pub ts : ℕ
  pub device_id : String
  pub device_name : String
  pub device_class : String
  pub vendor : String
  pub site : String
  pub status : Status
  pub score : ℕ
  pub reasons : List String
  pub event_count : ℕ
  pub error_count : ℕ
  pub warn_count : ℕ
  pub top_events : List Event

-- The sort key `(rank, -ts)`: is `a` to stand before `b`, or as early?
unfoldable pub before : Event → Event → Bool
before a b =
    ltb (rank_of a.severity) (rank_of b.severity)
    || (rank_of a.severity == rank_of b.severity && leb b.ts a.ts)

unfoldable pub insert_event : Event → List Event → List Event
unfolding before
insert_event e [] = e ∷ []
insert_event e (f ∷ events) =
    let rest = insert_event e events in if before e f then e ∷ f ∷ events else f ∷ rest

-- `sorted(…)`, which keeps the order of events with one key.
unfoldable pub sort_events : List Event → List Event
unfolding insert_event
sort_events [] = []
sort_events (e ∷ events) = insert_event e (sort_events events)

abbrev pub shorten : Event → Event
shorten e = record e { message = left 200 e.message }

unfoldable pub build_summary : Config → ℕ → Kind → DeviceState → Payload
unfolding compute_health sort_events
build_summary cfg now kind state =
    let health = compute_health cfg now state in
    record {
      kind = kind;
      ts = now;
      device_id = state.device_id;
      device_name = state.device_name;
      device_class = state.device_class;
      vendor = state.vendor;
      site = state.site;
      status = health.0;
      score = health.1;
      reasons = health.2;
      event_count = length state.events;
      error_count = count is_error state.events;
      warn_count =
          count (λ (e : Event). str_eq e.severity "warning") state.events
          + count (λ (e : Event). str_eq e.severity "warn") state.events;
      top_events = map shorten (take 5 (sort_events state.events));
    }

abbrev pub kind_text : Payload → String
kind_text s = elim s.kind [ periodic ↦ "periodic" | transition ↦ "transition" ]
