-- ===== src/Backend/Database.antt =====
-- The tables of backend/migrations/versions that the ingestor uses, each as the list of its rows in
-- the order in which they were inserted, and the statements on them that have a WHERE clause.
-- Columns with a CHECK are data types; `created_at`, `updated_at` and columns that no code reads
-- (`last_summary_json`, `causal_chain`, `auto_fix_action_id`) are left out.
pub mod Keys
use itdashboard.Prelude.{
  ℕ, String, Bool, true, false, Option, none, some, List, [], ◌∷◌, map, str_eq, if◌then◌else◌,
}
use itdashboard.Status.{Status}

pub data Severity : Type 0 where
  p1 p2 p3 p4 : Severity

pub data AlertState : Type 0 where
  opened triaged acting resolved : AlertState

-- `state IN ('opened','triaged','acting')`
abbrev pub is_open : AlertState → Bool
is_open resolved = false
is_open _ = true

-- An event of a message, and an alert's detail (lib/health.py).
pub record TopEvent : Type 0 where
  pub ts : ℕ
  pub severity : String
  pub category : String
  pub message : String

pub data TierMetadata : Type 0 where
  element : String → List String → ℕ → ℕ → List TopEvent → TierMetadata
  signal : String → ℕ → TierMetadata
  kpi consequence : TierMetadata

pub record Tier : Type 0 where
  pub title : String
  pub description : String
  pub metadata : TierMetadata
  pub stubbed_until : Option String

pub record Identity : Type 0 where
  pub severity : Severity
  pub state : AlertState
  pub opened_at : ℕ
  pub property_id : String
  pub property_name : String
  pub device_id : String
  pub device_label : String
  pub alert_kind : String
  pub correlation_id : String

pub record Detail : Type 0 where
  pub identity : Identity
  pub current_value : Status
  pub series : List TopEvent
  pub causal_chain : List Tier
  pub rationale : String

pub record Property : Type 0 where
  pub provider_id : String
  pub property_id : String
  pub name : String
  pub site_code : Option String
  pub address : Option String

pub record EdgeBox : Type 0 where
  pub edge_id : String
  pub provider_id : String
  pub property_id : String
  pub last_heartbeat_at : Option ℕ
  pub tracked_devices : ℕ
  pub unhealthy_devices : ℕ
  pub queue_depth : ℕ
  pub summary_interval_seconds : ℕ

pub record Device : Type 0 where
  pub device_id : String
  pub provider_id : String
  pub property_id : String
  pub edge_id : Option String
  pub label : Option String
  pub device_class : Option String
  pub vendor : Option String
  pub site : Option String
  pub health_status : Status
  pub health_score : Option ℕ
  pub last_seen_at : Option ℕ

pub record Alert : Type 0 where
  pub alert_id : String
  pub provider_id : String
  pub property_id : String
  pub device_id : Option String
  pub severity : Severity
  pub state : AlertState
  pub alert_kind : String
  pub summary : String
  pub correlation_id : Option String
  pub opened_at : ℕ
  pub triaged_at : Option ℕ
  pub acted_at : Option ℕ
  pub resolved_at : Option ℕ
  pub auto_fix_authorized : Bool
  pub detail : Detail

-- What `alert.opened` says of a new alert; its other fields are constants.
pub record OpenedAlert : Type 0 where
  pub alert_id : String
  pub provider_id : String
  pub property_id : String
  pub property_name : String
  pub device_id : String
  pub device_class : Option String
  pub severity : Severity
  pub alert_kind : String
  pub summary : String
  pub opened_at : ℕ

-- The events that the service publishes, each with its payload.
pub data Event : Type 0 where
  edge_heartbeat : String → String → ℕ → Event
  device_health_changed : String → Status → Status → Event
  alert_state_changed : String → AlertState → AlertState → Event
  alert_updated : String → Event
  alert_opened : OpenedAlert → Event
  auto_fix_dispatched : String → String → Event

pub record OutboxRow : Type 0 where
  pub outbox_id : ℕ
  pub event_id : String
  pub property_id : String
  pub event : Event
  pub enqueued_at : ℕ
  pub published_at : Option ℕ
  pub attempts : ℕ

pub record RawEvent : Type 0 where
  pub event_id : String
  pub kind : String
  pub provider_id : String
  pub property_id : String
  pub edge_id : Option String
  pub device_id : Option String
  pub received_at : ℕ

pub record Database : Type 0 where
  pub service_providers : List String
  pub properties : List Property
  pub edge_boxes : List EdgeBox
  pub devices : List Device
  pub alerts : List Alert
  pub raw_events : List RawEvent
  pub event_outbox : List OutboxRow
  pub next_outbox_id : ℕ

abbrev pub empty : Database
empty = record {
  service_providers = [];
  properties = [];
  edge_boxes = [];
  devices = [];
  alerts = [];
  raw_events = [];
  event_outbox = [];
  next_outbox_id = 1;
}

module _ {ℓ} {A : Type ℓ} where
  -- `SELECT … WHERE p`, the first row.
  unfoldable pub first_where : (A → Bool) → List A → Option A
  first_where p [] = none
  first_where p (r ∷ rows) = let rest = first_where p rows in if p r then some r else rest

  -- `UPDATE … SET … WHERE p`
  unfoldable pub update_where : (A → Bool) → (A → A) → List A → List A
  update_where p f = map (λ r. if p r then f r else r)

-- `COALESCE(EXCLUDED.column, t.column)`
abbrev pub coalesce : Option String → Option String → Option String
coalesce none old = old
coalesce (some s) old = some s

-- `column = $n`, for a column that may be NULL.
abbrev pub is_text : Option String → String → Bool
is_text none t = false
is_text (some s) t = str_eq s t
