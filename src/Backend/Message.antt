-- ===== src/Backend/Message.antt =====
-- The messages of backend/app/schemas/ingest.py, and what each handler of lib/ingestor.py does first
-- with one: the INSERTs into event_outbox and raw_events (repositories/raw_events.py). What a
-- statement or Python refuses is a `Failure`.
use itdashboard.Prelude.{
  ℕ, ◌+◌, String, Bool, Option, none, some, List, [], ◌∷◌, ◌++◌, str_eq, ltb, ◌==◌, ◌&&◌,
  if◌then◌else◌,
}
use itdashboard.Status.{Status}
use itdashboard.Backend.Database.{TopEvent, Event, RawEvent, Database, first_where}

pub data Failure : Type 0 where
  time_out_of_range duplicate_key no_row : Failure

pub data Outcome {ℓ} (A : Type ℓ) : Type ℓ where
  done : A → Outcome A
  failed : Failure → Outcome A

infixl 5 ◌>>=◌
abbrev pub ◌>>=◌ {ℓ κ} : {A : Type ℓ} {B : Type κ} → Outcome A → (A → Outcome B) → Outcome B
done a >>= f = f a
failed e >>= f = failed e

pub record EdgeHealth : Type 0 where
  pub ts : ℕ
  pub tracked_devices : ℕ
  pub unhealthy_devices : ℕ
  pub queue_depth : ℕ
  pub summary_interval_seconds : ℕ

pub record DeviceReport : Type 0 where
  pub ts : ℕ
  pub device_id : String
  pub device_name : Option String
  pub device_class : Option String
  pub vendor : Option String
  pub site : Option String
  pub status : Status
  pub score : ℕ
  pub reasons : List String
  pub event_count : ℕ
  pub error_count : ℕ
  pub warn_count : ℕ

pub data Message : Type 0 where
  edge_health : EdgeHealth → Message
  periodic : DeviceReport → Message
  transition : DeviceReport → List TopEvent → Message

abbrev pub kind_of : Message → String
kind_of (edge_health m) = "edge_health"
kind_of (periodic m) = "periodic"
kind_of (transition m events) = "transition"

abbrev pub device_of : Message → Option String
device_of (edge_health m) = none
device_of (periodic m) = some m.device_id
device_of (transition m events) = some m.device_id

-- Who a batch is from.
pub record Sender : Type 0 where
  pub edge_id : String
  pub provider_id : String
  pub property_id : String

-- `event_uuid n` is the id of the n-th event that a message puts into the outbox.
pub record Fresh : Type 0 where
  pub raw_uuid : String
  pub correlation_uuid : String
  pub alert_uuid : String
  pub event_uuid : ℕ → String
  pub clock : ℕ

-- The seconds that datetime.fromtimestamp takes end with the year 9999.
abbrev pub max_timestamp : ℕ
max_timestamp = 253402300800

unfoldable pub from_timestamp : ℕ → Outcome ℕ
from_timestamp ts = if ltb ts max_timestamp then done ts else failed time_out_of_range

unfoldable pub enqueue_event : Fresh → ℕ → String → Event → Database → Database
enqueue_event fresh n property_id event db = record db {
  event_outbox =
      db.event_outbox
      ++ record {
        outbox_id = db.next_outbox_id;
        event_id = fresh.event_uuid n;
        property_id = property_id;
        event = event;
        enqueued_at = fresh.clock;
        published_at = none;
        attempts = 0;
      }
        ∷ [];
  next_outbox_id = db.next_outbox_id + 1;
}

-- The primary key of raw_events is (event_id, received_at).
abbrev pub same_raw : Fresh → RawEvent → Bool
same_raw fresh r = str_eq r.event_id fresh.raw_uuid && r.received_at == fresh.clock

abbrev pub raw_event : Sender → Fresh → String → Option String → RawEvent
raw_event sender fresh kind device_id = record {
  event_id = fresh.raw_uuid;
  kind = kind;
  provider_id = sender.provider_id;
  property_id = sender.property_id;
  edge_id = some sender.edge_id;
  device_id = device_id;
  received_at = fresh.clock;
}

unfoldable pub insert_raw_event :
    Sender → Fresh → String → Option String → Database → Outcome Database
unfolding first_where
insert_raw_event sender fresh kind device_id db =
    elim (first_where (same_raw fresh) db.raw_events) [
      | some r ↦ failed duplicate_key
      | none ↦
          done
            (record db { raw_events = db.raw_events ++ raw_event sender fresh kind device_id ∷ [] })
    ]
