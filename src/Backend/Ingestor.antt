-- ===== src/Backend/Ingestor.antt =====
-- backend/app/lib/ingestor.py: the handlers of messages, and handle_batch. The transaction around a
-- message that fails keeps the database as it was. The foreign keys on properties hold
-- by the upsert that a batch begins with. `str.lower` is an argument. The uuids that a message needs,
-- and the database's clock in its transaction, come with it as `Fresh`.
pub mod Batches
pub mod Transition
pub mod Sound
use itdashboard.Prelude.{
  ℕ, ◌+◌, String, Bool, true, false, Option, none, some, List, [], ◌∷◌, ◌++◌, map, str_eq, ltb,
  ◌==◌, ◌&&◌, if◌then◌else◌,
}
use itdashboard.Text.{or_else}
use itdashboard.Status.{Status, healthy, status_eq}
use itdashboard.Backend.Database.{
  TopEvent, Tier, Detail, Property, EdgeBox, Device, Alert, opened, resolved, Event, edge_heartbeat,
  device_health_changed, alert_state_changed, alert_updated, alert_opened, OutboxRow, RawEvent,
  Database, first_where,
}
use itdashboard.Backend.Health.{
  normalize_severity, severity_for_transition, alert_kind_of, EdgeSummary,
  materialize_alert_from_transition,
}
use itdashboard.Backend.Devices
use itdashboard.Backend.Properties
use itdashboard.Backend.Alerts.{create, update_detail, find_open_for_device, resolve_all_for_device}
use itdashboard.Backend.Message.{
  DeviceReport, EdgeHealth, Failure, Fresh, Message, Outcome, Sender, device_of, done,
  duplicate_key, edge_health, enqueue_event, failed, from_timestamp, insert_raw_event, kind_of,
  max_timestamp, no_row, periodic, raw_event, same_raw, time_out_of_range, transition, ◌>>=◌,
}
use itdashboard.Backend.Raising.{
  edge_summary, found, new_alert, open_alert, raise_alert, refresh_alert, report_resolved,
  resolve_alerts, summary_of,
}

-- `props.upsert_edge_box`, with what the heartbeat says.
unfoldable pub note_heartbeat : Sender → EdgeHealth → ℕ → Database → Database
unfolding Properties.upsert_edge_box
note_heartbeat sender m at db = record db {
  edge_boxes =
      Properties.upsert_edge_box
        (record {
          edge_id = sender.edge_id;
          provider_id = sender.provider_id;
          property_id = sender.property_id;
          last_heartbeat_at = some at;
          tracked_devices = m.tracked_devices;
          unhealthy_devices = m.unhealthy_devices;
          queue_depth = m.queue_depth;
          summary_interval_seconds = m.summary_interval_seconds;
        })
        db.edge_boxes;
}

abbrev pub heartbeat : Sender → EdgeHealth → Event
heartbeat sender m = edge_heartbeat sender.edge_id sender.property_id m.queue_depth

-- `_edge_health`
unfoldable pub handle_edge_health : Sender → Fresh → EdgeHealth → Database → Outcome Database
unfolding from_timestamp note_heartbeat insert_raw_event enqueue_event
handle_edge_health sender fresh m db = do
  at ← from_timestamp m.ts
  noted ← insert_raw_event sender fresh "edge_health" none (note_heartbeat sender m at db)
  done (enqueue_event fresh 0 sender.property_id (heartbeat sender m) noted)

abbrev pub description : Sender → DeviceReport → Devices.Description
description sender m = record {
  device_id = m.device_id;
  provider_id = sender.provider_id;
  property_id = sender.property_id;
  edge_id = some sender.edge_id;
  label = m.device_name;
  device_class = m.device_class;
  vendor = m.vendor;
  site = m.site;
}

-- `devices.upsert` and `devices.update_health`: the database, and the prior status if it changed.
unfoldable pub note_health : ℕ → Sender → DeviceReport → Database → Database × Option Status
unfolding Devices.upsert Devices.update_health
note_health now sender m db =
    let described = Devices.upsert (description sender m) db.devices in
    let (devices', prior) = Devices.update_health m.device_id m.status m.score now described in
    (record db { devices = devices' }, prior)

abbrev pub report_change : Sender → Fresh → DeviceReport → Option Status → Database → Database
report_change sender fresh m none db = db
report_change sender fresh m (some prior) db =
    enqueue_event fresh 0 sender.property_id (device_health_changed m.device_id prior m.status) db

-- `_periodic`
unfoldable pub handle_periodic : ℕ → Sender → Fresh → DeviceReport → Database → Outcome Database
unfolding note_health insert_raw_event enqueue_event
handle_periodic now sender fresh m db =
    let (described, prior) = note_health now sender m db in
    insert_raw_event sender fresh "periodic" (some m.device_id) described >>= λ noted.
    done (report_change sender fresh m prior noted)

module _ (lower : String → String) (now : ℕ) (sender : Sender) where
  -- `_transition`
  unfoldable pub handle_transition :
      Fresh → DeviceReport → List TopEvent → Database → Outcome Database
  unfolding note_health insert_raw_event resolve_alerts raise_alert
  handle_transition fresh m events db =
      insert_raw_event sender fresh "transition" (some m.device_id) (note_health now sender m db).0
      >>= λ noted.
          if status_eq m.status healthy
          then done (resolve_alerts now fresh m noted)
          else raise_alert now sender fresh m.device_id (edge_summary lower m events) noted

  -- `_handle_one`
  abbrev pub handle_one : Fresh → Message → Database → Outcome Database
  handle_one fresh (edge_health m) db = handle_edge_health sender fresh m db
  handle_one fresh (periodic m) db = handle_periodic now sender fresh m db
  handle_one fresh (transition m events) db = handle_transition fresh m events db

pub record Rejected : Type 0 where
  pub index : ℕ
  pub kind : String
  pub device_id : Option String
  pub reason : Failure

pub record Reply : Type 0 where
  pub database : Database
  pub accepted : ℕ
  pub rejected : List Rejected

module _ (lower : String → String) (now : ℕ) (sender : Sender) where
  -- The loop of `handle_batch`: each message in its own transaction.
  unfoldable pub handle_messages : ℕ → List (Message × Fresh) → Database → ℕ → Reply
  unfolding handle_edge_health handle_periodic handle_transition
  handle_messages i [] db accepted = record { database = db; accepted = accepted; rejected = [] }
  handle_messages i ((m, fresh) ∷ rest) db accepted =
      elim (handle_one lower now sender fresh m db) [
        | done db' ↦ handle_messages (i + 1) rest db' (accepted + 1)
        | failed e ↦
            let r = handle_messages (i + 1) rest db accepted in
            record r {
              rejected =
                  record { index = i; kind = kind_of m; device_id = device_of m; reason = e }
                  ∷ r.rejected;
            }
      ]

  unfoldable pub handle_batch : Option String → List (Message × Fresh) → Database → Reply
  unfolding Properties.upsert handle_messages
  handle_batch property_name messages db =
      handle_messages 0 messages
        (Properties.upsert sender.provider_id sender.property_id
          (or_else property_name sender.property_id) none none db)
        0
