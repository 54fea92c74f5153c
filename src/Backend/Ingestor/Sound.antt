-- ===== src/Backend/Ingestor/Sound.antt =====
-- Whatever messages arrive, the database stays sound: its primary keys are distinct, and no device
-- has two open alerts of one kind.
use itdashboard.Prelude.{
  ℕ, ◌+◌, ◌≡◌, refl, String, inl, inr, Option, none, some, List, [], ◌∷◌, ltb, Bool-cases,
  Option-cases,
}
use itdashboard.Text.{or_else}
use itdashboard.Status.{Status, healthy, status_eq}
use itdashboard.Backend.Database.{TopEvent, Device, Property, Database}
use itdashboard.Backend.Database.Keys.{update_where-IsKeyed}
use itdashboard.Backend.Health.{EdgeSummary, alert_kind_of}
use itdashboard.Backend.Devices
use itdashboard.Backend.Properties
use itdashboard.Backend.Alerts.{find_open_for_device}
use itdashboard.Backend.Ingestor.{
  handle_edge_health, note_health, report_change, handle_periodic, handle_transition, handle_one,
  handle_messages, handle_batch, description, note_heartbeat, heartbeat,
}
use itdashboard.Backend.Raising.{edge_summary, raise_alert, found}
use itdashboard.Backend.Message.{
  Outcome, done, failed, EdgeHealth, DeviceReport, Message, edge_health, periodic, transition,
  Sender, Fresh, from_timestamp, enqueue_event, insert_raw_event, max_timestamp,
}
use itdashboard.Backend.Raising.Sound.{
  IsSound, OnDone, bind-OnDone, device_key, enqueue_event-IsSound, found-OnDone,
  insert_raw_event-IsSound, open_alert-IsSound, refresh_alert-IsSound, resolve_alerts-IsSound,
  upsert-IsKeyed,
}

note_health-IsSound :
    (now : ℕ) (sender : Sender) (m : DeviceReport) (db : Database)
    → IsSound db
    → IsSound (note_health now sender m db).0
unfolding note_health Devices.update_health
note_health-IsSound now sender m db h = record {
  devices =
      update_where-IsKeyed device_key (Devices.has_id m.device_id)
        (Devices.with_health m.status m.score now)
        (Devices.upsert (description sender m) db.devices) (λ s. refl)
        (upsert-IsKeyed (description sender m) db.devices h.devices);
  alerts = h.alerts;
  single = h.single;
  outbox = h.outbox;
  below = h.below;
}

raise_alert-IsSound :
    (now : ℕ) (sender : Sender) (fresh : Fresh) (id : String) (edge : EdgeSummary) (db : Database)
    → IsSound db
    → OnDone IsSound (raise_alert now sender fresh id edge db)
unfolding raise_alert
raise_alert-IsSound now sender fresh id edge db h =
    bind-OnDone (λ (device : Device). Unit {0}) IsSound (found (Devices.get id db.devices)) _
      (found-OnDone (Devices.get id db.devices))
      λ device _.
        bind-OnDone (λ (property : Property). Unit {0}) IsSound
          (found (Properties.get sender.provider_id sender.property_id db.properties)) _
          (found-OnDone (Properties.get sender.provider_id sender.property_id db.properties))
          λ property _.
            elim (Option-cases (find_open_for_device id (alert_kind_of edge.status) db.alerts)) [
              | inl e ↦ rw e (open_alert-IsSound now sender fresh id edge device property db e h)
              | inr (r, e) ↦ rw e (refresh_alert-IsSound sender fresh edge device property r db h)
            ]

handle_edge_health-IsSound :
    (sender : Sender) (fresh : Fresh) (m : EdgeHealth) (db : Database)
    → IsSound db
    → OnDone IsSound (handle_edge_health sender fresh m db)
unfolding handle_edge_health from_timestamp note_heartbeat
handle_edge_health-IsSound sender fresh m db h =
    bind-OnDone (λ (at : ℕ). Unit {0}) IsSound (from_timestamp m.ts) _ (in_range m.ts)
      λ at _.
        bind-OnDone IsSound IsSound
          (insert_raw_event sender fresh "edge_health" none (note_heartbeat sender m at db))
          (λ noted. done (enqueue_event fresh 0 sender.property_id (heartbeat sender m) noted))
          (insert_raw_event-IsSound sender fresh "edge_health" none (note_heartbeat sender m at db)
            (record {
              devices = h.devices;
              alerts = h.alerts;
              single = h.single;
              outbox = h.outbox;
              below = h.below;
            }))
          λ noted k. enqueue_event-IsSound fresh 0 sender.property_id (heartbeat sender m) noted k
  where
    in_range : (ts : ℕ) → OnDone (λ (at : ℕ). Unit {0}) (from_timestamp ts)
    in_range ts = elim (Bool-cases (ltb ts max_timestamp)) [ inl e ↦ rw e tt | inr e ↦ rw e tt ]

report_change-IsSound :
    (sender : Sender) (fresh : Fresh) (m : DeviceReport) (prior : Option Status) (db : Database)
    → IsSound db
    → IsSound (report_change sender fresh m prior db)
report_change-IsSound sender fresh m none db h = h
report_change-IsSound sender fresh m (some s) db h = enqueue_event-IsSound fresh 0 _ _ db h

module _ (lower : String → String) (now : ℕ) (sender : Sender) where
  handle_transition-IsSound :
      (fresh : Fresh) (m : DeviceReport) (events : List TopEvent) (db : Database)
      → IsSound db
      → OnDone IsSound (handle_transition lower now sender fresh m events db)
  unfolding handle_transition
  handle_transition-IsSound fresh m events db h =
      bind-OnDone IsSound IsSound
        (insert_raw_event sender fresh "transition" (some m.device_id)
          (note_health now sender m db).0)
        _ (insert_raw_event-IsSound sender fresh _ _ _ (note_health-IsSound now sender m db h))
        λ noted k. elim (Bool-cases (status_eq m.status healthy)) [
          | inl e ↦ rw e (resolve_alerts-IsSound now fresh m noted k)
          | inr e ↦ rw e (
              raise_alert-IsSound now sender fresh m.device_id (edge_summary lower m events) noted
                k)
        ]

  handle_one-IsSound :
      (fresh : Fresh) (m : Message) (db : Database)
      → IsSound db
      → OnDone IsSound (handle_one lower now sender fresh m db)
  unfolding handle_periodic
  handle_one-IsSound fresh (edge_health m) db h = handle_edge_health-IsSound sender fresh m db h
  handle_one-IsSound fresh (periodic m) db h =
      bind-OnDone IsSound IsSound
        (insert_raw_event sender fresh "periodic" (some m.device_id)
          (note_health now sender m db).0)
        _ (insert_raw_event-IsSound sender fresh _ _ _ (note_health-IsSound now sender m db h))
        λ noted k. report_change-IsSound sender fresh m (note_health now sender m db).1 noted k
  handle_one-IsSound fresh (transition m events) db h =
      handle_transition-IsSound fresh m events db h

  handle_messages-IsSound :
      (i : ℕ) (messages : List (Message × Fresh)) (db : Database) (n : ℕ)
      → IsSound db
      → IsSound (handle_messages lower now sender i messages db n).database
  unfolding handle_messages
  handle_messages-IsSound i [] db n h = h
  handle_messages-IsSound i ((m, fresh) ∷ rest) db n h =
      go (handle_one lower now sender fresh m db) refl (handle_one-IsSound fresh m db h)
        (λ db' k. handle_messages-IsSound (i + 1) rest db' (n + 1) k)
        (handle_messages-IsSound (i + 1) rest db n h)
    where
      go :
          (o : Outcome Database)
          → handle_one lower now sender fresh m db ≡ o
          → OnDone IsSound o
          → ((db' : Database)
              → IsSound db'
              → IsSound (handle_messages lower now sender (i + 1) rest db' (n + 1)).database)
          → IsSound (handle_messages lower now sender (i + 1) rest db n).database
          → IsSound (handle_messages lower now sender i ((m, fresh) ∷ rest) db n).database
      go (done db') e k next skip = rw (e, handle_messages) (next db' k)
      go (failed f) e k next skip = rw (e, handle_messages) skip

  -- Whatever batch arrives at a sound database, it stays sound: devices, alerts and outbox rows
  -- have distinct keys, the outbox ids are below the counter, and no device has two open alerts of
  -- one kind.
  pub handle_batch-IsSound :
      (name : Option String) (messages : List (Message × Fresh)) (db : Database)
      → IsSound db
      → IsSound (handle_batch lower now sender name messages db).database
  unfolding handle_batch Properties.upsert
  handle_batch-IsSound name messages db h =
      handle_messages-IsSound 0 messages
        (Properties.upsert sender.provider_id sender.property_id (or_else name sender.property_id)
          none none db)
        0
        (record {
          devices = h.devices;
          alerts = h.alerts;
          single = h.single;
          outbox = h.outbox;
          below = h.below;
        })
