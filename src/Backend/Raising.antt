-- ===== src/Backend/Raising.antt =====
-- What a transition does to the alerts of its device: the branches of _transition of
-- backend/app/lib/ingestor.py. `str.lower` is an argument.
pub mod Sound
use itdashboard.Prelude.{
  ℕ, ◌+◌, String, Bool, true, false, Option, none, some, List, [], ◌∷◌, ◌++◌, map, str_eq, ltb,
  ◌==◌, ◌&&◌, if◌then◌else◌,
}
use itdashboard.Text.{or_else}
use itdashboard.Status.{Status, healthy, status_eq}
use itdashboard.Backend.Database.{
  TopEvent, Tier, Detail, Property, EdgeBox, Device, Alert, opened, resolved, Event, edge_heartbeat,
  device_health_changed, alert_state_changed, alert_updated, alert_opened, OutboxRow, RawEvent,
  Database, first_where,
}
use itdashboard.Backend.Health.{
  normalize_severity, severity_for_transition, alert_kind_of, EdgeSummary,
  materialize_alert_from_transition,
}
use itdashboard.Backend.Devices
use itdashboard.Backend.Properties
use itdashboard.Backend.Alerts.{create, update_detail, find_open_for_device, resolve_all_for_device}
use itdashboard.Backend.Message.{
  DeviceReport, EdgeHealth, Failure, Fresh, Message, Outcome, Sender, device_of, done,
  duplicate_key, edge_health, enqueue_event, failed, from_timestamp, insert_raw_event, kind_of,
  max_timestamp, no_row, periodic, raw_event, same_raw, time_out_of_range, transition, ◌>>=◌,
}

-- The loop over the alerts that were resolved.
unfoldable pub report_resolved : Fresh → ℕ → List (String × String) → Database → Database
unfolding enqueue_event
report_resolved fresh n [] db = db
report_resolved fresh n ((alert_id, property_id) ∷ rows) db =
    report_resolved fresh (n + 1) rows
      (enqueue_event fresh n property_id (alert_state_changed alert_id opened resolved) db)

-- The first branch of `_transition`: the device is healthy again.
unfoldable pub resolve_alerts : ℕ → Fresh → DeviceReport → Database → Database
unfolding resolve_all_for_device report_resolved
resolve_alerts now fresh m db =
    let (alerts', rows) = resolve_all_for_device m.device_id now db.alerts in
    report_resolved fresh 0 rows (record db { alerts = alerts' })

-- What the schema lets through of a transition: no categories, and no window.
abbrev pub edge_summary : (String → String) → DeviceReport → List TopEvent → EdgeSummary
edge_summary lower m events = record {
  status = m.status;
  reasons = m.reasons;
  event_count = m.event_count;
  error_count = m.error_count;
  categories = [];
  window_seconds = 300;
  top_events =
      map (λ (e : TopEvent). record e { severity = normalize_severity lower e.severity }) events;
}

abbrev pub summary_of : List Tier → String → String
summary_of [] kind = kind
summary_of (t ∷ rest) kind = t.description

-- The second branch: an open alert of this kind is refreshed.
unfoldable pub refresh_alert :
    Sender → Fresh → EdgeSummary → Device → Property → Alert → Database → Database
unfolding materialize_alert_from_transition update_detail enqueue_event
refresh_alert sender fresh edge device property existing db =
    let detail =
      materialize_alert_from_transition fresh.correlation_uuid edge device property
        existing.opened_at in
    enqueue_event fresh 0 sender.property_id (alert_updated existing.alert_id) (record db {
      alerts =
          update_detail existing.alert_id detail
            (summary_of detail.causal_chain (alert_kind_of edge.status)) db.alerts;
    })

abbrev pub new_alert : ℕ → Sender → Fresh → String → EdgeSummary → Device → Property → Alert
new_alert now sender fresh device_id edge device property =
    let detail =
      materialize_alert_from_transition fresh.correlation_uuid edge device property now in
    record {
      alert_id = fresh.alert_uuid;
      provider_id = sender.provider_id;
      property_id = sender.property_id;
      device_id = some device_id;
      severity = severity_for_transition edge.status;
      state = opened;
      alert_kind = alert_kind_of edge.status;
      summary = summary_of detail.causal_chain (alert_kind_of edge.status);
      correlation_id = some detail.identity.correlation_id;
      opened_at = now;
      triaged_at = none;
      acted_at = none;
      resolved_at = none;
      auto_fix_authorized = false;
      detail = detail;
    }

-- The last branch: an alert is opened.
unfoldable pub open_alert :
    ℕ → Sender → Fresh → String → EdgeSummary → Device → Property → Database → Outcome Database
unfolding create enqueue_event
open_alert now sender fresh device_id edge device property db =
    let alert = new_alert now sender fresh device_id edge device property in
    elim (create alert db.alerts) [
      | none ↦ failed duplicate_key
      | some alerts' ↦ done (
          enqueue_event fresh 0 sender.property_id
            (alert_opened (record {
              alert_id = alert.alert_id;
              provider_id = sender.provider_id;
              property_id = sender.property_id;
              property_name = property.name;
              device_id = device_id;
              device_class = device.device_class;
              severity = alert.severity;
              alert_kind = alert.alert_kind;
              summary = alert.summary;
              opened_at = now;
            }))
            (record db { alerts = alerts' }))
    ]

abbrev pub found {ℓ} : {A : Type ℓ} → Option A → Outcome A
found none = failed no_row
found (some a) = done a

unfoldable pub raise_alert : ℕ → Sender → Fresh → String → EdgeSummary → Database → Outcome Database
unfolding Devices.get Properties.get find_open_for_device refresh_alert open_alert
raise_alert now sender fresh device_id edge db = do
  device ← found (Devices.get device_id db.devices)
  property ← found (Properties.get sender.provider_id sender.property_id db.properties)
  elim (find_open_for_device device_id (alert_kind_of edge.status) db.alerts) [
    | some existing ↦ done (refresh_alert sender fresh edge device property existing db)
    | none ↦ open_alert now sender fresh device_id edge device property db
  ]
