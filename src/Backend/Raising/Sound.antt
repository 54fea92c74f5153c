-- ===== src/Backend/Raising/Sound.antt =====
-- A sound database, and that what a transition does to the alerts keeps it sound.
use itdashboard.Prelude.{
  ℕ, ◌+◌, ◌<◌, ◌≡◌, ◌≢◌, refl, String, false, inl, inr, Option, none, some, List, [], ◌∷◌, arith,
  eq_iff, All, All-imp, All-append, Option-cases,
}
use itdashboard.Table.Delete.{IsKeyed}
use itdashboard.Backend.Database.{
  resolved, Detail, Event, Device, Property, Alert, OutboxRow, Database, first_where,
}
use itdashboard.Backend.Database.Keys.{snoc-IsKeyed, update_where-IsKeyed, first_where-none}
use itdashboard.Backend.Health.{materialize_alert_from_transition, EdgeSummary, alert_kind_of}
use itdashboard.Backend.Devices
use itdashboard.Backend.Alerts.{
  has_id, create, update_detail, find_open_for_device, resolve_all_for_device, in_state, open_of,
}
use itdashboard.Backend.Alerts.Open.{
  alert_key, AreSingle, count-update_detail, count-resolve_all, find_open_none, count-snoc,
}
use itdashboard.Backend.Raising.{
  report_resolved, resolve_alerts, refresh_alert, new_alert, open_alert, found, summary_of,
}
use itdashboard.Backend.Message.{
  Outcome, done, failed, ◌>>=◌, DeviceReport, Sender, Fresh, enqueue_event, insert_raw_event,
  same_raw,
}

abbrev pub device_key : Device → String
device_key r = r.device_id

abbrev pub outbox_key : OutboxRow → ℕ
outbox_key r = r.outbox_id

pub record IsSound (db : Database) : Type 0 where
  pub devices : IsKeyed device_key db.devices
  pub alerts : IsKeyed alert_key db.alerts
  pub single : AreSingle db.alerts
  pub outbox : IsKeyed outbox_key db.event_outbox
  pub below : All (λ r. r.outbox_id < db.next_outbox_id) db.event_outbox

-- A postcondition of a step that may fail.
abbrev pub OnDone {ℓ κ} : {A : Type ℓ} → (A → Type κ) → Outcome A → Type κ
OnDone P (done a) = P a
OnDone P (failed e) = Unit

pub bind-OnDone {ℓ κ μ ν} :
    {A : Type ℓ} {B : Type κ} (P : A → Type μ) (Q : B → Type ν) (m : Outcome A) (f : A → Outcome B)
    → OnDone P m
    → ((a : A) → P a → OnDone Q (f a))
    → OnDone Q (m >>= f)
bind-OnDone P Q (done a) f h k = k a h
bind-OnDone P Q (failed e) f h k = tt

pub enqueue_event-IsSound :
    (fresh : Fresh) (n : ℕ) (property : String) (event : Event) (db : Database)
    → IsSound db
    → IsSound (enqueue_event fresh n property event db)
unfolding enqueue_event
enqueue_event-IsSound fresh n property event db h = record {
  devices = h.devices;
  alerts = h.alerts;
  single = h.single;
  outbox = snoc-IsKeyed outbox_key db.event_outbox _ h.outbox (
      All-imp (λ r. r.outbox_id < db.next_outbox_id) (λ r. r.outbox_id ≢ db.next_outbox_id)
        (λ r k. ground arith) db.event_outbox h.below);
  below =
      All-append (λ r. r.outbox_id < db.next_outbox_id + 1) db.event_outbox _
        (All-imp (λ r. r.outbox_id < db.next_outbox_id) (λ r. r.outbox_id < db.next_outbox_id + 1)
          (λ r k. omega arith) db.event_outbox h.below)
        (omega arith, tt);
}

pub insert_raw_event-IsSound :
    (sender : Sender) (fresh : Fresh) (kind : String) (device : Option String) (db : Database)
    → IsSound db
    → OnDone IsSound (insert_raw_event sender fresh kind device db)
unfolding insert_raw_event
insert_raw_event-IsSound sender fresh kind device db h =
    elim (Option-cases (first_where (same_raw fresh) db.raw_events)) [
      | inl e ↦
          rw (e, insert_raw_event)
            (record {
              devices = h.devices;
              alerts = h.alerts;
              single = h.single;
              outbox = h.outbox;
              below = h.below;
            })
      | inr (r, e) ↦ rw (e, insert_raw_event) tt
    ]

pub upsert-IsKeyed :
    (m : Devices.Description) (rows : List Device)
    → IsKeyed device_key rows
    → IsKeyed device_key (Devices.upsert m rows)
unfolding Devices.upsert Devices.get
upsert-IsKeyed m rows h = elim (Option-cases (first_where (Devices.has_id m.device_id) rows)) [
  | inl e ↦
      let absent = first_where-none (Devices.has_id m.device_id) rows e in
      rw (e, Devices.upsert, Devices.get)
        (snoc-IsKeyed device_key rows (Devices.inserted m) h (
          All-imp (λ r. Devices.has_id m.device_id r ≡ false) (λ r. device_key r ≢ m.device_id)
            (λ r k same. ground (arith, eq_iff r.device_id m.device_id)) rows absent))
  | inr (r, e) ↦
      rw (e, Devices.upsert, Devices.get)
        (update_where-IsKeyed device_key (Devices.has_id m.device_id) (Devices.merged m) rows
          (λ s. refl) h)
]

pub report_resolved-IsSound :
    (fresh : Fresh) (n : ℕ) (rows : List (String × String)) (db : Database)
    → IsSound db
    → IsSound (report_resolved fresh n rows db)
unfolding report_resolved
report_resolved-IsSound fresh n [] db h = h
report_resolved-IsSound fresh n ((a, p) ∷ rows) db h =
    report_resolved-IsSound fresh (n + 1) rows _ (enqueue_event-IsSound fresh n p _ db h)

pub resolve_alerts-IsSound :
    (now : ℕ) (fresh : Fresh) (m : DeviceReport) (db : Database)
    → IsSound db
    → IsSound (resolve_alerts now fresh m db)
unfolding resolve_alerts resolve_all_for_device
resolve_alerts-IsSound now fresh m db h =
    let r = resolve_all_for_device m.device_id now db.alerts in
    report_resolved-IsSound fresh 0 r.1 (record db { alerts = r.0 })
      (record {
        devices = h.devices;
        alerts =
            update_where-IsKeyed alert_key (open_of m.device_id) (in_state resolved now) db.alerts
              (λ s. refl) h.alerts;
        single = λ d k.
            let c = count-resolve_all m.device_id now d k db.alerts in
            let s = h.single d k in ground arith;
        outbox = h.outbox;
        below = h.below;
      })

pub update_detail-IsKeyed :
    (id : String) (detail : Detail) (summary : String) (rows : List Alert)
    → IsKeyed alert_key rows
    → IsKeyed alert_key (update_detail id detail summary rows)
unfolding update_detail
update_detail-IsKeyed id detail summary rows =
    update_where-IsKeyed alert_key (has_id id)
      (λ (r : Alert). record r { detail = detail; summary = summary }) rows (λ s. refl)

pub refresh_alert-IsSound :
    (sender : Sender) (fresh : Fresh) (edge : EdgeSummary) (device : Device) (property : Property)
    (existing : Alert) (db : Database)
    → IsSound db
    → IsSound (refresh_alert sender fresh edge device property existing db)
unfolding refresh_alert
refresh_alert-IsSound sender fresh edge device property existing db h =
    let detail =
      materialize_alert_from_transition fresh.correlation_uuid edge device property
        existing.opened_at in
    let summary = summary_of detail.causal_chain (alert_kind_of edge.status) in
    enqueue_event-IsSound fresh 0 _ _ _ (record {
      devices = h.devices;
      alerts =
          update_where-IsKeyed alert_key (has_id existing.alert_id) _ db.alerts (λ s. refl)
            h.alerts;
      single = λ d k.
          let c = count-update_detail existing.alert_id detail summary d k db.alerts in
          let s = h.single d k in omega (arith, c, s);
      outbox = h.outbox;
      below = h.below;
    })

pub open_alert-IsSound :
    (now : ℕ) (sender : Sender) (fresh : Fresh) (id : String) (edge : EdgeSummary) (device : Device)
    (property : Property) (db : Database)
    → find_open_for_device id (alert_kind_of edge.status) db.alerts ≡ none
    → IsSound db
    → OnDone IsSound (open_alert now sender fresh id edge device property db)
unfolding open_alert create
open_alert-IsSound now sender fresh id edge device property db absent h =
    let new = new_alert now sender fresh id edge device property in
    elim (Option-cases (first_where (has_id fresh.alert_uuid) db.alerts)) [
      | inl e ↦
          let other = first_where-none (has_id fresh.alert_uuid) db.alerts e in
          rw (e, open_alert, create)
            (enqueue_event-IsSound fresh 0 _ _ _ (record {
              devices = h.devices;
              alerts = snoc-IsKeyed alert_key db.alerts new h.alerts (
                  All-imp (λ r. has_id fresh.alert_uuid r ≡ false)
                    (λ r. alert_key r ≢ fresh.alert_uuid)
                    (λ r k same. ground (arith, eq_iff r.alert_id fresh.alert_uuid)) db.alerts
                    other);
              single = λ d k.
                  let c = count-snoc d k db.alerts new in
                  let s = h.single d k in
                  let z = find_open_none id (alert_kind_of edge.status) db.alerts absent in
                  ground (arith, eq_iff id d, eq_iff (alert_kind_of edge.status) k);
              outbox = h.outbox;
              below = h.below;
            }))
      | inr (r, e) ↦ rw (e, open_alert, create) tt
    ]

pub found-OnDone {ℓ} : {A : Type ℓ} (o : Option A) → OnDone (λ (a : A). Unit {0}) (found o)
found-OnDone none = tt
found-OnDone (some a) = tt
