-- ===== src/Backend/Ingestor/Transition.antt =====
-- What a transition does to its device and to the open alerts.
use itdashboard.Prelude.{
  ℕ, ◌+◌, ◌≡◌, refl, ap, ◌∙◌, String, true, false, inl, inr, Option, none, some, List, [], ◌∷◌,
  ◌++◌, arith, str_eq, eq_iff, if◌then◌else◌, count, Bool-cases, Option-cases,
}
use text.Mathlib.TextPositions.{eq_refl}
use itdashboard.Status.{healthy, status_eq}
use itdashboard.Backend.Database.{
  TopEvent, Device, Property, Alert, Database, first_where, update_where,
}
use itdashboard.Backend.Database.Keys.{first_where-update_where, first_where-snoc}
use itdashboard.Backend.Health.{alert_kind_of, materialize_alert_from_transition}
use itdashboard.Backend.Devices
use itdashboard.Backend.Properties
use itdashboard.Backend.Alerts.{
  has_id, open_for, create, find_open_for_device, resolve_all_for_device,
}
use itdashboard.Backend.Alerts.Open.{
  AreSingle, count-update_detail, count-resolve_all, find_open_none, find_open_some, count-snoc,
}
use itdashboard.Backend.Ingestor.{note_health, handle_transition, description}
use itdashboard.Backend.Raising.{
  report_resolved, resolve_alerts, edge_summary, refresh_alert, new_alert, open_alert, raise_alert,
  summary_of,
}
use itdashboard.Backend.Message.{
  Outcome, done, DeviceReport, Sender, Fresh, enqueue_event, insert_raw_event, raw_event, same_raw,
}

-- The step succeeds, with a result of which P holds.
abbrev pub Yields {ℓ κ} : {A : Type ℓ} → (A → Type κ) → Outcome A → Type (ℓ ⊔ κ)
Yields {A = A} P o = (a : A) × (o ≡ done a) × P a

-- The row of the device of a report, from the row before.
abbrev pub reported : ℕ → Sender → DeviceReport → Option Device → Device
reported now sender m none =
    Devices.with_health m.status m.score now (Devices.inserted (description sender m))
reported now sender m (some r) =
    Devices.with_health m.status m.score now (Devices.merged (description sender m) r)

note_health-get :
    (now : ℕ) (sender : Sender) (m : DeviceReport) (db : Database)
    → Devices.get m.device_id (note_health now sender m db).0.devices
      ≡ some (reported now sender m (Devices.get m.device_id db.devices))
unfolding note_health Devices.update_health Devices.upsert Devices.get
note_health-get now sender m db =
    let d = Devices.has_id m.device_id in
    let health = Devices.with_health m.status m.score now in
    let info = description sender m in
    elim (Option-cases (first_where d db.devices)) [
      | inl e ↦
          let new = Devices.inserted info in
          let last : first_where d (db.devices ++ new ∷ []) ≡ some new =
            first_where-snoc d db.devices new e ∙ rw (eq_refl m.device_id) refl in
          rw (e, Devices.get, Devices.upsert)
            (first_where-update_where d health (db.devices ++ new ∷ []) new (λ s. refl) last)
      | inr (r, e) ↦
          let merge = Devices.merged info in
          let kept = first_where-update_where d merge db.devices r (λ s. refl) e in
          rw (e, Devices.get, Devices.upsert)
            (first_where-update_where d health (update_where d merge db.devices) (merge r)
              (λ s. refl) kept)
    ]

-- How many open alerts of a kind a device has after a transition, by how many it had.
abbrev pub expected : DeviceReport → String → String → ℕ → ℕ
expected m x k n =
    if str_eq m.device_id x
    then (if status_eq m.status healthy
        then 0
        else if str_eq (alert_kind_of m.status) k
        then 1
        else n)
    else n

abbrev pub AsExpected : DeviceReport → List Alert → List Alert → Type 0
AsExpected m before after =
    (x k : String) → count (open_for x k) after ≡ expected m x k (count (open_for x k) before)

report_resolved-devices :
    (fresh : Fresh) (n : ℕ) (rows : List (String × String)) (db : Database)
    → ((report_resolved fresh n rows db).devices ≡ db.devices)
      × ((report_resolved fresh n rows db).alerts ≡ db.alerts)
unfolding report_resolved enqueue_event
report_resolved-devices fresh n [] db = (refl, refl)
report_resolved-devices fresh n ((a, p) ∷ rows) db = report_resolved-devices fresh (n + 1) rows _

resolve_alerts_lem :
    (now : ℕ) (fresh : Fresh) (m : DeviceReport) (db : Database)
    → status_eq m.status healthy ≡ true
    → ((resolve_alerts now fresh m db).devices ≡ db.devices)
      × AsExpected m db.alerts (resolve_alerts now fresh m db).alerts
unfolding resolve_alerts
resolve_alerts_lem now fresh m db h =
    let r = resolve_all_for_device m.device_id now db.alerts in
    let (d, a) = report_resolved-devices fresh 0 r.1 (record db { alerts = r.0 }) in
    (
      d,
      λ x k.
          ap (count (open_for x k)) a ∙ count-resolve_all m.device_id now x k db.alerts ∙ rw h refl,
    )

refresh_alert_lem :
    (sender : Sender) (fresh : Fresh) (m : DeviceReport) (lower : String → String)
    (events : List TopEvent) (device : Device) (property : Property) (existing : Alert)
    (db : Database)
    → status_eq m.status healthy ≡ false
    → AreSingle db.alerts
    → find_open_for_device m.device_id (alert_kind_of m.status) db.alerts ≡ some existing
    → ((refresh_alert sender fresh
          (edge_summary lower m events)
          device
          property
          existing
          db).devices
        ≡ db.devices)
      × AsExpected m db.alerts
          (refresh_alert sender fresh
            (edge_summary lower m events)
            device
            property
            existing
            db).alerts
unfolding refresh_alert enqueue_event
refresh_alert_lem sender fresh m lower events device property existing db h single e =
    let kind = alert_kind_of m.status in
    let detail =
      materialize_alert_from_transition fresh.correlation_uuid (edge_summary lower m events) device
        property existing.opened_at in
    let summary = summary_of detail.causal_chain (alert_kind_of m.status) in
    (
      refl,
      λ x k.
          let some_open = find_open_some m.device_id kind db.alerts existing e in
          let at_most = single m.device_id kind in
          let same = count-update_detail existing.alert_id detail summary x k db.alerts in
          ground (arith, eq_iff m.device_id x, eq_iff kind k),
    )

open_alert_lem :
    (now : ℕ) (sender : Sender) (fresh : Fresh) (m : DeviceReport) (lower : String → String)
    (events : List TopEvent) (device : Device) (property : Property) (db : Database)
    → status_eq m.status healthy ≡ false
    → find_open_for_device m.device_id (alert_kind_of m.status) db.alerts ≡ none
    → first_where (has_id fresh.alert_uuid) db.alerts ≡ none
    → Yields
        (λ db'. (db'.devices ≡ db.devices) × AsExpected m db.alerts db'.alerts)
        (open_alert now sender fresh m.device_id (edge_summary lower m events) device property db)
unfolding open_alert create enqueue_event
open_alert_lem now sender fresh m lower events device property db h e new_id =
    let kind = alert_kind_of m.status in
    let new =
      new_alert now sender fresh m.device_id (edge_summary lower m events) device property in
    rw (new_id, open_alert, create)
      (
        _,
        refl,
        (
          refl,
          λ x k.
              let none_open = find_open_none m.device_id kind db.alerts e in
              let one_more = count-snoc x k db.alerts new in
              ground (arith, eq_iff m.device_id x, eq_iff kind k),
        ),
      )

raise_alert_lem :
    (now : ℕ) (sender : Sender) (fresh : Fresh) (m : DeviceReport) (lower : String → String)
    (events : List TopEvent) (device : Device) (property : Property) (db : Database)
    → status_eq m.status healthy ≡ false
    → AreSingle db.alerts
    → first_where (has_id fresh.alert_uuid) db.alerts ≡ none
    → Devices.get m.device_id db.devices ≡ some device
    → Properties.get sender.provider_id sender.property_id db.properties ≡ some property
    → Yields
        (λ db'. (db'.devices ≡ db.devices) × AsExpected m db.alerts db'.alerts)
        (raise_alert now sender fresh m.device_id (edge_summary lower m events) db)
unfolding raise_alert
raise_alert_lem now sender fresh m lower events device property db h single new_id d p =
    elim (Option-cases (find_open_for_device m.device_id (alert_kind_of m.status) db.alerts)) [
      | inl e ↦
          rw (d, p, e)
            (open_alert_lem now sender fresh m lower events device property db h e new_id)
      | inr (r, e) ↦
          rw (d, p, e)
            (_, refl, refresh_alert_lem sender fresh m lower events device property r db h single e)
    ]

module _ (lower : String → String) (now : ℕ) (sender : Sender) where
  -- With fresh uuids and a known property, and no two open alerts of one kind for a device, a
  -- transition succeeds and stores what it says of its device. If the device is healthy again,
  -- none of its alerts stays open; else it has exactly one open alert of the kind of its new
  -- status. The open alerts of other kinds and devices are as many as before.
  pub handle_transition_lem :
      (fresh : Fresh) (m : DeviceReport) (events : List TopEvent) (db : Database)
      (property : Property)
      → AreSingle db.alerts
      → first_where (same_raw fresh) db.raw_events ≡ none
      → first_where (has_id fresh.alert_uuid) db.alerts ≡ none
      → Properties.get sender.provider_id sender.property_id db.properties ≡ some property
      → Yields
          (λ db'.
            (Devices.get m.device_id db'.devices
              ≡ some (reported now sender m (Devices.get m.device_id db.devices)))
            × AsExpected m db.alerts db'.alerts)
          (handle_transition lower now sender fresh m events db)
  unfolding handle_transition insert_raw_event note_health
  handle_transition_lem fresh m events db property single raw new_id p =
      let got = note_health-get now sender m db in
      let described = (note_health now sender m db).0 in
      let noted = record described {
        raw_events = db.raw_events ++ raw_event sender fresh "transition" (some m.device_id) ∷ [];
      } in
      elim (Bool-cases (status_eq m.status healthy)) [
        | inl e ↦
            let (d, a) = resolve_alerts_lem now fresh m noted e in
            rw (raw, e) (_, refl, (ap (Devices.get m.device_id) d ∙ got, λ x k. a x k ∙ rw e refl))
        | inr e ↦
            let device = reported now sender m (Devices.get m.device_id db.devices) in
            let (db', r, (d, a)) =
              raise_alert_lem now sender fresh m lower events device property noted e single new_id
                got p in
            rw (raw, e) (db', r, (ap (Devices.get m.device_id) d ∙ got, λ x k. a x k ∙ rw e refl))
      ]
