-- ===== src/Backend/PropertyDetail.antt =====
-- `get_property` of backend/app/routers/properties.py. The summary of a raw event is made of its
-- payload, which the tables here leave out, and is an argument.
pub mod Tile
use itdashboard.Prelude.{
  ℕ, String, Bool, true, false, not, ◌&&◌, Option, none, some, List, [], ◌∷◌, map, ◌⊎◌, inl, inr,
  str_eq, if◌then◌else◌, take, select, ltb,
}
use itdashboard.Status.{Status, healthy, status_eq}
use itdashboard.Table.Rank.{rank_by}
use itdashboard.Backend.Database.{Property, Device, RawEvent, Database}
use itdashboard.Backend.Health.{property_health_score}
use itdashboard.Backend.Properties
use itdashboard.Backend.Alerts.Counts.{count_by_severity}
use itdashboard.Backend.Estate.{
  OpenAlerts, no_alerts, open_alerts_of, EdgeBoxSummary, edge_box_summary,
  list_edge_boxes_for_property, list_for_property, healths_of,
}
use itdashboard.Backend.Views.{RequestError, not_found}

pub record DeviceSummary : Type 0 where
  pub device_id : String
  pub label : Option String
  pub device_class : Option String
  pub vendor : Option String
  pub site : Option String
  pub health_status : Status
  pub health_score : Option ℕ
  pub last_seen_at : Option ℕ
  pub open_alerts : OpenAlerts

pub record RecentEvent : Type 0 where
  pub event_id : String
  pub kind : String
  pub received_at : ℕ
  pub summary : String

pub record Detail : Type 0 where
  pub provider_id : String
  pub property_id : String
  pub name : String
  pub site_code : Option String
  pub address : Option String
  pub health_score : ℕ
  pub health_status : Status
  pub open_alerts : OpenAlerts
  pub edge_boxes : List EdgeBoxSummary
  pub devices : List DeviceSummary
  pub recent_events : List RecentEvent

-- A device that is not healthy shows the open alerts of its whole property.
abbrev pub device_summary : OpenAlerts → Device → DeviceSummary
device_summary prop_alerts d = record {
  device_id = d.device_id;
  label = d.label;
  device_class = d.device_class;
  vendor = d.vendor;
  site = d.site;
  health_status = d.health_status;
  health_score = d.health_score;
  last_seen_at = d.last_seen_at;
  open_alerts = if not (status_eq d.health_status healthy) then prop_alerts else no_alerts;
}

-- ORDER BY received_at DESC LIMIT 20
unfoldable pub recent_events_of :
    (RawEvent → String) → String → String → List RawEvent → List RecentEvent
unfolding rank_by
recent_events_of summary provider_id property_id rows =
    map
      (λ r. record {
        event_id = r.event_id;
        kind = r.kind;
        received_at = r.received_at;
        summary = summary r;
      })
      (take 20 (
        rank_by (λ a b. ltb b.received_at a.received_at)
          (select (λ r. str_eq r.provider_id provider_id && str_eq r.property_id property_id)
            rows)))

module _ (collate : String → String → Bool) (summary : RawEvent → String) where
  unfoldable pub detail_of : ℕ → String → String → Database → Property → Detail
  unfolding property_health_score count_by_severity list_edge_boxes_for_property list_for_property
      edge_box_summary recent_events_of
  detail_of now provider_id property_id db prop =
      let devices = list_for_property collate provider_id property_id db.devices in
      let prop_alerts =
        open_alerts_of (count_by_severity provider_id (some property_id) db.alerts) in
      let (score, status) = property_health_score (healths_of collate devices) in
      record {
        provider_id = provider_id;
        property_id = prop.property_id;
        name = prop.name;
        site_code = prop.site_code;
        address = prop.address;
        health_score = score;
        health_status = status;
        open_alerts = prop_alerts;
        edge_boxes =
            map (edge_box_summary now)
              (list_edge_boxes_for_property provider_id property_id db.edge_boxes);
        devices = map (device_summary prop_alerts) devices;
        recent_events = recent_events_of summary provider_id property_id db.raw_events;
      }

  abbrev pub shown : ℕ → String → String → Database → Option Property → RequestError ⊎ Detail
  shown now provider_id property_id db none = inl not_found
  shown now provider_id property_id db (some prop) =
      inr (detail_of now provider_id property_id db prop)

  unfoldable pub get_property : ℕ → String → String → Database → RequestError ⊎ Detail
  unfolding Properties.get detail_of
  get_property now provider_id property_id db =
      shown now provider_id property_id db (Properties.get provider_id property_id db.properties)
