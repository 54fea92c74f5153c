-- ===== src/Backend/Estate.antt =====
-- `get_estate` of backend/app/routers/estate.py, with the listings of repositories/properties.py and
-- repositories/devices.py that it asks for. How PostgreSQL compares two names is an argument,
-- `collate`; rows that tie come in the order of the table. Times are in seconds.
pub mod Sums
pub mod Listed
use itdashboard.Prelude.{
  ℕ, ◌+◌, ◌*◌, ◌/◌, String, Bool, true, false, not, ◌&&◌, ◌||◌, Option, none, some, List, [], ◌∷◌,
  map, str_eq, leb, ltb, ◌==◌, if◌then◌else◌, select, length, sum_by,
}
use itdashboard.Status.{Status}
use itdashboard.Table.Rank.{rank_by}
use itdashboard.Backend.Database.{
  Severity, p1, p2, p3, p4, Property, EdgeBox, Device, Alert, Database,
}
use itdashboard.Backend.Health.{property_health_score}
use itdashboard.Backend.Properties
use itdashboard.Backend.Alerts.Counts.{count_by_severity, worst_open}

pub record OpenAlerts : Type 0 where
  pub p1 : ℕ
  pub p2 : ℕ
  pub p3 : ℕ
  pub p4 : ℕ

pub record EdgeBoxSummary : Type 0 where
  pub edge_id : String
  pub online : Bool
  pub last_heartbeat_at : Option ℕ
  pub tracked_devices : ℕ
  pub unhealthy_devices : ℕ
  pub queue_depth : ℕ
  pub summary_interval_seconds : ℕ

pub record PropertySummary : Type 0 where
  pub provider_id : String
  pub property_id : String
  pub name : String
  pub site_code : Option String
  pub address : Option String
  pub health_score : ℕ
  pub health_status : Status
  pub open_alerts : OpenAlerts
  pub worst_alert_summary : Option String
  pub edge_box : Option EdgeBoxSummary

pub record KpiStrip : Type 0 where
  pub estate_health_score : ℕ
  pub sites_online : ℕ
  pub sites_total : ℕ
  pub open_alerts : OpenAlerts

-- `interval = … or 60`, and a heartbeat within two intervals.
abbrev pub interval_of : EdgeBox → ℕ
interval_of box = if box.summary_interval_seconds == 0 then 60 else box.summary_interval_seconds

abbrev pub is_online : ℕ → EdgeBox → Option ℕ → Bool
is_online now box none = false
is_online now box (some heartbeat) = leb now (heartbeat + interval_of box * 2)

unfoldable pub edge_box_summary : ℕ → EdgeBox → EdgeBoxSummary
edge_box_summary now box = record {
  edge_id = box.edge_id;
  online = is_online now box box.last_heartbeat_at;
  last_heartbeat_at = box.last_heartbeat_at;
  tracked_devices = box.tracked_devices;
  unhealthy_devices = box.unhealthy_devices;
  queue_depth = box.queue_depth;
  summary_interval_seconds = box.summary_interval_seconds;
}

-- ORDER BY last_heartbeat_at DESC NULLS LAST
abbrev pub newer : Option ℕ → Option ℕ → Bool
newer none t = false
newer (some s) none = true
newer (some s) (some t) = ltb t s

unfoldable pub list_edge_boxes_for_property : String → String → List EdgeBox → List EdgeBox
unfolding rank_by
list_edge_boxes_for_property provider_id property_id rows =
    rank_by (λ a b. newer a.last_heartbeat_at b.last_heartbeat_at)
      (select (λ b. str_eq b.provider_id provider_id && str_eq b.property_id property_id) rows)

-- LIMIT 1
abbrev pub first_of {ℓ} : {A : Type ℓ} → List A → Option A
first_of [] = none
first_of (r ∷ rows) = some r

unfoldable pub get_edge_box_for_property : String → String → List EdgeBox → Option EdgeBox
unfolding list_edge_boxes_for_property
get_edge_box_for_property provider_id property_id rows =
    first_of (list_edge_boxes_for_property provider_id property_id rows)

abbrev pub open_alerts_of : (Severity → ℕ) → OpenAlerts
open_alerts_of c = record { p1 = c p1; p2 = c p2; p3 = c p3; p4 = c p4 }

abbrev pub add_alerts : OpenAlerts → OpenAlerts → OpenAlerts
add_alerts a b = record { p1 = a.p1 + b.p1; p2 = a.p2 + b.p2; p3 = a.p3 + b.p3; p4 = a.p4 + b.p4 }

abbrev pub no_alerts : OpenAlerts
no_alerts = record { p1 = 0; p2 = 0; p3 = 0; p4 = 0 }

abbrev pub summary_of : Option Alert → Option String
summary_of none = none
summary_of (some a) = some a.summary

abbrev pub box_of : ℕ → Option EdgeBox → Option EdgeBoxSummary
box_of now none = none
box_of now (some box) = some (edge_box_summary now box)

abbrev pub online_of : Option EdgeBoxSummary → Bool
online_of none = false
online_of (some box) = box.online

-- The tile of a property, in the loop's body.
unfoldable pub tile_of :
    ℕ → List (Status × Option ℕ) → Property → String → Database → PropertySummary
unfolding property_health_score count_by_severity worst_open get_edge_box_for_property
    edge_box_summary
tile_of now devices prop provider_id db =
    let (score, status) = property_health_score devices in
    record {
      provider_id = provider_id;
      property_id = prop.property_id;
      name = prop.name;
      site_code = prop.site_code;
      address = prop.address;
      health_score = score;
      health_status = status;
      open_alerts =
          open_alerts_of (count_by_severity provider_id (some prop.property_id) db.alerts);
      worst_alert_summary = summary_of (worst_open provider_id prop.property_id db.alerts);
      edge_box = box_of now (get_edge_box_for_property provider_id prop.property_id db.edge_boxes);
    }

-- What the loop keeps: the tiles, the open alerts of all, and the sites that are online.
pub record Estate : Type 0 where
  pub tiles : List PropertySummary
  pub all_sev : OpenAlerts
  pub sites_online : ℕ

abbrev pub add_tile : PropertySummary → Estate → Estate
add_tile t e = record {
  tiles = t ∷ e.tiles;
  all_sev = add_alerts t.open_alerts e.all_sev;
  sites_online = if online_of t.edge_box then e.sites_online + 1 else e.sites_online;
}

-- `sort`: the key of worst_first is (p1 == 0, health_score).
abbrev pub calm : PropertySummary → ℕ
calm t = if t.open_alerts.p1 == 0 then 1 else 0

abbrev pub worse_tile : PropertySummary → PropertySummary → Bool
worse_tile a b = ltb (calm a) (calm b) || (calm a == calm b && ltb a.health_score b.health_score)

-- `int(sum(…) / len(tiles)) if tiles else 0`
abbrev pub average_score : List PropertySummary → ℕ
average_score [] = 0
average_score (t ∷ tiles) = sum_by (λ u. u.health_score) (t ∷ tiles) / length (t ∷ tiles)

unfoldable pub estate_of :
    Bool → (String → String → Bool) → Estate → KpiStrip × List PropertySummary
unfolding rank_by
estate_of worst_first below e =
    let tiles =
      if worst_first
      then rank_by worse_tile e.tiles
      else rank_by (λ a b. below a.name b.name) e.tiles in
    (
      record {
        estate_health_score = average_score tiles;
        sites_online = e.sites_online;
        sites_total = length tiles;
        open_alerts = e.all_sev;
      },
      tiles,
    )

module _ (collate : String → String → Bool) where
  -- PropertiesRepository.list
  unfoldable pub properties_of : String → List Property → List Property
  unfolding rank_by
  properties_of provider_id rows =
      rank_by (λ a b. collate a.name b.name) (select (λ p. str_eq p.provider_id provider_id) rows)

  -- ORDER BY label NULLS LAST
  abbrev pub label_before : Option String → Option String → Bool
  label_before none t = false
  label_before (some s) none = true
  label_before (some s) (some t) = collate s t

  -- DevicesRepository.list_for_property
  unfoldable pub list_for_property : String → String → List Device → List Device
  unfolding rank_by
  list_for_property provider_id property_id rows =
      rank_by (λ a b. label_before a.label b.label)
        (select (λ d. str_eq d.provider_id provider_id && str_eq d.property_id property_id) rows)

  abbrev pub healths_of : List Device → List (Status × Option ℕ)
  healths_of devices = map (λ d. (d.health_status, d.health_score)) devices

  unfoldable pub estate_loop : ℕ → String → Database → List Property → Estate
  unfolding tile_of list_for_property
  estate_loop now provider_id db [] = record { tiles = []; all_sev = no_alerts; sites_online = 0 }
  estate_loop now provider_id db (prop ∷ rest) =
      let devices = list_for_property provider_id prop.property_id db.devices in
      add_tile (tile_of now (healths_of devices) prop provider_id db)
        (estate_loop now provider_id db rest)

  -- `get_estate`, sorted by `worst_first` or by name, with `below` for Python's order of texts.
  unfoldable pub get_estate :
      (String → String → Bool) → ℕ → String → Bool → Database → KpiStrip × List PropertySummary
  unfolding properties_of estate_loop estate_of
  get_estate below now provider_id worst_first db =
      estate_of worst_first below
        (estate_loop now provider_id db (properties_of provider_id db.properties))
