-- ===== src/Tests/Views.antt =====
-- The estate of a provider with one property, its detail, and its alerts.
use itdashboard.Prelude.{
  ◌≡◌, refl, ap, String, true, none, some, [], ◌∷◌, map, inl, inr, select, str_eq, All, eq_iff,
  arith,
}
use itdashboard.Text.Order.{below}
use itdashboard.Status.{unhealthy}
use itdashboard.Table.Delete.{IsKeyed}
use itdashboard.Table.Rank.Weak.{IsSorted}
use itdashboard.Backend.Database.{Database, Property, EdgeBox, Device, RawEvent, empty}
use itdashboard.Backend.Pages.{Key}
use itdashboard.Backend.Estate.{worse_tile, get_estate}
use itdashboard.Backend.Estate.Listed.{Shows, get_estate-Shows}
use itdashboard.Backend.Views.{
  AlertView, Listing, validation_failed, get_alert, split, list_alerts, list_property_alerts,
}
use itdashboard.Backend.Views.Agree.{list_property_alerts-get_alert}
use itdashboard.Backend.PropertyDetail.Tile.{property_key, IsShown, get_estate-get_property}
use itdashboard.Tests.Pages.{plain, alerts, alerts-IsKeyed}

abbrev place : String → String → String → Property
place provider property name = record {
  provider_id = provider;
  property_id = property;
  name = name;
  site_code = none;
  address = none;
}

abbrev box : EdgeBox
box = record {
  edge_id = "edge1";
  provider_id = "isp";
  property_id = "hotel";
  last_heartbeat_at = some 900;
  tracked_devices = 1;
  unhealthy_devices = 1;
  queue_depth = 0;
  summary_interval_seconds = 60;
}

abbrev switch : Device
switch = record {
  device_id = "sw1";
  provider_id = "isp";
  property_id = "hotel";
  edge_id = some "edge1";
  label = some "Switch 1";
  device_class = none;
  vendor = none;
  site = none;
  health_status = unhealthy;
  health_score = some 20;
  last_seen_at = some 990;
}

abbrev db : Database
db = record empty {
  properties = place "isp" "hotel" "Hotel" ∷ place "net" "inn" "Inn" ∷ [];
  edge_boxes = box ∷ [];
  devices = switch ∷ [];
  alerts = alerts;
}

abbrev same : String → String
same s = s

abbrev nothing : RawEvent → String
nothing r = ""

-- One tile, online, with two alerts of p1 and one of p2.
estate_test :
    (let (kpi, tiles) = get_estate below below 1000 "isp" true db in
      (map (λ t. t.property_id) tiles ≡ "hotel" ∷ [])
      × (kpi.estate_health_score ≡ 20)
      × (kpi.sites_online ≡ 1)
      × (kpi.open_alerts.p1 ≡ 2)
      × (kpi.open_alerts.p2 ≡ 1))
unfolding get_estate
estate_test = (refl, refl, refl, refl, refl)

split_test : split "opened, acting" ≡ "opened" ∷ " acting" ∷ []
unfolding split
split_test = refl

refused_test : list_alerts same below plain "isp" "closed" 50 none db ≡ inl validation_failed
unfolding list_alerts
refused_test = refl

get_estate-Shows_example :
    (let (kpi, tiles) = get_estate below below 1000 "isp" true db in
      let mine = select (λ (p : Property). str_eq p.provider_id "isp") db.properties in
      Shows "isp" (map (λ p. p.property_id) mine) kpi tiles
      × (true ≡ true → IsSorted worse_tile tiles))
get_estate-Shows_example = get_estate-Shows below below 1000 "isp" true db

properties-IsKeyed : IsKeyed property_key db.properties
properties-IsKeyed = (
  ((λ e. ground (arith, eq_iff "net" "isp", ap {B = String} (λ (k : String × String). k.0) e)), tt),
  (tt, tt),
)

get_estate-get_property_example :
    All (IsShown below nothing 1000 "isp" db) (get_estate below below 1000 "isp" true db).1
get_estate-get_property_example =
    get_estate-get_property below nothing 1000 "isp" db below true properties-IsKeyed

abbrev listing : Listing AlertView Key
listing = elim (list_property_alerts same below plain "isp" "hotel" "opened" 2 none db) [
  | inl e ↦ record { items = []; next_cursor = none; has_more = true }
  | inr p ↦ p
]

listing_test : map (λ v. v.alert_id) listing.items ≡ "c" ∷ "b" ∷ []
unfolding list_property_alerts
listing_test = refl

listed : list_property_alerts same below plain "isp" "hotel" "opened" 2 none db ≡ inr listing
unfolding list_property_alerts
listed = refl

list_property_alerts-get_alert_example :
    All (λ v. get_alert v.alert_id "isp" db ≡ inr v) listing.items
list_property_alerts-get_alert_example =
    list_property_alerts-get_alert same below plain "isp" db "hotel" "opened" 2 none listing
      alerts-IsKeyed listed
