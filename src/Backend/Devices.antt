-- ===== src/Backend/Devices.antt =====
-- backend/app/repositories/devices.py, but for the listing of a property's devices.
use itdashboard.Prelude.{
  ℕ, String, Bool, Option, none, some, List, [], ◌∷◌, ◌++◌, str_eq, if◌then◌else◌,
}
use itdashboard.Status.{Status, unknown, status_eq}
use itdashboard.Backend.Database.{Device, coalesce, first_where, update_where}

abbrev pub has_id : String → Device → Bool
has_id device_id r = str_eq r.device_id device_id

-- What a message says of a device, the identity of its sender included.
pub record Description : Type 0 where
  pub device_id : String
  pub provider_id : String
  pub property_id : String
  pub edge_id : Option String
  pub label : Option String
  pub device_class : Option String
  pub vendor : Option String
  pub site : Option String

unfoldable pub get : String → List Device → Option Device
unfolding first_where
get device_id = first_where (has_id device_id)

-- The row that an INSERT makes, with the defaults of the table.
abbrev pub inserted : Description → Device
inserted m = record {
  device_id = m.device_id;
  provider_id = m.provider_id;
  property_id = m.property_id;
  edge_id = m.edge_id;
  label = m.label;
  device_class = m.device_class;
  vendor = m.vendor;
  site = m.site;
  health_status = unknown;
  health_score = none;
  last_seen_at = none;
}

-- ON CONFLICT (device_id) DO UPDATE SET …
abbrev pub merged : Description → Device → Device
merged m r = record r {
  edge_id = coalesce m.edge_id r.edge_id;
  label = coalesce m.label r.label;
  device_class = coalesce m.device_class r.device_class;
  vendor = coalesce m.vendor r.vendor;
  site = coalesce m.site r.site;
}

unfoldable pub upsert : Description → List Device → List Device
unfolding get update_where
upsert m rows = elim (get m.device_id rows) [
  | none ↦ rows ++ inserted m ∷ []
  | some r ↦ update_where (has_id m.device_id) (merged m) rows
]

abbrev pub with_health : Status → ℕ → ℕ → Device → Device
with_health status score seen r = record r {
  health_status = status;
  health_score = some score;
  last_seen_at = some seen;
}

abbrev prior_if_changed : Option Device → Status → Option Status
prior_if_changed none status = none
prior_if_changed (some r) status =
    if status_eq r.health_status status then none else some r.health_status

-- The table, and the prior status if it changed.
unfoldable pub update_health : String → Status → ℕ → ℕ → List Device → List Device × Option Status
unfolding get update_where
update_health device_id status score seen rows = (
  update_where (has_id device_id) (with_health status score seen) rows,
  prior_if_changed (get device_id rows) status,
)
