-- ===== src/Backend/Properties.antt =====
-- backend/app/repositories/properties.py: what the ingestor calls of it, and the edge boxes.
use itdashboard.Prelude.{String, Bool, ◌&&◌, Option, none, some, List, [], ◌∷◌, ◌++◌, str_eq}
use itdashboard.Backend.Database.{Property, EdgeBox, Database, coalesce, first_where, update_where}

abbrev pub has_key : String → String → Property → Bool
has_key provider_id property_id r =
    str_eq r.provider_id provider_id && str_eq r.property_id property_id

unfoldable pub get : String → String → List Property → Option Property
unfolding first_where
get provider_id property_id = first_where (has_key provider_id property_id)

-- ON CONFLICT (provider_id) DO NOTHING
add_provider : String → List String → List String
unfolding first_where
add_provider provider_id rows = elim (first_where (λ p. str_eq p provider_id) rows) [
  | none ↦ rows ++ provider_id ∷ []
  | some p ↦ rows
]

abbrev pub renamed : String → Option String → Option String → Property → Property
renamed name site_code address r = record r {
  name = name;
  site_code = coalesce site_code r.site_code;
  address = coalesce address r.address;
}

unfoldable pub upsert_row :
    String → String → String → Option String → Option String → List Property → List Property
unfolding get update_where
upsert_row provider_id property_id name site_code address rows =
    elim (get provider_id property_id rows) [
      | none ↦
          rows
          ++ record {
            provider_id = provider_id;
            property_id = property_id;
            name = name;
            site_code = site_code;
            address = address;
          }
            ∷ []
      | some r ↦
          update_where (has_key provider_id property_id) (renamed name site_code address) rows
    ]

unfoldable pub upsert :
    String → String → String → Option String → Option String → Database → Database
unfolding add_provider upsert_row
upsert provider_id property_id name site_code address db = record db {
  service_providers = add_provider provider_id db.service_providers;
  properties = upsert_row provider_id property_id name site_code address db.properties;
}

abbrev pub is_box : String → EdgeBox → Bool
is_box edge_id r = str_eq r.edge_id edge_id

unfoldable pub get_edge_box : String → List EdgeBox → Option EdgeBox
unfolding first_where
get_edge_box edge_id = first_where (is_box edge_id)

-- ON CONFLICT (edge_id) DO UPDATE SET …: `summary_interval_seconds` is not among the columns.
abbrev pub beaten : EdgeBox → EdgeBox → EdgeBox
beaten new r = record r {
  last_heartbeat_at = new.last_heartbeat_at;
  tracked_devices = new.tracked_devices;
  unhealthy_devices = new.unhealthy_devices;
  queue_depth = new.queue_depth;
}

unfoldable pub upsert_edge_box : EdgeBox → List EdgeBox → List EdgeBox
unfolding get_edge_box update_where
upsert_edge_box new rows = elim (get_edge_box new.edge_id rows) [
  | none ↦ rows ++ new ∷ []
  | some r ↦ update_where (is_box new.edge_id) (beaten new) rows
]
