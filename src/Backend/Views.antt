-- ===== src/Backend/Views.antt =====
-- The GET requests on alerts and properties: backend/app/routers/alerts.py and routers/properties.py.
-- `strip` is Python's str.strip, and `collate` PostgreSQL's order of texts; times stay numbers.
pub mod Agree
use Prim.Native.String.{◌++◌}
use itdashboard.Prelude.{
  ℕ, String, Bool, true, false, not, ◌&&◌, Option, none, some, List, [], ◌∷◌, map, ◌⊎◌, inl, inr,
  str_eq, if◌then◌else◌, take, length, select, ltb,
}
use itdashboard.Text.{concat, decimal}
use itdashboard.Status.{Status, healthy, status_text, status_eq}
use itdashboard.Table.Rank.{rank_by}
use itdashboard.Backend.Database.{
  Severity, AlertState, opened, triaged, acting, resolved, Alert, Detail, Property, Device,
  RawEvent, Database, first_where,
}
use itdashboard.Backend.Devices
use itdashboard.Backend.Properties
use itdashboard.Backend.AutoFix
use itdashboard.Backend.Pages.{Codec, Page, list, list_by_property}

pub data RequestError : Type 0 where
  validation_failed not_found : RequestError

-- `LEFT JOIN devices d ON a.device_id = d.device_id`, of which `edge_id` is read.
abbrev pub edge_of : Option Device → Option String
edge_of none = none
edge_of (some d) = d.edge_id

abbrev pub joined_edge : Option String → List Device → Option String
joined_edge none devices = none
joined_edge (some device_id) devices = edge_of (Devices.get device_id devices)

-- An alert as it is answered: its detail with the state as it is now, and the times that are set.
pub record AlertView : Type 0 where
  pub alert_id : String
  pub detail : Detail
  pub edge_id : Option String
  pub triaged_at : Option ℕ
  pub acted_at : Option ℕ
  pub resolved_at : Option ℕ

unfoldable pub view_of : List Device → Alert → AlertView
unfolding Devices.get
view_of devices row = record {
  alert_id = row.alert_id;
  detail = record row.detail { identity = record row.detail.identity { state = row.state } };
  edge_id = joined_edge row.device_id devices;
  triaged_at = row.triaged_at;
  acted_at = row.acted_at;
  resolved_at = row.resolved_at;
}

abbrev pub found_view : List Device → Option Alert → RequestError ⊎ AlertView
found_view devices none = inl not_found
found_view devices (some row) = inr (view_of devices row)

unfoldable pub get_alert : String → String → Database → RequestError ⊎ AlertView
unfolding AutoFix.get view_of
get_alert alert_id provider_id db =
    found_view db.devices (AutoFix.get alert_id provider_id db.alerts)

abbrev pub state_of_text : String → Option AlertState
state_of_text s =
    if str_eq s "opened"
    then some opened
    else if str_eq s "triaged"
    then some triaged
    else if str_eq s "acting"
    then some acting
    else if str_eq s "resolved"
    then some resolved
    else none

abbrev add_to_first : String → List String → List String
add_to_first c [] = c ∷ []
add_to_first c (s ∷ rest) = (c ++ s) ∷ rest

-- `s.split(",")`
unfoldable pub split : String → List String
split String.[] = "" ∷ []
split (String.◌∷◌ x s) =
    let rest = split s in
    if str_eq (String.◌∷◌ x "") "," then "" ∷ rest else add_to_first (String.◌∷◌ x "") rest

abbrev add_state : Option AlertState → Option (List AlertState) → Option (List AlertState)
add_state (some s) (some rest) = some (s ∷ rest)
add_state s rest = none

-- The states of a list of texts, none if one of them is no state.
unfoldable pub states_of : (String → String) → List String → Option (List AlertState)
states_of strip [] = some []
states_of strip (s ∷ rest) = add_state (state_of_text (strip s)) (states_of strip rest)

-- An alert of the list: its row with the joined column.
abbrev pub Item : Type 0
Item = Alert × Option String

pub record Listing {ℓ} (A : Type 0) (Cursor : Type ℓ) : Type ℓ where
  pub items : List A
  pub next_cursor : Option Cursor
  pub has_more : Bool

module _ {ℓ} {Cursor : Type ℓ} (strip : String → String) (below : String → String → Bool)
    (codec : Codec Cursor) where
  abbrev listing_of : {A : Type 0} → (Alert → A) → Page Cursor → Listing A Cursor
  listing_of f p = record {
    items = map f p.items;
    next_cursor = p.next_cursor;
    has_more = p.has_more;
  }

  abbrev pub listed_alerts :
      String
      → ℕ
      → Option Cursor
      → Database
      → Option (List AlertState)
      → RequestError ⊎ Listing Item Cursor
  listed_alerts provider_id limit cursor db none = inl validation_failed
  listed_alerts provider_id limit cursor db (some states) = inr (
      listing_of (λ row. (row, joined_edge row.device_id db.devices))
        (list below codec provider_id states limit cursor db.alerts))

  unfoldable pub list_alerts :
      String → String → ℕ → Option Cursor → Database → RequestError ⊎ Listing Item Cursor
  unfolding list split states_of
  list_alerts provider_id status limit cursor db =
      listed_alerts provider_id limit cursor db (states_of strip (split status))

  abbrev pub property_alerts :
      String
      → String
      → ℕ
      → Option Cursor
      → Database
      → Option (List AlertState)
      → Option Property
      → RequestError ⊎ Listing AlertView Cursor
  property_alerts provider_id property_id limit cursor db none prop = inl validation_failed
  property_alerts provider_id property_id limit cursor db (some states) none = inl not_found
  property_alerts provider_id property_id limit cursor db (some states) (some prop) = inr (
      listing_of (view_of db.devices)
        (list_by_property below codec provider_id property_id states limit cursor db.alerts))

  unfoldable pub list_property_alerts :
      String
      → String
      → String
      → ℕ
      → Option Cursor
      → Database
      → RequestError ⊎ Listing AlertView Cursor
  unfolding list_by_property view_of split states_of Properties.get
  list_property_alerts provider_id property_id status limit cursor db =
      property_alerts provider_id property_id limit cursor db (states_of strip (split status))
        (Properties.get provider_id property_id db.properties)
