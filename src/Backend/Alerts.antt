-- ===== src/Backend/Alerts.antt =====
-- backend/app/repositories/alerts.py: the statements that change alerts, and those that look one
-- up. The listing by pages is in Backend.Pages.
pub mod Open
pub mod Counts
use itdashboard.Prelude.{
  ℕ, String, Bool, true, false, ◌&&◌, Option, none, some, List, [], ◌∷◌, ◌++◌, map, str_eq, leb,
  if◌then◌else◌, select,
}
use itdashboard.Backend.Database.{
  AlertState, opened, triaged, acting, resolved, is_open, Alert, Detail, first_where, update_where,
  is_text,
}

abbrev pub has_id : String → Alert → Bool
has_id alert_id r = str_eq r.alert_id alert_id

-- The open alerts of a device, of one kind and of any.
abbrev pub open_of : String → Alert → Bool
open_of device_id r = is_text r.device_id device_id && is_open r.state

abbrev pub open_for : String → String → Alert → Bool
open_for device_id kind r = open_of device_id r && str_eq r.alert_kind kind

-- The INSERT fails if a row has the primary key already.
unfoldable pub create : Alert → List Alert → Option (List Alert)
unfolding first_where
create new rows = elim (first_where (has_id new.alert_id) rows) [
  | none ↦ some (rows ++ new ∷ [])
  | some r ↦ none
]

unfoldable pub update_detail : String → Detail → String → List Alert → List Alert
unfolding update_where
update_detail alert_id detail summary =
    update_where (has_id alert_id) (λ (r : Alert). record r { detail = detail; summary = summary })

-- The new state, with the time in its own column.
abbrev pub in_state : AlertState → ℕ → Alert → Alert
in_state opened at r = record r { state = opened }
in_state triaged at r = record r { state = triaged; triaged_at = some at }
in_state acting at r = record r { state = acting; acted_at = some at }
in_state resolved at r = record r { state = resolved; resolved_at = some at }

-- The table, and the prior state, None if there is no such alert.
unfoldable pub update_state : String → AlertState → ℕ → List Alert → List Alert × Option AlertState
unfolding first_where update_where
update_state alert_id new_state at rows = elim (first_where (has_id alert_id) rows) [
  | none ↦ (rows, none)
  | some r ↦ (update_where (has_id alert_id) (in_state new_state at) rows, some r.state)
]

-- `ORDER BY opened_at DESC LIMIT 1`, the first of those that were opened last.
unfoldable pub newest : List Alert → Option Alert
newest [] = none
newest (r ∷ rows) = elim (newest rows) [
  | none ↦ some r
  | some s ↦ if leb s.opened_at r.opened_at then some r else some s
]

unfoldable pub find_open_for_device : String → String → List Alert → Option Alert
unfolding newest
find_open_for_device device_id kind rows = newest (select (open_for device_id kind) rows)

-- The table, and the rows that RETURNING gives: alert_id and property_id.
unfoldable pub resolve_all_for_device :
    String → ℕ → List Alert → List Alert × List (String × String)
unfolding update_where
resolve_all_for_device device_id at rows = (
  update_where (open_of device_id) (in_state resolved at) rows,
  map (λ (r : Alert). (r.alert_id, r.property_id)) (select (open_of device_id) rows),
)
