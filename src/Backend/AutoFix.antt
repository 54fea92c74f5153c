-- ===== src/Backend/AutoFix.antt =====
-- `auto_fix` of backend/app/routers/alerts.py, with the cache of middleware/idempotency.py. The
-- statements of the handler are not in one transaction, but none of them fails. `now` is what the
-- clock shows when the alert is updated and when Redis is asked; Redis forgets a response after its
-- time to live.
pub mod Once
pub mod Sound
use itdashboard.Prelude.{
  ℕ, ◌+◌, String, Bool, true, false, not, ◌&&◌, Option, none, some, List, [], ◌∷◌, ◌++◌, str_eq,
  ltb, if◌then◌else◌,
}
use itdashboard.Text.{truthy, concat}
use itdashboard.Backend.Database.{
  AlertState, acting, resolved, Alert, Event, auto_fix_dispatched, Database, first_where,
}
use itdashboard.Backend.Alerts.{update_state}
use itdashboard.Backend.Message.{Fresh, enqueue_event}

pub record Response : Type 0 where
  pub alert_id : String
  pub action_event_id : String
  pub dispatched_at : ℕ
  pub expected_recovery_by : ℕ
  pub status_url : String

pub data AppError : Type 0 where
  key_required not_confirmed not_found already_resolved not_authorized : AppError

abbrev pub status_code : AppError → ℕ
status_code key_required = 400
status_code not_confirmed = 400
status_code not_found = 404
status_code already_resolved = 409
status_code not_authorized = 422

-- What Redis keeps under `idem:<key>`: the response, and the second at which it is forgotten.
abbrev pub Cache : Type 0
Cache = List (String × ℕ × Response)

abbrev pub ttl : ℕ
ttl = 86400

unfoldable pub get_cached_response : ℕ → String → Cache → Option Response
get_cached_response now key [] = none
get_cached_response now key ((k, until, r) ∷ rest) =
    let others = get_cached_response now key rest in
    if str_eq k key then (if ltb now until then some r else none) else others

unfoldable pub cache_response : ℕ → String → Response → Cache → Cache
cache_response now key response [] = (key, now + ttl, response) ∷ []
cache_response now key response ((k, until, r) ∷ rest) =
    let others = cache_response now key response rest in
    if str_eq k key then (k, now + ttl, response) ∷ rest else (k, until, r) ∷ others

pub record Server : Type 0 where
  pub database : Database
  pub cache : Cache

pub data Answer : Type 0 where
  accepted : Response → Answer
  refused : AppError → Answer

-- `a.alert_id = $1 AND a.provider_id = $2`
abbrev pub visible : String → String → Alert → Bool
visible alert_id provider_id r = str_eq r.alert_id alert_id && str_eq r.provider_id provider_id

unfoldable pub get : String → String → List Alert → Option Alert
unfolding first_where
get alert_id provider_id = first_where (visible alert_id provider_id)

abbrev pub is_resolved : AlertState → Bool
is_resolved resolved = true
is_resolved _ = false

-- The state, the event and the answer of an alert that may be fixed.
unfoldable pub dispatch : ℕ → Fresh → String → String → Alert → Server → Server × Answer
unfolding update_state enqueue_event cache_response concat
dispatch now fresh key alert_id row s =
    let action = fresh.event_uuid 0 in
    let response : Response = record {
      alert_id = alert_id;
      action_event_id = action;
      dispatched_at = now;
      expected_recovery_by = now + 90;
      status_url = concat ("/v1/alerts/" ∷ alert_id ∷ []);
    } in
    let changed = record s.database {
      alerts = (update_state alert_id acting now s.database.alerts).0;
    } in
    (
      record {
        database =
            enqueue_event fresh 0 row.property_id (auto_fix_dispatched alert_id action) changed;
        cache = cache_response now key response s.cache;
      },
      accepted response,
    )

abbrev pub check : ℕ → Fresh → String → String → Option Alert → Server → Server × Answer
check now fresh key alert_id none s = (s, refused not_found)
check now fresh key alert_id (some row) s =
    if is_resolved row.state
    then (s, refused already_resolved)
    else if not row.auto_fix_authorized
    then (s, refused not_authorized)
    else dispatch now fresh key alert_id row s

abbrev pub answer_from :
    ℕ → Fresh → String → String → String → Option Response → Server → Server × Answer
answer_from now fresh key alert_id provider_id (some cached) s = (s, accepted cached)
answer_from now fresh key alert_id provider_id none s =
    check now fresh key alert_id (get alert_id provider_id s.database.alerts) s

unfoldable pub auto_fix :
    ℕ → Fresh → Option String → Bool → String → String → Server → Server × Answer
unfolding get_cached_response get dispatch
auto_fix now fresh none confirm alert_id provider_id s = (s, refused key_required)
auto_fix now fresh (some key) confirm alert_id provider_id s =
    if not (truthy key)
    then (s, refused key_required)
    else if not confirm
    then (s, refused not_confirmed)
    else answer_from now fresh key alert_id provider_id (get_cached_response now key s.cache) s
