-- ===== src/Poller/StateStore.antt =====
-- poller/state_store.py: the last known status of each device, on disk. `device_state` is the list
-- of its rows in rowid order, `poll_meta` a table of texts.
pub mod Laws
use itdashboard.Prelude.{
  ℕ, String, Bool, true, false, not, Option, none, some, List, [], ◌∷◌, ◌++◌, map, str_eq, ltb,
  if◌then◌else◌, select, count, length,
}

pub record DeviceState : Type 0 where
  pub device_id : String
  pub status : String
  pub score : ℕ
  pub first_seen : ℕ
  pub last_seen : ℕ
  pub last_change : ℕ

pub record StateStore : Type 0 where
  pub device_state : List DeviceState
  pub poll_meta : List (String × String)

abbrev pub empty : StateStore
empty = record { device_state = []; poll_meta = [] }

-- `SELECT … WHERE device_id = ?`, the first row.
unfoldable pub find : String → List DeviceState → Option DeviceState
find device_id [] = none
find device_id (r ∷ rows) = if str_eq r.device_id device_id then some r else find device_id rows

abbrev pub status_of : Option DeviceState → Option String
status_of none = none
status_of (some r) = some r.status

unfoldable pub previous_status : String → StateStore → Option String
unfolding find
previous_status device_id s = status_of (find device_id s.device_state)

-- The SET clause of the UPDATE in `record`.
unfoldable pub seen_again : ℕ → String → ℕ → DeviceState → DeviceState
seen_again now status score r = record r {
  status = status;
  score = score;
  last_seen = now;
  last_change = if not (str_eq r.status status) then now else r.last_change;
}

-- `UPDATE device_state SET … WHERE device_id = ?`
unfoldable pub update : ℕ → String → String → ℕ → List DeviceState → List DeviceState
unfolding seen_again
update now device_id status score =
    map (λ r. if str_eq r.device_id device_id then seen_again now status score r else r)

-- `record`, at the time `now` that the clock shows: the store, and the previous status.
unfoldable pub record_status : ℕ → String → String → ℕ → StateStore → StateStore × Option String
unfolding find update
record_status now device_id status score s = elim (find device_id s.device_state) [
  | none ↦ (
    record s {
      device_state =
          s.device_state
          ++ record {
            device_id = device_id;
            status = status;
            score = score;
            first_seen = now;
            last_seen = now;
            last_change = now;
          }
            ∷ [];
    },
    none,
  )
  | some row ↦ (
    record s { device_state = update now device_id status score s.device_state },
    some row.status,
  )
]

-- (tracked, unhealthy)
unfoldable pub counts : StateStore → ℕ × ℕ
counts s = (length s.device_state, count (λ r. str_eq r.status "unhealthy") s.device_state)

unfoldable pub all_states : StateStore → List (String × String × ℕ × ℕ)
all_states s = map (λ r. (r.device_id, r.status, r.score, r.last_seen)) s.device_state

unfoldable pub devices_not_seen_since : ℕ → StateStore → List (String × String × ℕ)
devices_not_seen_since cutoff s =
    map (λ r. (r.device_id, r.status, r.last_seen))
      (select (λ (r : DeviceState). ltb r.last_seen cutoff) s.device_state)

unfoldable pub forget : String → StateStore → StateStore
forget device_id s = record s {
  device_state = select (λ (r : DeviceState). not (str_eq r.device_id device_id)) s.device_state;
}

-- `INSERT … ON CONFLICT(key) DO UPDATE`
unfoldable pub put_meta : String → String → List (String × String) → List (String × String)
put_meta key value [] = (key, value) ∷ []
put_meta key value ((k, v) ∷ rest) =
    let others = put_meta key value rest in
    if str_eq k key then (k, value) ∷ rest else (k, v) ∷ others

unfoldable pub set_meta : String → String → StateStore → StateStore
unfolding put_meta
set_meta key value s = record s { poll_meta = put_meta key value s.poll_meta }

unfoldable pub find_meta : String → List (String × String) → Option String → Option String
find_meta key [] default = default
find_meta key ((k, v) ∷ rest) default = if str_eq k key then some v else find_meta key rest default

unfoldable pub get_meta : String → Option String → StateStore → Option String
unfolding find_meta
get_meta key default s = find_meta key s.poll_meta default
