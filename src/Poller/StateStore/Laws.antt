-- ===== src/Poller/StateStore/Laws.antt =====
-- What `record` remembers, for the device that it is about and for the others.
use itdashboard.Prelude.{
  ℕ, ◌≡◌, ◌≢◌, refl, sym, String, not, inl, inr, Option, none, some, List, [], ◌∷◌, ◌++◌, arith,
  str_eq, eq_iff, if◌then◌else◌, select, All, All-append, Bool-cases, Option-cases,
}
use itdashboard.Table.Delete.{IsKeyed}
use itdashboard.Poller.StateStore.{
  DeviceState, StateStore, find, previous_status, seen_again, update, record_status, forget,
  set_meta, get_meta, put_meta, find_meta,
}

abbrev pub device_key : DeviceState → String
device_key r = r.device_id

find-append_new :
    (j : String) (rows : List DeviceState) (r : DeviceState)
    → find r.device_id rows ≡ none
    → find j (rows ++ r ∷ []) ≡ (if str_eq r.device_id j then some r else find j rows)
unfolding find
find-append_new j [] r h = refl
find-append_new j (s ∷ rows) r h = ground (
  arith,
  find-append_new j rows r,
  eq_iff s.device_id r.device_id,
  eq_iff s.device_id j,
  eq_iff r.device_id j,
)

-- The row that an update leaves under a key.
abbrev updated : ℕ → String → ℕ → Option DeviceState → Option DeviceState
updated now status score none = none
updated now status score (some r) = some (seen_again now status score r)

find-update :
    (now : ℕ) (d : String) (status : String) (score : ℕ) (j : String) (rows : List DeviceState)
    → find j (update now d status score rows)
      ≡ (if str_eq d j then updated now status score (find j rows) else find j rows)
unfolding find update seen_again
find-update now d status score j [] = ground arith
find-update now d status score j (s ∷ rows) = ground (
  arith,
  find-update now d status score j rows,
  eq_iff s.device_id d,
  eq_iff s.device_id j,
  eq_iff d j,
)

-- The row that `record` leaves for its device: `first_seen` and, if the status is the same,
-- `last_change` are those of the row before.
abbrev pub recorded : ℕ → String → String → ℕ → Option DeviceState → DeviceState
recorded now d status score none = record {
  device_id = d;
  status = status;
  score = score;
  first_seen = now;
  last_seen = now;
  last_change = now;
}
recorded now d status score (some r) = record r {
  status = status;
  score = score;
  last_seen = now;
  last_change = if str_eq r.status status then r.last_change else now;
}

module _ (now : ℕ) (d status : String) (score : ℕ) (s : StateStore) where
  abbrev pub after : StateStore
  after = (record_status now d status score s).0

  -- record returns the status that was known before, None for a new device. Afterwards the row of
  -- the device holds the new status, score and time, keeps the first sighting, and moves the time
  -- of the last change exactly if the status is another one; the rows of the other devices are as
  -- before.
  pub record_status_lem :
      ((record_status now d status score s).1 ≡ previous_status d s)
      × ((j : String)
          → find j after.device_state ≡ (
              if str_eq d j
              then some (recorded now d status score (find j s.device_state))
              else find j s.device_state))
  unfolding record_status previous_status seen_again
  record_status_lem = elim (Option-cases (find d s.device_state)) [
    | inl e ↦
        let new = recorded now d status score none in
        (ground arith, λ j. ground (arith, find-append_new j s.device_state new e, eq_iff d j))
    | inr (r, e) ↦ (
      ground arith,
      λ j. ground (arith, find-update now d status score j s.device_state, eq_iff d j),
    )
  ]

All_key-update :
    (P : String → Type 0) (now : ℕ) (d status : String) (score : ℕ) (rows : List DeviceState)
    → All (λ (r : DeviceState). P r.device_id) rows
    → All (λ (r : DeviceState). P r.device_id) (update now d status score rows)
unfolding update seen_again
All_key-update P now d status score [] h = tt
All_key-update P now d status score (r ∷ rows) h = elim (Bool-cases (str_eq r.device_id d)) [
  | inl e ↦ (rw e h.0, All_key-update P now d status score rows h.1)
  | inr e ↦ (rw e h.0, All_key-update P now d status score rows h.1)
]

update-IsKeyed :
    (now : ℕ) (d status : String) (score : ℕ) (rows : List DeviceState)
    → IsKeyed device_key rows
    → IsKeyed device_key (update now d status score rows)
unfolding update seen_again
update-IsKeyed now d status score [] h = tt
update-IsKeyed now d status score (r ∷ rows) h =
    let rest = All_key-update (λ k. k ≢ r.device_id) now d status score rows h.0 in
    elim (Bool-cases (str_eq r.device_id d)) [
      | inl e ↦ (rw e rest, update-IsKeyed now d status score rows h.1)
      | inr e ↦ (rw e rest, update-IsKeyed now d status score rows h.1)
    ]

absent_of_find :
    (d : String) (rows : List DeviceState)
    → find d rows ≡ none
    → All (λ (r : DeviceState). r.device_id ≢ d) rows
unfolding find
absent_of_find d [] h = tt
absent_of_find d (r ∷ rows) h =
    (λ e. ground (arith, eq_iff r.device_id d), absent_of_find d rows (ground arith))

append-IsKeyed :
    (rows : List DeviceState) (r : DeviceState)
    → IsKeyed device_key rows
    → All (λ (s : DeviceState). s.device_id ≢ r.device_id) rows
    → IsKeyed device_key (rows ++ r ∷ [])
append-IsKeyed [] r k h = (tt, tt)
append-IsKeyed (s ∷ rows) r k h = (
  All-append (λ t. device_key t ≢ device_key s) rows (r ∷ []) k.0 ((λ e. h.0 (sym e)), tt),
  append-IsKeyed rows r k.1 h.1,
)

-- If every device has one row at most, that holds after record too.
pub record_status-IsKeyed :
    (now : ℕ) (d status : String) (score : ℕ) (s : StateStore)
    → IsKeyed device_key s.device_state
    → IsKeyed device_key (record_status now d status score s).0.device_state
unfolding record_status
record_status-IsKeyed now d status score s h = elim (Option-cases (find d s.device_state)) [
  | inl e ↦
      rw (e, record_status) (append-IsKeyed s.device_state _ h (absent_of_find d s.device_state e))
  | inr (r, e) ↦ rw (e, record_status) (update-IsKeyed now d status score s.device_state h)
]

find_meta-put_meta :
    (k j v : String) (l : List (String × String)) (default : Option String)
    → find_meta j (put_meta k v l) default ≡ (if str_eq k j then some v else find_meta j l default)
unfolding find_meta put_meta
find_meta-put_meta k j v [] default = refl
find_meta-put_meta k j v ((i, w) ∷ l) default =
    ground (arith, find_meta-put_meta k j v l default, eq_iff i k, eq_iff i j, eq_iff k j)

-- get_meta reads what set_meta wrote last under the key, and set_meta changes no device.
pub get_meta-set_meta :
    (k j v : String) (default : Option String) (s : StateStore)
    → (get_meta j default (set_meta k v s) ≡ (if str_eq k j then some v else get_meta j default s))
      × ((set_meta k v s).device_state ≡ s.device_state)
unfolding get_meta set_meta
get_meta-set_meta k j v default s = (find_meta-put_meta k j v s.poll_meta default, refl)

find-forget :
    (d j : String) (rows : List DeviceState)
    → find j (select (λ (r : DeviceState). not (str_eq r.device_id d)) rows)
      ≡ (if str_eq d j then none else find j rows)
unfolding find
find-forget d j [] = ground arith
find-forget d j (r ∷ rows) =
    ground (arith, find-forget d j rows, eq_iff r.device_id d, eq_iff r.device_id j, eq_iff d j)

-- A device that is forgotten is new again; the others are remembered as before.
pub previous_status-forget :
    (d j : String) (s : StateStore)
    → previous_status j (forget d s) ≡ (if str_eq d j then none else previous_status j s)
unfolding previous_status forget
previous_status-forget d j s = rw (find-forget d j s.device_state) (ground arith)
