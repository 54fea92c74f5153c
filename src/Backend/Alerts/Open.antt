-- ===== src/Backend/Alerts/Open.antt =====
-- How many open alerts of one kind a device has, before and after each statement on alerts.
use itdashboard.Prelude.{
  ℕ, ◌+◌, ◌≤◌, ◌≡◌, refl, String, inl, inr, none, some, List, [], ◌∷◌, ◌++◌, arith, str_eq, eq_iff,
  if◌then◌else◌, length, select, count, Option-cases,
}
use itdashboard.Backend.Database.{Alert, Detail, update_where}
use itdashboard.Backend.Alerts.{
  open_for, update_detail, newest, find_open_for_device, resolve_all_for_device,
}

abbrev pub alert_key : Alert → String
alert_key r = r.alert_id

-- No device has two open alerts of one kind.
abbrev pub AreSingle : List Alert → Type 0
AreSingle rows = (d k : String) → count (open_for d k) rows ≤ 1

pub count-update_detail :
    (id : String) (detail : Detail) (summary d k : String) (rows : List Alert)
    → count (open_for d k) (update_detail id detail summary rows) ≡ count (open_for d k) rows
unfolding update_detail update_where
count-update_detail id detail summary d k [] = refl
count-update_detail id detail summary d k (r ∷ rows) =
    ground (arith, count-update_detail id detail summary d k rows)

pub count-resolve_all :
    (x : String) (at : ℕ) (d k : String) (rows : List Alert)
    → count (open_for d k) (resolve_all_for_device x at rows).0
      ≡ (if str_eq x d then 0 else count (open_for d k) rows)
unfolding resolve_all_for_device update_where
count-resolve_all x at d k [] = ground arith
count-resolve_all x at d k (r ∷ rows) = elim (Option-cases r.device_id) [
  | inl e ↦ rw e (ground (arith, count-resolve_all x at d k rows))
  | inr (s, e) ↦
      rw e (ground (arith, count-resolve_all x at d k rows, eq_iff s x, eq_iff s d, eq_iff x d))
]

newest-none : (rows : List Alert) → newest rows ≡ none → rows ≡ []
unfolding newest
newest-none [] h = refl
newest-none (r ∷ rows) h = elim (Option-cases (newest rows)) [
  | inl e ↦ ground arith
  | inr (s, e) ↦ ground arith
]

-- Nothing found means that there is no open alert.
pub find_open_none :
    (d k : String) (rows : List Alert)
    → find_open_for_device d k rows ≡ none
    → count (open_for d k) rows ≡ 0
unfolding find_open_for_device
find_open_none d k rows h = rw (newest-none (select (open_for d k) rows) h) refl

pub count-snoc :
    (d k : String) (rows : List Alert) (r : Alert)
    → count (open_for d k) (rows ++ r ∷ [])
      ≡ count (open_for d k) rows + (if open_for d k r then 1 else 0)
count-snoc d k [] r = ground arith
count-snoc d k (s ∷ rows) r = ground (arith, count-snoc d k rows r)

pub find_open_some :
    (d k : String) (rows : List Alert) (r : Alert)
    → find_open_for_device d k rows ≡ some r
    → 1 ≤ count (open_for d k) rows
unfolding find_open_for_device newest
find_open_some d k rows r h = go (select (open_for d k) rows) h
  where
    go : (l : List Alert) → newest l ≡ some r → 1 ≤ length l
    go [] h = cc h
    go (s ∷ l) h = omega arith
