-- ===== src/Backend/AutoFix/Sound.antt =====
-- No request to fix an alert makes the database unsound.
use itdashboard.Prelude.{
  ℕ, ◌≡◌, ◌≢◌, refl, sym, ap, ◌∙◌, String, Bool, true, false, inl, inr, Option, none, some, List,
  [], ◌∷◌, arith, str_eq, eq_iff, count, All, All-imp, Bool-cases, Option-cases,
}
use mathlib.Core.Path.{subst}
use itdashboard.Text.{truthy}
use itdashboard.Table.Delete.{IsKeyed}
use itdashboard.Backend.Database.{
  AlertState, auto_fix_dispatched, acting, is_open, Alert, first_where, update_where,
}
use itdashboard.Backend.Database.Keys.{update_where-IsKeyed, first_where-none}
use itdashboard.Backend.Alerts.{has_id, open_for, in_state, update_state}
use itdashboard.Backend.Alerts.Open.{alert_key}
use itdashboard.Backend.Message.{Fresh}
use itdashboard.Backend.Raising.Sound.{IsSound, enqueue_event-IsSound}
use itdashboard.Backend.AutoFix.{
  get_cached_response, Server, visible, get, is_resolved, dispatch, check, answer_from, auto_fix,
}

-- Every row with this id is open.
abbrev OpenIfNamed : String → Alert → Type 0
OpenIfNamed id r = has_id id r ≡ true → is_open r.state ≡ true

others_not :
    (id : String) (rows : List Alert) → All (λ r. alert_key r ≢ id) rows → All (OpenIfNamed id) rows
others_not id rows =
    All-imp (λ r. alert_key r ≢ id) (OpenIfNamed id)
      (λ r other named. absurd (other ((eq_iff r.alert_id id).0 named))) rows

absent_alert :
    (id provider : String) (rows : List Alert)
    → All (λ r. alert_key r ≢ id) rows
    → get id provider rows ≡ none
unfolding get first_where
absent_alert id provider [] h = refl
absent_alert id provider (r ∷ rows) h =
    let rest = absent_alert id provider rows h.1 in
    let other : str_eq r.alert_id id ≡ false = elim (Bool-cases (str_eq r.alert_id id)) [
      | inl e ↦ absurd (h.0 ((eq_iff r.alert_id id).0 e))
      | inr e ↦ e
    ] in
    ground arith

open_unless_resolved : (s : AlertState) → is_resolved s ≡ false → is_open s ≡ true
open_unless_resolved s h = ground arith

named_open :
    (id provider : String) (rows : List Alert) (row : Alert)
    → IsKeyed alert_key rows
    → get id provider rows ≡ some row
    → is_resolved row.state ≡ false
    → All (OpenIfNamed id) rows
unfolding get first_where
named_open id provider [] row keyed h o = tt
named_open id provider (r ∷ rows) row keyed h o = elim (Bool-cases (visible id provider r)) [
  | inl e ↦
      let same : r ≡ row = ground arith in
      let named : r.alert_id ≡ id = ground (arith, eq_iff r.alert_id id) in
      (
        (λ _. open_unless_resolved r.state (ap (λ (x : Alert). is_resolved x.state) same ∙ o)),
        others_not id rows (rw (sym named) keyed.0),
      )
  | inr e ↦
      let rest : get id provider rows ≡ some row = ground arith in
      (
        λ named.
            let others : All (λ t. alert_key t ≢ id) rows =
              subst (λ (k : String). All (λ t. alert_key t ≢ k) rows)
                ((eq_iff r.alert_id id).0 named) keyed.0 in
            cc (rest, absent_alert id provider rows others),
        named_open id provider rows row keyed.1 rest o,
      )
]

count-update_state :
    (id : String) (at : ℕ) (d k : String) (rows : List Alert)
    → All (OpenIfNamed id) rows
    → count (open_for d k) (update_where (has_id id) (in_state acting at) rows)
      ≡ count (open_for d k) rows
unfolding update_where
count-update_state id at d k [] h = refl
count-update_state id at d k (r ∷ rows) h =
    ground (arith, h.0, count-update_state id at d k rows h.1)

update_state-eq :
    (id : String) (at : ℕ) (provider : String) (rows : List Alert) (row : Alert)
    → get id provider rows ≡ some row
    → (update_state id acting at rows).0 ≡ update_where (has_id id) (in_state acting at) rows
unfolding update_state
update_state-eq id at provider rows row h = elim (Option-cases (first_where (has_id id) rows)) [
  | inl e ↦ cc (h, absent_alert id provider rows (first_where-none-ids id rows e))
  | inr (r, e) ↦ rw (e, update_state) refl
]
  where
    first_where-none-ids :
        (id : String) (rows : List Alert)
        → first_where (has_id id) rows ≡ none
        → All (λ r. alert_key r ≢ id) rows
    first_where-none-ids id rows e =
        All-imp (λ r. has_id id r ≡ false) (λ r. alert_key r ≢ id)
          (λ r k same. ground (arith, eq_iff r.alert_id id)) rows
          (first_where-none (has_id id) rows e)

dispatch-IsSound :
    (now : ℕ) (fresh : Fresh) (key id provider : String) (row : Alert) (s : Server)
    → IsSound s.database
    → get id provider s.database.alerts ≡ some row
    → is_resolved row.state ≡ false
    → IsSound (dispatch now fresh key id row s).0.database
unfolding dispatch
dispatch-IsSound now fresh key id provider row s h found open_row =
    let rows = s.database.alerts in
    let e = update_state-eq id now provider rows row found in
    let named = named_open id provider rows row h.alerts found open_row in
    enqueue_event-IsSound fresh 0 row.property_id (auto_fix_dispatched id (fresh.event_uuid 0))
      (record s.database { alerts = (update_state id acting now rows).0 })
      (record {
        devices = h.devices;
        alerts = rw e (
            update_where-IsKeyed alert_key (has_id id) (in_state acting now) rows (λ r. refl)
              h.alerts);
        single = λ d k.
            let same = ap (count (open_for d k)) e ∙ count-update_state id now d k rows named in
            let before = h.single d k in omega (arith, same, before);
        outbox = h.outbox;
        below = h.below;
      })

check-IsSound :
    (now : ℕ) (fresh : Fresh) (key id provider : String) (s : Server)
    → IsSound s.database
    → IsSound (check now fresh key id (get id provider s.database.alerts) s).0.database
unfolding dispatch
check-IsSound now fresh key id provider s h =
    elim (Option-cases (get id provider s.database.alerts)) [
      | inl e ↦ rw e h
      | inr (row, e) ↦ rw e (elim (Bool-cases (is_resolved row.state)) [
        | inl r ↦ rw r h
        | inr r ↦ elim (Bool-cases row.auto_fix_authorized) [
          | inl a ↦ rw (r, a) (dispatch-IsSound now fresh key id provider row s h e r)
          | inr a ↦ rw (r, a) h
        ]
      ])
    ]

answer_from-IsSound :
    (now : ℕ) (fresh : Fresh) (key id provider : String) (s : Server)
    → IsSound s.database
    → IsSound
        (answer_from now fresh key id provider (get_cached_response now key s.cache) s).0.database
answer_from-IsSound now fresh key id provider s h =
    elim (Option-cases (get_cached_response now key s.cache)) [
      | inl e ↦ rw e (check-IsSound now fresh key id provider s h)
      | inr (r, e) ↦ rw e h
    ]

-- Whatever is asked of auto_fix, a sound database stays sound: keys stay distinct, and no device
-- has two open alerts of one kind.
pub auto_fix-IsSound :
    (now : ℕ) (fresh : Fresh) (key : Option String) (confirm : Bool) (id provider : String)
    (s : Server)
    → IsSound s.database
    → IsSound (auto_fix now fresh key confirm id provider s).0.database
unfolding auto_fix
auto_fix-IsSound now fresh none confirm id provider s h = h
auto_fix-IsSound now fresh (some key) confirm id provider s h = elim (Bool-cases (truthy key)) [
  | inl k ↦ elim (Bool-cases confirm) [
    | inl c ↦ rw (k, c) (answer_from-IsSound now fresh key id provider s h)
    | inr c ↦ rw (k, c) h
  ]
  | inr k ↦ rw k h
]
