-- ===== src/Syslog/Device/Window.antt =====
-- What `_evict_old` leaves of a window whose events are in the order of their times.
use itdashboard.Prelude.{
  ℕ, ◌+◌, ◌*◌, ◌≤◌, ◌≡◌, refl, Bool, true, not, inl, inr, List, [], ◌∷◌, ◌++◌, arith, ltb, select,
  select_all, All, All-imp, All-append, All-select, Bool-cases,
}
use itdashboard.Table.Order.{IsOrdered}
use itdashboard.Syslog.Device.{second, Config, Event, DeviceState, drop_old, evict_old}

abbrev pub time : Event → ℕ
time e = e.ts

-- The event is in the window.
abbrev pub fresh : ℕ → ℕ → Event → Bool
fresh window now e = not (ltb (e.ts + window) now)

-- The loop stops at the first event that is young enough, and misses none behind it.
pub drop_old-select :
    (window now : ℕ) (events : List Event)
    → IsOrdered time events
    → drop_old window now events ≡ select (fresh window now) events
unfolding drop_old
drop_old-select window now [] h = refl
drop_old-select window now (e ∷ events) h = elim (Bool-cases (ltb (e.ts + window) now)) [
  | inl old ↦ rw old (drop_old-select window now events h.1)
  | inr young ↦
      let all_young =
        All-imp (λ f. e.ts ≤ f.ts) (λ f. fresh window now f ≡ true) (λ f k. ground arith) events
          h.0 in
      let same = select_all (fresh window now) events all_young in ground (arith, same)
]

-- An event that is added at `now` keeps the order, if none is later.
pub IsOrdered-snoc :
    (events : List Event) (e : Event)
    → IsOrdered time events
    → All (λ f. time f ≤ time e) events
    → IsOrdered time (events ++ e ∷ [])
IsOrdered-snoc [] e h k = (tt, tt)
IsOrdered-snoc (f ∷ events) e h k = (
  All-append (λ g. time f ≤ time g) events (e ∷ []) h.0 (k.0, tt),
  IsOrdered-snoc events e h.1 k.1,
)

pub IsOrdered-select :
    (p : Event → Bool) (events : List Event)
    → IsOrdered time events
    → IsOrdered time (select p events)
IsOrdered-select p [] h = tt
IsOrdered-select p (e ∷ events) h = elim (Bool-cases (p e)) [
  | inl k ↦ rw k (All-select (λ f. time e ≤ time f) p events h.0, IsOrdered-select p events h.1)
  | inr k ↦ rw k (IsOrdered-select p events h.1)
]

-- The events of a window stand in the order of their times, none later than `last_seen`.
pub record IsOrderly (state : DeviceState) : Type 0 where
  pub ordered : IsOrdered time state.events
  pub seen : All (λ e. time e ≤ state.last_seen) state.events

-- From an orderly window, _evict_old keeps exactly the events that are not older than the window,
-- in order, and leaves an orderly window.
pub evict_old-events :
    (cfg : Config) (now : ℕ) (state : DeviceState)
    → IsOrderly state
    → ((evict_old cfg now state).events
        ≡ select (fresh (cfg.window_seconds * second) now) state.events)
      × IsOrderly (evict_old cfg now state)
unfolding evict_old
evict_old-events cfg now state h =
    let window = cfg.window_seconds * second in
    let kept = drop_old-select window now state.events h.ordered in
    (
      kept,
      record {
        ordered = rw kept (IsOrdered-select (fresh window now) state.events h.ordered);
        seen =
            rw kept
              (All-select (λ e. time e ≤ state.last_seen) (fresh window now) state.events h.seen);
      },
    )
