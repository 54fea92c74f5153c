-- ===== src/Syslog/Summary/Top.antt =====
-- The events that a summary shows first.
use mathlib.Core.List.{Perm}
use mathlib.Core.List.Perm
use itdashboard.Prelude.{
  ℕ, ◌≡◌, refl, true, false, inl, inr, List, [], ◌∷◌, map, arith, length, length-take, take, min,
  All, All-imp, Bool-cases,
}
use itdashboard.Syslog.Device.{Config, Event, DeviceState}
use itdashboard.Syslog.Summary.{Kind, before, insert_event, sort_events, shorten, build_summary}

-- Worst severity first, and among equals the youngest.
abbrev pub IsRanked : List Event → Type 0
IsRanked [] = Unit
IsRanked (e ∷ events) = All (λ f. before e f ≡ true) events × IsRanked events

before_trans : (a b c : Event) → before a b ≡ true → before b c ≡ true → before a c ≡ true
unfolding before
before_trans a b c h k = ground arith

before_total : (a b : Event) → before a b ≡ false → before b a ≡ true
unfolding before
before_total a b h = ground arith

All-insert_event {κ} :
    (P : Event → Type κ) (e : Event) (events : List Event)
    → P e
    → All P events
    → All P (insert_event e events)
unfolding insert_event
All-insert_event P e [] h k = (h, tt)
All-insert_event P e (f ∷ events) h k = elim (Bool-cases (before e f)) [
  | inl b ↦ rw b (h, k)
  | inr b ↦ rw b (k.0, All-insert_event P e events h k.1)
]

insert_event-IsRanked :
    (e : Event) (events : List Event) → IsRanked events → IsRanked (insert_event e events)
unfolding insert_event
insert_event-IsRanked e [] h = (tt, tt)
insert_event-IsRanked e (f ∷ events) h = elim (Bool-cases (before e f)) [
  | inl b ↦ rw b (
    (
      b,
      All-imp (λ g. before f g ≡ true) (λ g. before e g ≡ true) (λ g k. before_trans e f g b k)
          events h.0,
    ),
    h,
  )
  | inr b ↦ rw b (
    All-insert_event (λ g. before f g ≡ true) e events (before_total e f b) h.0,
    insert_event-IsRanked e events h.1,
  )
]

pub sort_events-IsRanked : (events : List Event) → IsRanked (sort_events events)
unfolding sort_events
sort_events-IsRanked [] = tt
sort_events-IsRanked (e ∷ events) =
    insert_event-IsRanked e (sort_events events) (sort_events-IsRanked events)

insert_event-perm : (e : Event) (events : List Event) → Perm (insert_event e events) (e ∷ events)
unfolding insert_event
insert_event-perm e [] = Perm.refl (e ∷ [])
insert_event-perm e (f ∷ events) = elim (Bool-cases (before e f)) [
  | inl b ↦ rw b (Perm.refl (e ∷ f ∷ events))
  | inr b ↦ rw b (Perm.trans (Perm.cons f (insert_event-perm e events)) (Perm.swap e f events))
]

pub sort_events-perm : (events : List Event) → Perm (sort_events events) events
unfolding sort_events
sort_events-perm [] = Perm.refl []
sort_events-perm (e ∷ events) =
    Perm.trans (insert_event-perm e (sort_events events)) (Perm.cons e (sort_events-perm events))

-- A summary shows, shortened, the first five events of a ranking of the whole window: worst
-- severity first, the youngest first among equals, and no event of the window is left out of the
-- ranking.
pub top_events_lem :
    (cfg : Config) (now : ℕ) (kind : Kind) (state : DeviceState)
    → (ranking : List Event) × IsRanked ranking
      × Perm ranking state.events
      × ((build_summary cfg now kind state).top_events ≡ map shorten (take 5 ranking))
      × (length (take 5 ranking) ≡ min 5 (length ranking))
unfolding build_summary
top_events_lem cfg now kind state = (
  sort_events state.events,
  sort_events-IsRanked state.events,
  sort_events-perm state.events,
  refl,
  length-take 5 (sort_events state.events),
)
