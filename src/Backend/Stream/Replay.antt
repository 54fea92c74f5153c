-- ===== src/Backend/Stream/Replay.antt =====
-- Which messages a client gets: those that pass its filters, and after a reconnect those that came
-- behind the last one it has seen.
use itdashboard.Prelude.{
  ℕ, ◌+◌, ◌≤◌, ◌≡◌, ◌≢◌, refl, sym, ap, ◌∙◌, String, true, false, inl, inr, Option, none, some,
  List, [], ◌∷◌, ◌++◌, map, arith, str_eq, eq_iff, select, select-append, select_all, All, All-imp,
  All-append, All-select, Bool-cases,
}
use text.Mathlib.TextPositions.{eq_refl}
use mathlib.Core.List.{append_assoc, append-nil}
use itdashboard.Backend.Database.{
  Event, edge_heartbeat, device_health_changed, alert_state_changed, alert_updated, alert_opened,
  auto_fix_dispatched,
}
use itdashboard.Backend.Stream.{
  message_of, has_text, passes_filter, BufferedEvent, SseReplayBuffer, is_recent, add, after_id,
  events_since,
}

-- Only heartbeats and new alerts name their property.
abbrev pub names_property : Event → Option String
names_property (edge_heartbeat edge property depth) = some property
names_property (alert_opened a) = some a.property_id
names_property (device_health_changed device old new) = none
names_property (alert_state_changed alert old new) = none
names_property (alert_updated alert) = none
names_property (auto_fix_dispatched alert action) = none

abbrev pub Asked : List String → Option String → Type 0
Asked pids none = ⊥
Asked pids (some pid) = has_text pids pid ≡ true

-- If a client asks for certain properties, an event that passes its filter is a heartbeat or a new
-- alert, and its property is one of them: the other events name no property and never pass.
pub passes_filter-Asked :
    (pid : String) (pids : List String) (kinds : Option (List String)) (lowest : Option String)
    (e : Event)
    → passes_filter (some (pid ∷ pids)) kinds lowest (message_of e) ≡ true
    → Asked (pid ∷ pids) (names_property e)
unfolding passes_filter message_of
passes_filter-Asked pid pids kinds lowest (edge_heartbeat edge property depth) h = ground arith
passes_filter-Asked pid pids kinds lowest (alert_opened a) h = ground arith
passes_filter-Asked pid pids kinds lowest (device_health_changed device old new) h = ground arith
passes_filter-Asked pid pids kinds lowest (alert_state_changed alert old new) h = ground arith
passes_filter-Asked pid pids kinds lowest (alert_updated alert) h = ground arith
passes_filter-Asked pid pids kinds lowest (auto_fix_dispatched alert action) h = ground arith

after_id-first :
    (id : String) (front rest : List BufferedEvent) (e : BufferedEvent)
    → All (λ x. x.event_id ≢ id) front
    → e.event_id ≡ id
    → after_id id (front ++ e ∷ rest) ≡ rest
unfolding after_id
after_id-first id [] rest e h named = rw (named, eq_refl id) refl
after_id-first id (x ∷ front) rest e h named =
    let other : str_eq x.event_id id ≡ false = elim (Bool-cases (str_eq x.event_id id)) [
      | inl same ↦ absurd (h.0 ((eq_iff x.event_id id).0 same))
      | inr other ↦ other
    ] in
    rw other (after_id-first id front rest e h.1 named)

abbrev pub added : List (ℕ × BufferedEvent) → List BufferedEvent
added adds = map (λ (a : ℕ × BufferedEvent). a.1) adds

abbrev pub add_all : List (ℕ × BufferedEvent) → SseReplayBuffer → SseReplayBuffer
add_all [] b = b
add_all ((now, e) ∷ adds) b = add_all adds (add now e b)

kept :
    (e : BufferedEvent) (front rest : List BufferedEvent) (window now : ℕ)
    → All (λ x. e.at ≤ x.at) rest
    → now ≤ e.at + window
    → select (is_recent window now) (front ++ e ∷ rest)
      ≡ select (is_recent window now) front ++ e ∷ rest
kept e front rest window now later soon =
    let young : All (λ x. is_recent window now x ≡ true) rest =
      All-imp (λ x. e.at ≤ x.at) (λ x. is_recent window now x ≡ true) (λ x k. ground arith) rest
        later in
    let own : is_recent window now e ≡ true = ground arith in
    select-append (is_recent window now) front (e ∷ rest)
    ∙ ap (◌++◌ (select (is_recent window now) front))
        (select_all (is_recent window now) (e ∷ rest) (own, young))

-- As long as the last event that a client has seen is no older than the window and younger events
-- follow it, events_since of its id gives exactly what came after it, also after further events
-- were added.
pub events_since-add_all :
    (e : BufferedEvent) (front rest : List BufferedEvent) (window : ℕ)
    (adds : List (ℕ × BufferedEvent))
    → All (λ x. x.event_id ≢ e.event_id) front
    → All (λ x. e.at ≤ x.at) rest
    → All (λ a. (e.at ≤ a.1.at) × (a.0 ≤ e.at + window)) adds
    → events_since e.event_id
        (add_all adds (record { events = front ++ e ∷ rest; window = window }))
      ≡ rest ++ added adds
unfolding events_since add
events_since-add_all e front rest window [] other later soon =
    after_id-first e.event_id front rest e other refl ∙ sym (append-nil rest)
events_since-add_all e front rest window ((now, x) ∷ adds) other later soon =
    let front' = select (is_recent window now) front in
    let (late, near) = soon.0 in
    let events' : add now x (record { events = front ++ e ∷ rest; window = window })
        ≡ record { events = front' ++ e ∷ (rest ++ x ∷ []); window = window } =
      ap (λ (l : List BufferedEvent). record { events = l; window = window })
        (ap (λ (l : List BufferedEvent). l ++ x ∷ []) (kept e front rest window now later near)
          ∙ append_assoc front' (e ∷ rest) (x ∷ [])) in
    ap (λ (b : SseReplayBuffer). events_since e.event_id (add_all adds b)) events'
    ∙ events_since-add_all e front' (rest ++ x ∷ []) window adds
        (All-select (λ y. y.event_id ≢ e.event_id) (is_recent window now) front other)
        (All-append (λ y. e.at ≤ y.at) rest (x ∷ []) later (late, tt)) soon.1
    ∙ append_assoc rest (x ∷ []) (added adds)
