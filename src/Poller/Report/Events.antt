-- ===== src/Poller/Report/Events.antt =====
-- The top events of the poller's messages, and which severities the cloud makes of theirs.
use itdashboard.Prelude.{
  ℕ, zero, suc, ◌-◌, ◌≤◌, ◌≡◌, ◌⊎◌, refl, String, Bool, true, inl, inr, List, [], ◌∷◌, ◌++◌, map,
  str_eq, length, take, any, All, All-append, length-append, length-take, length-map, All-map,
  arith,
}
use itdashboard.Text.{left}
use itdashboard.Poller.Json.{Json, Fields, Python, get, or_json, text}
use itdashboard.Poller.Report.{
  Event, Kind, periodic, transition, grade, event_of, or_normal, top_events_of, problem_event,
  reason_event, platform_events,
}
use itdashboard.Backend.Health.{normalize_severity}

abbrev pub size : String → ℕ
size String.[] = 0
size (String.◌∷◌ c s) = suc (size s)

pub size-left : (n : ℕ) (s : String) → size (left n s) ≤ n
unfolding left
size-left zero s = omega arith
size-left (suc n) String.[] = omega arith
size-left (suc n) (String.◌∷◌ c s) = let h = size-left n s in omega (arith, h)

abbrev pub severities : List String
severities = "crit" ∷ "err" ∷ "warn" ∷ "info" ∷ []

-- `str.lower` leaves the severities of the poller alone.
pub record KeepsSeverities (lower : String → String) : Type 0 where
  pub crit : lower "crit" ≡ "crit"
  pub err : lower "err" ≡ "err"
  pub warning : lower "warning" ≡ "warning"
  pub info : lower "info" ≡ "info"

-- The severities that a reason can have.
grade-cases :
    (r : String) → ((grade r).0 ≡ "crit") ⊎ (((grade r).0 ≡ "err") ⊎ ((grade r).0 ≡ "warning"))
unfolding grade
grade-cases r = ground arith

unfoldable pub is_known : (String → String) → String → Bool
is_known lower s = any (str_eq (normalize_severity lower s)) severities

module _ (lower : String → String) (keep : KeepsSeverities lower) where
  crit_known : is_known lower "crit" ≡ true
  unfolding is_known normalize_severity
  crit_known = rw keep.crit refl

  err_known : is_known lower "err" ≡ true
  unfolding is_known normalize_severity
  err_known = rw keep.err refl

  warning_known : is_known lower "warning" ≡ true
  unfolding is_known normalize_severity
  warning_known = rw keep.warning refl

  info_known : is_known lower "info" ≡ true
  unfolding is_known normalize_severity
  info_known = rw keep.info refl

module _ {F : Type 0} (lower : String → String) where
  -- An event that the cloud knows the severity of, with a message of bounded size.
  pub record IsEvent (e : Event F) : Type 0 where
    pub known : is_known lower e.severity ≡ true
    pub short : size e.message ≤ 200

  abbrev pub IsEvents : Kind → List (Event F) → Type 0
  IsEvents periodic events = events ≡ []
  IsEvents transition events =
      (1 ≤ length events) × (length events ≤ 5) × All (λ e. IsEvent e) events

  or_normal-IsEvents :
      KeepsSeverities lower
      → (now : F) (category message : String) (events : List (Event F)) → size message ≤ 200
      → length events ≤ 5
      → All (λ e. IsEvent e) events
      → IsEvents transition (or_normal now category message events)
  or_normal-IsEvents keep now category message [] short h k =
      (omega arith, omega arith, (record { known = info_known lower keep; short = short }, tt))
  or_normal-IsEvents keep now category message (e ∷ events) short h k = (omega arith, h, k)

  module _ (py : Python F) (keep : KeepsSeverities lower) where
    event_of-IsEvent : (now : F) (detail : Json F) (r : String) → IsEvent (event_of py now detail r)
    unfolding event_of
    event_of-IsEvent now detail r = elim (grade-cases r) [
      | inl e ↦ record { known = rw e (crit_known lower keep); short = size-left 200 _ }
      | inr more ↦ elim more [
        | inl e ↦ record { known = rw e (err_known lower keep); short = size-left 200 _ }
        | inr e ↦ record { known = rw e (warning_known lower keep); short = size-left 200 _ }
      ]
    ]

    pub top_events_of-IsEvents :
        (now : F) (device : Fields F) (reasons : List String)
        → IsEvents transition (top_events_of py now device reasons)
    unfolding top_events_of
    top_events_of-IsEvents now device reasons =
        let detail : Json F =
          or_json py (get "hw_hostname" device)
            (or_json py (get "endpoint_name" device) (text "")) in
        let events = map (event_of py now detail) (take 5 reasons) in
        or_normal-IsEvents keep now "other" "health returned to normal" events (omega arith)
          (omega
            (arith, length-map (event_of py now detail) (take 5 reasons), length-take 5 reasons))
          (All-map (event_of py now detail) _ (event_of-IsEvent now detail) (take 5 reasons))

    problem_event-IsEvent : (now : F) (p : Fields F) → IsEvent (problem_event py now p)
    unfolding problem_event
    problem_event-IsEvent now p = record { known = err_known lower keep; short = size-left 200 _ }

    reason_event-IsEvent : (now : F) (r : String) → IsEvent (reason_event py now r)
    unfolding reason_event
    reason_event-IsEvent now r = record {
      known = warning_known lower keep;
      short = size-left 200 _;
    }

    pub platform_events-IsEvents :
        (now : F) (problems : List (Fields F)) (reasons : List String)
        → IsEvents transition (platform_events py now problems reasons)
    unfolding platform_events
    platform_events-IsEvents now problems reasons =
        let first = map (problem_event py now) (take 5 problems) in
        let left = 5 - length first in
        let second = map (reason_event py now) (take left reasons) in
        or_normal-IsEvents keep now "platform" "platform returned to normal" (first ++ second)
          (omega arith)
          (omega (
            arith,
            length-append first second,
            length-map (problem_event py now) (take 5 problems),
            length-map (reason_event py now) (take left reasons),
            length-take 5 problems,
            length-take left reasons,
          ))
          (All-append _ first second
            (All-map (problem_event py now) _ (problem_event-IsEvent now) (take 5 problems))
            (All-map (reason_event py now) _ (reason_event-IsEvent now) (take left reasons)))
