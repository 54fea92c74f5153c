-- ===== src/Syslog/Health.antt =====
-- `_compute_health` of syslog/aggregator.py.
pub mod Laws
use itdashboard.Prelude.{
  ℕ, ◌+◌, ◌-◌, ◌*◌, ◌/◌, min, String, Bool, List, [], ◌∷◌, ◌++◌, str_eq, leb, ltb, ◌==◌,
  if◌then◌else◌, count,
}
use itdashboard.Text.{decimal, concat}
use itdashboard.Status.{Status, healthy, degraded, unhealthy, unknown}
use itdashboard.Syslog.Classify.{rank_of}
use itdashboard.Syslog.Device.{second, Config, Event, DeviceState}

-- `sum(c for s, c in sev_counts.items() if rank <= 3)`: the events of those severities, counted.
abbrev pub is_error : Event → Bool
is_error e = leb (rank_of e.severity) 3

abbrev pub is_warning : Event → Bool
is_warning e = rank_of e.severity == 4

abbrev pub in_category : String → Event → Bool
in_category c e = str_eq e.category c

abbrev pub when : Bool → String → List String
when b reason = if b then reason ∷ [] else []

-- The reasons, in the order of the tests.
unfoldable pub find_reasons : ℕ → ℕ → List Event → List String
find_reasons errors warns events =
    when (leb 5 errors) "error_rate_high"
    ++ (when (leb 10 warns) "warn_rate_high"
        ++ (when (leb 3 (count (in_category "link") events)) "link_flap"
            ++ (when (leb 5 (count (in_category "auth") events)) "auth_failures"
                ++ when (leb 1 (count (in_category "hardware") events)) "hardware_fault")))

-- 100, less at most 60, 20 and 15: the score is never negative here.
unfoldable pub score_of : ℕ → ℕ → Bool → ℕ
score_of errors warns quiet =
    100 - min (errors * 8) 60 - min (warns * 2) 20 - (if quiet then 15 else 0)

unfoldable pub status_of_score : ℕ → Status
status_of_score score =
    if leb 85 score then healthy else if leb 60 score then degraded else unhealthy

-- (status, score, reasons)
abbrev pub Health : Type 0
Health = Status × ℕ × List String

unfoldable pub compute_health : Config → ℕ → DeviceState → Health
unfolding find_reasons score_of status_of_score decimal concat
compute_health cfg now state =
    let stale = cfg.stale_threshold_seconds * second in
    let errors = count is_error state.events in
    let warns = count is_warning state.events in
    let quiet = ltb (2 * state.last_seen + stale) (2 * now) in
    let score = score_of errors warns quiet in
    if state.last_seen == 0
    then (unknown, 0, "never_seen" ∷ [])
    else if ltb (state.last_seen + stale) now
    then (
      unhealthy,
      10,
      concat ("silent_for_" ∷ decimal ((now - state.last_seen) / second) ∷ "s" ∷ []) ∷ [],
    )
    else (status_of_score score, score, find_reasons errors warns state.events)
