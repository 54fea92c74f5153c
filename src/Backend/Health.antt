-- ===== src/Backend/Health.antt =====
-- backend/app/lib/health.py and lib/severity.py. The time of an event stands for its ISO text; the
-- fields of a detail that hold a constant are left out. `str.lower` is an argument.
pub mod Score
use itdashboard.Prelude.{
  ℕ, ◌+◌, ◌/◌, min, String, Bool, true, false, Option, none, some, List, [], ◌∷◌, ◌++◌, map, take,
  str_eq, leb, if◌then◌else◌,
}
use itdashboard.Text.{or_else, concat, join, decimal}
use itdashboard.Status.{Status, healthy, degraded, unhealthy, unknown, status_text, status_eq}
use itdashboard.Table.{order_by}
use itdashboard.Backend.Database.{
  Severity, p1, p2, p3, p4, opened, TopEvent, element, signal, kpi, consequence, Tier, Detail,
  Property, Device,
}

unfoldable pub normalize_severity : (String → String) → String → String
normalize_severity lower raw =
    let s = lower raw in
    if str_eq s "warning"
    then "warn"
    else if str_eq s "error"
    then "err"
    else if str_eq s "information"
    then "info"
    else if str_eq s "critical"
    then "crit"
    else s

abbrev pub status_to_score_floor : Status → ℕ
status_to_score_floor unhealthy = 40
status_to_score_floor degraded = 70
status_to_score_floor healthy = 100
status_to_score_floor unknown = 60

abbrev pub severity_for_transition : Status → Severity
severity_for_transition unhealthy = p1
severity_for_transition degraded = p2
severity_for_transition healthy = p4
severity_for_transition unknown = p3

abbrev pub any_is : Status → List Status → Bool
any_is s [] = false
any_is s (t ∷ rest) = if status_eq t s then true else any_is s rest

abbrev pub all_are : Status → List Status → Bool
all_are s [] = true
all_are s (t ∷ rest) = if status_eq t s then all_are s rest else false

abbrev pub worst : List Status → Status
worst statuses =
    if any_is unhealthy statuses
    then unhealthy
    else if any_is degraded statuses
    then degraded
    else if all_are healthy statuses
    then healthy
    else degraded

-- The scores that are not None.
abbrev pub scores_of : List (Status × Option ℕ) → List ℕ
scores_of [] = []
scores_of ((s, none) ∷ rest) = scores_of rest
scores_of ((s, some n) ∷ rest) = n ∷ scores_of rest

abbrev pub sum : List ℕ → ℕ
sum [] = 0
sum (n ∷ rest) = n + sum rest

abbrev pub size : List ℕ → ℕ
size [] = 0
size (n ∷ rest) = 1 + size rest

-- `int(sum(scores) / len(scores))`, or the floor if there are none.
abbrev pub average : List ℕ → ℕ → ℕ
average [] floor = floor
average (n ∷ rest) floor = sum (n ∷ rest) / size (n ∷ rest)

-- `health_status` is NOT NULL and never empty, so every device has a status.
unfoldable pub property_health_score : List (Status × Option ℕ) → ℕ × Status
property_health_score [] = (0, unknown)
property_health_score (d ∷ rest) =
    let status = worst (map (λ e. e.0) (d ∷ rest)) in
    let floor = status_to_score_floor status in
    (min (average (scores_of (d ∷ rest)) floor) floor, status)

-- What `model_dump()` of a transition message holds that the detail reads. `categories` and
-- `window_seconds` are what `.get` finds, the default included.
pub record EdgeSummary : Type 0 where
  pub status : Status
  pub reasons : List String
  pub event_count : ℕ
  pub error_count : ℕ
  pub categories : List (String × ℕ)
  pub window_seconds : ℕ
  pub top_events : List TopEvent

unfoldable pub build_summary_text : Device → EdgeSummary → String
unfolding concat join
build_summary_text device edge =
    let label = or_else device.label device.device_id in
    elim edge.reasons [
      | [] ↦ concat (label ∷ ": status changed to " ∷ status_text edge.status ∷ [])
      | reason ∷ rest ↦ concat (label ∷ ": " ∷ join ", " (take 3 (reason ∷ rest)) ∷ [])
    ]

-- `max(items, key=count)`, the first of those with the largest count.
unfoldable pub top_category : String × ℕ → List (String × ℕ) → String × ℕ
top_category best [] = best
top_category best (c ∷ rest) =
    let kept = top_category best rest in
    let taken = top_category c rest in if leb c.1 best.1 then kept else taken

unfoldable pub signal_tier : List (String × ℕ) → ℕ → List Tier
unfolding top_category concat decimal
signal_tier [] seconds = []
signal_tier (c ∷ rest) seconds =
    let (category, count) = top_category c rest in
    record {
      title = concat (category ∷ " events dominant" ∷ []);
      description = concat (
          decimal count
          ∷ " events of category '"
          ∷ category
          ∷ "' in the last "
          ∷ decimal seconds
          ∷ "s."
          ∷ []);
      metadata = signal category count;
      stubbed_until = none;
    }
    ∷ []

abbrev pub alert_kind_of : Status → String
alert_kind_of healthy = "health_transition_to_healthy"
alert_kind_of degraded = "health_transition_to_degraded"
alert_kind_of unhealthy = "health_transition_to_unhealthy"
alert_kind_of unknown = "health_transition_to_unknown"

unfoldable pub materialize_alert_from_transition :
    String → EdgeSummary → Device → Property → ℕ → Detail
unfolding build_summary_text signal_tier concat join order_by
materialize_alert_from_transition correlation_id edge device property opened_at = record {
  identity = record {
    severity = severity_for_transition edge.status;
    state = opened;
    opened_at = opened_at;
    property_id = property.property_id;
    property_name = property.name;
    device_id = device.device_id;
    device_label = or_else device.label device.device_id;
    alert_kind = alert_kind_of edge.status;
    correlation_id = correlation_id;
  };
  current_value = edge.status;
  series = order_by (λ (e : TopEvent). e.ts) edge.top_events;
  causal_chain =
      record {
        title =
            concat
              (or_else device.device_class "device" ∷ " health: " ∷ status_text edge.status ∷ []);
        description = build_summary_text device edge;
        metadata =
            element device.device_id edge.reasons edge.event_count edge.error_count edge.top_events;
        stubbed_until = none;
      }
        ∷ signal_tier edge.categories edge.window_seconds
      ++ record {
        title = "Business KPI impact pending";
        description = "Linkage to KPI projection not yet wired.";
        metadata = kpi;
        stubbed_until = some "phase_2_business_projections";
      }
        ∷ record {
          title = "Revenue impact pending";
          description = "Cost-of-poor-quality model not yet wired.";
          metadata = consequence;
          stubbed_until = some "phase_2_business_projections";
        }
        ∷ [];
  rationale = concat (
      "Edge agent classified device as "
      ∷ status_text edge.status
      ∷ " based on reasons: "
      ∷ or_else (some (join ", " edge.reasons)) "aggregate metrics"
      ∷ "."
      ∷ []);
}
