-- ===== src/Status.antt =====
-- The four health statuses, which both agents send and the cloud stores.
use itdashboard.Prelude.{Bool, true, false, String, ◌≡◌, ◌↔◌, arith}

pub data Status : Type 0 where
  healthy degraded unhealthy unknown : Status

abbrev pub status_text : Status → String
status_text healthy = "healthy"
status_text degraded = "degraded"
status_text unhealthy = "unhealthy"
status_text unknown = "unknown"

abbrev pub status_eq : Status → Status → Bool
status_eq healthy healthy = true
status_eq degraded degraded = true
status_eq unhealthy unhealthy = true
status_eq unknown unknown = true
status_eq _ _ = false

pub status_eq_iff : (a b : Status) → (status_eq a b ≡ true) ↔ (a ≡ b)
status_eq_iff a b = ground arith
