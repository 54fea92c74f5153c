-- ===== src/Syslog/Health/Laws.antt =====
-- The inferred health: how score, status and reasons hang together.
use itdashboard.Prelude.{
  ℕ, ◌+◌, ◌*◌, ◌≤◌, ◌<◌, ◌≡◌, ◌≢◌, ◌↔◌, Bool, true, false, List, arith, ltb, ◌==◌, count, String,
  Bool-cases, inl, inr,
}
use itdashboard.Status.{healthy, degraded, unhealthy}
use itdashboard.Syslog.Device.{second, Config, DeviceState}
use itdashboard.Syslog.Health.{
  Health, score_of, status_of_score, compute_health, is_error, is_warning, find_reasons,
}

score_of-le : (errors warns : ℕ) (quiet : Bool) → score_of errors warns quiet ≤ 100
unfolding score_of
score_of-le errors warns quiet = omega arith

-- A result of `_compute_health` whose parts agree.
abbrev pub Agrees : Health → Type 0
Agrees (status, score, reasons) =
    (score ≤ 100)
    × ((status ≡ healthy) ↔ (85 ≤ score))
    × ((status ≡ degraded) ↔ (60 ≤ score) × (score < 85))

status_of_score-Agrees :
    (score : ℕ) (reasons : List String)
    → score ≤ 100
    → Agrees (status_of_score score, score, reasons)
unfolding status_of_score
status_of_score-Agrees score reasons h = ground arith

module _ (cfg : Config) (now : ℕ) (state : DeviceState) where
  -- On every branch the score is at most 100, a device is healthy exactly from 85 on and degraded
  -- exactly from 60 to 84.
  pub compute_health-Agrees : Agrees (compute_health cfg now state)
  unfolding compute_health
  compute_health-Agrees =
      let stale = cfg.stale_threshold_seconds * second in
      let errors = count is_error state.events in
      let warns = count is_warning state.events in
      let quiet = ltb (2 * state.last_seen + stale) (2 * now) in
      elim (Bool-cases (state.last_seen == 0)) [
        | inl never ↦ rw never (
          omega arith,
          (λ e. absurd (cc), λ h. absurd (omega arith)),
          (λ e. absurd (cc), λ h. absurd (omega arith)),
        )
        | inr seen ↦ elim (Bool-cases (ltb (state.last_seen + stale) now)) [
          | inl silent ↦
              rw (seen, silent)
                (
                  omega arith,
                  (λ e. absurd (cc), λ h. absurd (omega arith)),
                  (λ e. absurd (cc), λ h. absurd (omega arith)),
                )
          | inr heard ↦
              rw (seen, heard)
                (status_of_score-Agrees (score_of errors warns quiet)
                  (find_reasons errors warns state.events) (score_of-le errors warns quiet))
        ]
      ]

  -- The device was heard from, and has not been silent for longer than the threshold.
  abbrev pub IsHeard : Type 0
  IsHeard = (state.last_seen ≢ 0) × (now ≤ state.last_seen + cfg.stale_threshold_seconds * second)

  -- A device that is called healthy was heard from in time, and its window holds at most one error
  -- and seven warnings. From six errors on a device that was heard from in time is unhealthy;
  -- silence beyond the threshold makes a device that was seen unhealthy with score 10.
  pub compute_health_evidence :
      (((compute_health cfg now state).0 ≡ healthy)
        → IsHeard × (count is_error state.events ≤ 1) × (count is_warning state.events ≤ 7))
      × (IsHeard → 6 ≤ count is_error state.events → (compute_health cfg now state).0 ≡ unhealthy)
      × (state.last_seen ≢ 0
          → state.last_seen + cfg.stale_threshold_seconds * second < now
          → ((compute_health cfg now state).0 ≡ unhealthy)
            × ((compute_health cfg now state).1 ≡ 10))
  unfolding compute_health status_of_score score_of
  compute_health_evidence = (ground arith, ground arith, ground arith)

-- More errors or warnings, or silence, never raise the score.
pub score_of_antitone :
    (errors errors' warns warns' : ℕ) (quiet : Bool)
    → errors ≤ errors'
    → warns ≤ warns'
    → (score_of errors' warns' quiet ≤ score_of errors warns quiet)
      × (score_of errors warns true ≤ score_of errors warns false)
unfolding score_of
score_of_antitone errors errors' warns warns' quiet h k = omega arith
