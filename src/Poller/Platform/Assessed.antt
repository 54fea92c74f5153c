-- ===== src/Poller/Platform/Assessed.antt =====
-- What the assessment of the platform says: its status, and what its score is made of.
use itdashboard.Prelude.{
  ℕ, ◌+◌, ◌-◌, ◌*◌, ◌≡◌, ◌≤◌, Option-cases, ◌≢◌, ◌↔◌, ◌⊎◌, min, refl, Bool, true, false, ◌||◌, inl,
  inr, Option, some, [], arith, if◌then◌else◌,
}
use itdashboard.Status.{healthy, unhealthy, unknown}
use itdashboard.Poller.Json.{Python, Fields, get}
use itdashboard.Poller.Mapper.{Assessment, fine, settled}
use itdashboard.Poller.Reading.{num}
use itdashboard.Poller.Platform.{
  PlatformLimits, says_true, positive, expires_in, check_lost, check_rebooted, check_freespace,
  is_calm, check_buffer, check_expired, check_valid, check_expiring, license_of, buffer_state_of,
  platform_findings, assess_platform,
}
use itdashboard.Poller.Platform.Steps.{
  fine-IsSane, settled_of_IsSane, lost_points, when, is_low, license_points, license_faults,
  check_lost-Step, check_rebooted-Step, check_freespace-Step, check_buffer-Step,
  check_expiring-Step, check_problems-Step, check_expired-Step, check_valid-Step,
}

module _ {F : Type 0} (py : Python F) where
  module _ (limits : PlatformLimits F) (response : Fields F) where
    -- What is taken off the score of the platform.
    abbrev pub platform_points : ℕ → Option ℕ → Option ℕ → Option ℕ → ℕ
    platform_points problems lost rebooted days =
        lost_points lost
        + when rebooted 5
        + (if is_low py limits.freespace_warn_percent (num py (get "freespace" response))
            then 20
            else 0)
        + (if is_calm py (buffer_state_of py response) then 0 else 15)
        + license_points py (license_of py (get "tenant_licenses" response))
        + when days 10
        + min (problems * 10) 40

    -- What an assessment says of the platform, of the counts and days that it read.
    pub record Says (problems : ℕ) (lost rebooted days : Option ℕ) (a : Assessment) : Type 0 where
      pub calm : (a.status ≡ healthy) ↔ (a.reasons ≡ [])
      pub known : a.status ≢ unknown
      pub score : a.score ≡ 100 - platform_points problems lost rebooted days
      pub perfect : a.status ≡ healthy → a.score ≡ 100
      pub grave : (a.status ≡ unhealthy) ↔ (
          (says_true py (get "missing" (license_of py (get "tenant_licenses" response))) ≡ true)
          ⊎ (says_true py (get "expired" (license_of py (get "tenant_licenses" response))) ≡ true))
      pub errors :
          a.errors ≡ problems + license_faults py (license_of py (get "tenant_licenses" response))

    either : (a b : Bool) → ((a || (b || false)) ≡ true) ↔ ((a ≡ true) ⊎ (b ≡ true))
    either true b = ((λ h. inl refl), (λ h. refl))
    either false true = ((λ h. inr refl), (λ h. refl))
    either false false = ground arith

    findings-Says :
        (problems : ℕ) (lost rebooted days : Option ℕ)
        → (let a = platform_findings py limits response problems lost rebooted days in
            (settled a ≡ a) × Says problems lost rebooted days a)
    unfolding platform_findings
    findings-Says problems lost rebooted days =
        let lic = license_of py (get "tenant_licenses" response) in
        let free = num py (get "freespace" response) in
        let warn = limits.freespace_warn_percent in
        let a1 = check_lost py lost fine in
        let a2 = check_rebooted py rebooted a1 in
        let a3 = check_freespace py warn free a2 in
        let a4 = check_buffer py (buffer_state_of py response) a3 in
        let a5 = check_expired py lic a4 in
        let a6 = check_valid py lic a5 in
        let a7 = check_expiring py days a6 in
        let missing = says_true py (get "missing" lic) in
        let expired = says_true py (get "expired" lic) in
        let (h1, s1, e1) = check_lost-Step py lost false fine fine-IsSane in
        let (h2, s2, e2) = check_rebooted-Step py rebooted false a1 h1 in
        let (h3, s3, e3) = check_freespace-Step py warn free false a2 h2 in
        let (h4, s4, e4) = check_buffer-Step py (buffer_state_of py response) false a3 h3 in
        let (h5, s5, e5) = check_expired-Step py lic false a4 h4 in
        let (h6, s6, e6) = check_valid-Step py lic (expired || false) a5 h5 in
        let (h7, s7, e7) = check_expiring-Step py days (missing || (expired || false)) a6 h6 in
        let (h, s8, e8) = check_problems-Step py problems (missing || (expired || false)) a7 h7 in
        let (to, from) = either missing expired in
        (
          settled_of_IsSane (missing || (expired || false)) _ h,
          record {
            calm = h.calm;
            known = h.known;
            score = omega (arith, s1, s2, s3, s4, s5, s6, s7, s8);
            perfect = h.perfect;
            grave = ((λ e. to (h.grave.0 e)), (λ k. h.grave.1 (from k)));
            errors = omega (arith, e1, e2, e3, e4, e5, e6, e7, e8);
          },
        )

    -- If the counts and the days that it reads can be rounded, the platform has an assessment:
    -- healthy exactly if it has no reasons, and then with score 100; unhealthy exactly if its
    -- license is missing or expired, and never unknown. The score is 100 less the points of each
    -- finding, but not below 0; its errors are the problems and the faults of the license.
    pub assess_platform_lem :
        (now : F) (problems : ℕ) (lost rebooted days : Option ℕ)
        → positive py (num py (get "fttp_lost_contact" response)) ≡ some lost
        → positive py (num py (get "fttp_rebooted" response)) ≡ some rebooted
        → expires_in py limits.month now
            (num py (get "not_after" (license_of py (get "tenant_licenses" response))))
          ≡ some days
        → (a : Assessment) × (assess_platform py limits now response problems ≡ some a)
          × Says problems lost rebooted days a
    unfolding assess_platform
    assess_platform_lem now problems lost rebooted days l r d =
        let a = platform_findings py limits response problems lost rebooted days in
        let (same, says) = findings-Says problems lost rebooted days in
        rw (l, r, d, same) (a, refl, says)

    pub assess_platform-Sane :
        (now : F) (problems : ℕ) (a : Assessment)
        → assess_platform py limits now response problems ≡ some a
        → (a.score ≤ 100) × ((a.status ≡ healthy) ↔ (a.reasons ≡ []))
    unfolding assess_platform
    assess_platform-Sane now problems a h =
        let lic = license_of py (get "tenant_licenses" response) in
        let lost = positive py (num py (get "fttp_lost_contact" response)) in
        let rebooted = positive py (num py (get "fttp_rebooted" response)) in
        let days = expires_in py limits.month now (num py (get "not_after" lic)) in
        elim (Option-cases lost) [
          | inl e ↦ let never : ⊥ = ground (arith, rw e at h) in absurd never
          | inr (l, el) ↦ elim (Option-cases rebooted) [
            | inl e ↦ let never : ⊥ = ground (arith, rw (el, e) at h) in absurd never
            | inr (r, er) ↦ elim (Option-cases days) [
              | inl e ↦ let never : ⊥ = ground (arith, rw (el, er, e) at h) in absurd never
              | inr (d, ed) ↦
                  let (b, same, says) = assess_platform_lem now problems l r d el er ed in
                  let one : b ≡ a = cc (h, same) in
                  let score = says.score in rw (← one) (omega (arith, score), says.calm)
            ]
          ]
        ]
