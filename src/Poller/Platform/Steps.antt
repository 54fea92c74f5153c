-- ===== src/Poller/Platform/Steps.antt =====
-- What each finding about the platform does to its status, score and errors.
use itdashboard.Prelude.{
  ℕ, zero, suc, ◌+◌, ◌-◌, ◌*◌, ◌≡◌, ◌≢◌, ◌↔◌, min, refl, String, Bool, true, false, ◌||◌, inl, inr,
  Option, none, some, [], arith, if◌then◌else◌, Bool-cases,
}
use itdashboard.Status.{healthy, degraded, unhealthy, unknown, status_eq, status_eq_iff}
use itdashboard.Poller.Json.{Python, Fields, get}
use itdashboard.Poller.Mapper.{Assessment, fine, find, worst, settled}
use itdashboard.Poller.Mapper.Fair.{snoc_not_nil, worst_degraded, worst_unhealthy}
use itdashboard.Poller.Platform.{
  says_true, says_false, check_lost, check_rebooted, check_freespace, is_calm, check_buffer,
  check_expired, check_valid, check_expiring, check_problems,
}

-- What holds of an assessment in which something grave was found or not.
pub record IsSane (found : Bool) (a : Assessment) : Type 0 where
  pub calm : (a.status ≡ healthy) ↔ (a.reasons ≡ [])
  pub perfect : a.status ≡ healthy → a.score ≡ 100
  pub grave : (a.status ≡ unhealthy) ↔ (found ≡ true)
  pub known : a.status ≢ unknown

pub fine-IsSane : IsSane false fine
fine-IsSane = record {
  calm = ground arith;
  perfect = ground arith;
  grave = ground arith;
  known = ground arith;
}

find_degraded-IsSane :
    (found : Bool) (points errors warns : ℕ) (reason : String) (a : Assessment)
    → IsSane found a
    → IsSane found (find degraded points errors warns reason a)
find_degraded-IsSane found points errors warns reason a h =
    let (same, not_healthy, not_unknown) = worst_degraded a.status h.known in
    let more = snoc_not_nil a.reasons reason in
    record {
      calm = ((λ e. absurd (not_healthy e)), (λ e. absurd (more e)));
      perfect = λ e. absurd (not_healthy e);
      grave = ((λ e. h.grave.0 (same.0 e)), (λ k. same.1 (h.grave.1 k)));
      known = not_unknown;
    }

find_unhealthy-IsSane :
    (found : Bool) (points errors warns : ℕ) (reason : String) (a : Assessment)
    → IsSane found a
    → IsSane true (find unhealthy points errors warns reason a)
find_unhealthy-IsSane found points errors warns reason a h =
    let e = worst_unhealthy a.status h.known in
    let more = snoc_not_nil a.reasons reason in
    let not_healthy : worst a.status unhealthy ≢ healthy = λ k. cc (e, k) in
    record {
      calm = ((λ k. absurd (not_healthy k)), (λ k. absurd (more k)));
      perfect = λ k. absurd (not_healthy k);
      grave = ((λ k. refl), (λ k. e));
      known = λ k. cc (e, k);
    }

pub settled_of_IsSane : (found : Bool) (a : Assessment) → IsSane found a → settled a ≡ a
settled_of_IsSane found a h = elim (Bool-cases (status_eq a.status healthy)) [
  | inl e ↦ let full = h.perfect ((status_eq_iff a.status healthy).0 e) in rw (e, full) refl
  | inr e ↦ rw e refl
]

abbrev pub lost_points : Option ℕ → ℕ
lost_points none = 0
lost_points (some k) = min (k * 5) 30

abbrev pub when : Option ℕ → ℕ → ℕ
when none points = 0
when (some k) points = points

module _ {F : Type 0} (py : Python F) where
  abbrev pub is_low : F → Option F → Bool
  is_low warn none = false
  is_low warn (some free) = py.below free warn

  -- What the platform's license takes off the score.
  abbrev pub license_points : Fields F → ℕ
  license_points lic =
      (if says_true py (get "expired" lic) then 50 else 0)
      + (if says_true py (get "missing" lic)
          then 30
          else if says_false py (get "valid" lic)
          then 20
          else 0)

  abbrev pub license_faults : Fields F → ℕ
  license_faults lic =
      (if says_true py (get "expired" lic) then 1 else 0)
      + (if says_true py (get "missing" lic) then 1 else 0)

  -- A step that takes `points` off and counts `errors`, and may find something grave.
  abbrev pub Step : (Bool → Bool) → ℕ → ℕ → (Assessment → Assessment) → Type 0
  Step more points errors f =
      (found : Bool) (a : Assessment)
      → IsSane found a
      → IsSane (more found) (f a)
        × ((f a).score ≡ a.score - points)
        × ((f a).errors ≡ a.errors + errors)

  pub check_lost-Step : (o : Option ℕ) → Step (λ b. b) (lost_points o) 0 (check_lost py o)
  unfolding check_lost
  check_lost-Step none found a h = (h, ground arith, ground arith)
  check_lost-Step (some k) found a h =
      (find_degraded-IsSane found _ _ _ _ a h, ground arith, ground arith)

  pub check_rebooted-Step : (o : Option ℕ) → Step (λ b. b) (when o 5) 0 (check_rebooted py o)
  unfolding check_rebooted
  check_rebooted-Step none found a h = (h, ground arith, ground arith)
  check_rebooted-Step (some k) found a h =
      (find_degraded-IsSane found _ _ _ _ a h, ground arith, ground arith)

  pub check_freespace-Step :
      (warn : F) (o : Option F)
      → Step (λ b. b) (if is_low warn o then 20 else 0) 0 (check_freespace py warn o)
  unfolding check_freespace
  check_freespace-Step warn none found a h = (h, ground arith, ground arith)
  check_freespace-Step warn (some free) found a h = elim (Bool-cases (py.below free warn)) [
    | inl e ↦ rw e (find_degraded-IsSane found _ _ _ _ a h, ground arith, ground arith)
    | inr e ↦ rw e (h, ground arith, ground arith)
  ]

  pub check_buffer-Step :
      (s : String) → Step (λ b. b) (if is_calm py s then 0 else 15) 0 (check_buffer py s)
  unfolding check_buffer
  check_buffer-Step s found a h = elim (Bool-cases (is_calm py s)) [
    | inl e ↦ rw e (h, ground arith, ground arith)
    | inr e ↦ rw e (find_degraded-IsSane found _ _ _ _ a h, ground arith, ground arith)
  ]

  pub check_expiring-Step : (o : Option ℕ) → Step (λ b. b) (when o 10) 0 (check_expiring py o)
  unfolding check_expiring
  check_expiring-Step none found a h = (h, ground arith, ground arith)
  check_expiring-Step (some days) found a h =
      (find_degraded-IsSane found _ _ _ _ a h, ground arith, ground arith)

  pub check_problems-Step : (n : ℕ) → Step (λ b. b) (min (n * 10) 40) n (check_problems py n)
  unfolding check_problems
  check_problems-Step zero found a h = (h, ground arith, ground arith)
  check_problems-Step (suc n) found a h =
      (find_degraded-IsSane found _ _ _ _ a h, ground arith, ground arith)

  pub check_expired-Step :
      (lic : Fields F)
      → (let b = says_true py (get "expired" lic) in
          Step
            (λ found. b || found)
            (if b then 50 else 0)
            (if b then 1 else 0)
            (check_expired py lic))
  unfolding check_expired
  check_expired-Step lic found a h = elim (Bool-cases (says_true py (get "expired" lic))) [
    | inl e ↦ rw e (find_unhealthy-IsSane found _ _ _ _ a h, ground arith, ground arith)
    | inr e ↦ rw e (h, ground arith, ground arith)
  ]

  pub check_valid-Step :
      (lic : Fields F)
      → (let b = says_true py (get "missing" lic) in
          Step
            (λ found. b || found)
            (if b then 30 else if says_false py (get "valid" lic) then 20 else 0)
            (if b then 1 else 0)
            (check_valid py lic))
  unfolding check_valid
  check_valid-Step lic found a h = elim (Bool-cases (says_true py (get "missing" lic))) [
    | inl e ↦ rw e (find_unhealthy-IsSane found _ _ _ _ a h, ground arith, ground arith)
    | inr e ↦ elim (Bool-cases (says_false py (get "valid" lic))) [
      | inl v ↦ rw (e, v) (find_degraded-IsSane found _ _ _ _ a h, ground arith, ground arith)
      | inr v ↦ rw (e, v) (h, ground arith, ground arith)
    ]
  ]
