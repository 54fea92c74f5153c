-- ===== src/Poller/Mapper/Fair.antt =====
-- What holds of an assessment after every finding.
use itdashboard.Prelude.{
  ℕ, ◌+◌, ◌*◌, ◌≤◌, ◌≡◌, ◌≢◌, ◌↔◌, min, refl, String, Bool, true, false, inl, inr, List, [], ◌∷◌,
  ◌++◌, arith, leb, length, Bool-cases,
}
use itdashboard.Status.{Status, healthy, degraded, unhealthy, unknown, status_eq, status_eq_iff}
use itdashboard.Poller.Json.{Python, Fields, get}
use itdashboard.Poller.Mapper.{
  Limits, Assessment, fine, find, worst, check_hardware, check_thermal, scan_ports, check_down,
  check_flapping, check_optics, settled, findings, hottest_of,
}
use itdashboard.Poller.Reading.{Hardware, ok, bad, unclear, hw_items, temps, ports}

-- What holds of an assessment at every step.
pub record IsFair (a : Assessment) : Type 0 where
  pub calm : (a.status ≡ healthy) ↔ (a.reasons ≡ [])
  pub perfect : a.status ≡ healthy → (a.score ≡ 100) × (a.errors + a.warns ≡ 0)
  pub grave : (a.status ≡ unhealthy) ↔ (1 ≤ a.errors)
  pub known : a.status ≢ unknown
  pub bounded : a.score ≤ 100
  pub counted : a.status ≢ healthy → 1 ≤ a.errors + a.warns

fine-IsFair : IsFair fine
fine-IsFair = record {
  calm = ground arith;
  perfect = ground arith;
  grave = ground arith;
  known = ground arith;
  bounded = omega arith;
  counted = ground arith;
}

pub snoc_not_nil : (l : List String) (x : String) → l ++ x ∷ [] ≢ []
snoc_not_nil [] x = ground arith
snoc_not_nil (y ∷ l) x = ground arith

pub worst_degraded :
    (s : Status)
    → s ≢ unknown
    → ((worst s degraded ≡ unhealthy) ↔ (s ≡ unhealthy))
      × (worst s degraded ≢ healthy)
      × (worst s degraded ≢ unknown)
worst_degraded healthy h = ground arith
worst_degraded degraded h = ground arith
worst_degraded unhealthy h = ground arith
worst_degraded unknown h = absurd (h refl)

pub worst_unhealthy : (s : Status) → s ≢ unknown → worst s unhealthy ≡ unhealthy
worst_unhealthy healthy h = refl
worst_unhealthy degraded h = refl
worst_unhealthy unhealthy h = refl
worst_unhealthy unknown h = absurd (h refl)

find_degraded-IsFair :
    (points warns : ℕ) (reason : String) (a : Assessment)
    → 1 ≤ warns
    → IsFair a
    → IsFair (find degraded points 0 warns reason a)
find_degraded-IsFair points warns reason a some_warns h =
    let (same, not_healthy, not_unknown) = worst_degraded a.status h.known in
    let more = snoc_not_nil a.reasons reason in
    record {
      calm = ((λ e. absurd (not_healthy e)), (λ e. absurd (more e)));
      perfect = λ e. absurd (not_healthy e);
      grave = (
        (λ e. let k = h.grave.0 (same.0 e) in omega (arith, k)),
        (λ k. same.1 (h.grave.1 (omega (arith, k)))),
      );
      known = not_unknown;
      bounded = let b = h.bounded in omega (arith, b);
      counted = λ e. omega arith;
    }

find_unhealthy-IsFair :
    (points : ℕ) (reason : String) (a : Assessment)
    → IsFair a
    → IsFair (find unhealthy points 1 0 reason a)
find_unhealthy-IsFair points reason a h =
    let e = worst_unhealthy a.status h.known in
    let more = snoc_not_nil a.reasons reason in
    let not_healthy : worst a.status unhealthy ≢ healthy = λ k. cc (e, k) in
    record {
      calm = ((λ k. absurd (not_healthy k)), (λ k. absurd (more k)));
      perfect = λ k. absurd (not_healthy k);
      grave = ((λ k. omega arith), (λ k. e));
      known = λ k. cc (e, k);
      bounded = let b = h.bounded in omega (arith, b);
      counted = λ k. omega arith;
    }

-- A fair assessment is not changed at the end: a healthy device has the score 100.
pub settled_of_IsFair : (a : Assessment) → IsFair a → settled a ≡ a
settled_of_IsFair a h = elim (Bool-cases (status_eq a.status healthy)) [
  | inl e ↦ let full = (h.perfect ((status_eq_iff a.status healthy).0 e)).0 in rw (e, full) refl
  | inr e ↦ rw e refl
]

pub lost-IsFair :
    (reason : String)
    → IsFair
        (record { status = unhealthy; score = 0; reasons = reason ∷ []; errors = 1; warns = 0 })
lost-IsFair reason = record {
  calm = ground arith;
  perfect = ground arith;
  grave = ground arith;
  known = ground arith;
  bounded = omega arith;
  counted = ground arith;
}

abbrev pub is_bad : String × Hardware → Bool
is_bad (name, bad) = true
is_bad (name, ok) = false
is_bad (name, unclear) = false

module _ {F : Type 0} (py : Python F) where
  check_hardware-IsFair :
      (items : List (String × Hardware)) (a : Assessment)
      → IsFair a
      → IsFair (check_hardware py items a)
  unfolding check_hardware
  check_hardware-IsFair [] a h = h
  check_hardware-IsFair ((name, bad) ∷ items) a h =
      check_hardware-IsFair items _ (find_unhealthy-IsFair 40 _ a h)
  check_hardware-IsFair ((name, ok) ∷ items) a h = check_hardware-IsFair items a h
  check_hardware-IsFair ((name, unclear) ∷ items) a h = check_hardware-IsFair items a h

  module _ (limits : Limits F) where
    check_thermal-IsFair :
        (l : List F) (a : Assessment) → IsFair a → IsFair (check_thermal py limits l a)
    unfolding check_thermal
    check_thermal-IsFair [] a h = h
    check_thermal-IsFair (t ∷ rest) a h =
        let hottest = hottest_of py t rest in
        elim (Bool-cases (py.at_least hottest limits.temp_crit_celsius)) [
          | inl c ↦ rw c (find_unhealthy-IsFair 35 _ a h)
          | inr c ↦ elim (Bool-cases (py.at_least hottest limits.temp_warn_celsius)) [
            | inl w ↦ rw (c, w) (find_degraded-IsFair 15 1 _ a (omega arith) h)
            | inr w ↦ rw (c, w) h
          ]
        ]

    check_down-IsFair :
        (l : List String) (a : Assessment) → IsFair a → IsFair (check_down py limits l a)
    unfolding check_down
    check_down-IsFair [] a h = h
    check_down-IsFair (p ∷ l) a h =
        find_degraded-IsFair (min (length (p ∷ l) * 5) 25) (length (p ∷ l)) _ a (omega arith) h

    check_flapping-IsFair :
        (l : List String) (a : Assessment) → IsFair a → IsFair (check_flapping py limits l a)
    unfolding check_flapping
    check_flapping-IsFair l a h = elim (Bool-cases (leb limits.link_flap_min_changes (length l))) [
      | inl e ↦ rw e (find_degraded-IsFair 15 1 _ a (omega arith) h)
      | inr e ↦ rw e h
    ]

    check_optics-IsFair :
        (l : List (String × F)) (a : Assessment) → IsFair a → IsFair (check_optics py limits l a)
    unfolding check_optics
    check_optics-IsFair [] a h = h
    check_optics-IsFair (p ∷ l) a h =
        find_degraded-IsFair (min (length (p ∷ l) * 5) 20) (length (p ∷ l)) _ a (omega arith) h

    pub findings-IsFair : (now : F) (device : Fields F) → IsFair (findings py limits now device)
    unfolding findings
    findings-IsFair now device =
        let seen = scan_ports py limits now (ports py (get "connections" device)) in
        check_optics-IsFair seen.weak_optics _ (
          check_flapping-IsFair seen.flapping _ (
            check_down-IsFair seen.down _ (
              check_thermal-IsFair (temps py device) _
                (check_hardware-IsFair (hw_items py device) fine fine-IsFair))))
