-- ===== src/Poller/Mapper/Assessed.antt =====
-- What an assessment says: when a device is unhealthy, and what its score is made of.
use itdashboard.Prelude.{
  ℕ, ◌+◌, ◌-◌, ◌*◌, ◌≤◌, ◌≡◌, ◌↔◌, ◌⊎◌, min, refl, String, inl, inr, List, [], ◌∷◌, arith, leb,
  if◌then◌else◌, length, count, Bool-cases,
}
use itdashboard.Text.{concat}
use itdashboard.Status.{Status, healthy, degraded, unhealthy, unknown, status_eq}
use itdashboard.Poller.Json.{Python, Fields, get}
use itdashboard.Poller.Mapper.{
  Limits, Assessment, fine, find, Ports, in_contact, lost_reason, check_hardware, check_thermal,
  scan_ports, check_down, check_flapping, check_optics, findings, assess_device, hottest_of,
}
use itdashboard.Poller.Reading.{Hardware, ok, bad, unclear, hw_items, temps, ports}
use itdashboard.Poller.Mapper.Fair.{IsFair, settled_of_IsFair, lost-IsFair, is_bad, findings-IsFair}

-- What a thermal finding takes off the score.
abbrev pub thermal_points : Status → ℕ
thermal_points unhealthy = 35
thermal_points degraded = 15
thermal_points _ = 0

-- Errors are faults of the hardware and a critical heat.
fault_or_heat :
    {n : ℕ} (faults : ℕ) (heat : Status)
    → n ≡ faults + (if status_eq heat unhealthy then 1 else 0)
    → (1 ≤ n) ↔ ((1 ≤ faults) ⊎ (heat ≡ unhealthy))
fault_or_heat faults unhealthy h = ((λ k. inr refl), (λ k. omega (arith, h)))
fault_or_heat faults healthy h = ground arith
fault_or_heat faults degraded h = ground arith
fault_or_heat faults unknown h = ground arith

module _ {F : Type 0} (py : Python F) where
  check_hardware-sums :
      (items : List (String × Hardware)) (a : Assessment)
      → (let r = check_hardware py items a in
          (r.errors ≡ a.errors + count is_bad items)
          × (r.warns ≡ a.warns)
          × (r.score ≡ a.score - 40 * count is_bad items))
  unfolding check_hardware
  check_hardware-sums [] a = ground arith
  check_hardware-sums ((name, bad) ∷ items) a =
      let (e, w, s) =
        check_hardware-sums items
          (find unhealthy 40 1 0 (concat ("hardware_fault:" ∷ name ∷ [])) a) in
      (omega (arith, e), omega (arith, w), omega (arith, s))
  check_hardware-sums ((name, ok) ∷ items) a = check_hardware-sums items a
  check_hardware-sums ((name, unclear) ∷ items) a = check_hardware-sums items a

  module _ (limits : Limits F) where
    -- What the hottest reading amounts to.
    abbrev pub thermal : List F → Status
    thermal [] = healthy
    thermal (t ∷ rest) =
        let hottest = hottest_of py t rest in
        if py.at_least hottest limits.temp_crit_celsius
        then unhealthy
        else if py.at_least hottest limits.temp_warn_celsius
        then degraded
        else healthy

    check_thermal-sums :
        (l : List F) (a : Assessment)
        → (let r = check_thermal py limits l a in
            (r.errors ≡ a.errors + (if status_eq (thermal l) unhealthy then 1 else 0))
            × (r.score ≡ a.score - thermal_points (thermal l)))
    unfolding check_thermal
    check_thermal-sums [] a = ground arith
    check_thermal-sums (t ∷ rest) a = ground arith

    -- What the ports take off the score.
    abbrev pub port_points : Ports F → ℕ
    port_points seen =
        min (length seen.down * 5) 25
        + (if leb limits.link_flap_min_changes (length seen.flapping) then 15 else 0)
        + min (length seen.weak_optics * 5) 20

    check_down-sums :
        (l : List String) (a : Assessment)
        → (let r = check_down py limits l a in
            (r.errors ≡ a.errors) × (r.score ≡ a.score - min (length l * 5) 25))
    unfolding check_down
    check_down-sums [] a = ground arith
    check_down-sums (p ∷ l) a = ground arith

    check_flapping-sums :
        (l : List String) (a : Assessment)
        → (let r = check_flapping py limits l a in
            (r.errors ≡ a.errors)
            × (r.score ≡ a.score - (if leb limits.link_flap_min_changes (length l) then 15 else 0)))
    unfolding check_flapping
    check_flapping-sums l a = ground arith

    check_optics-sums :
        (l : List (String × F)) (a : Assessment)
        → (let r = check_optics py limits l a in
            (r.errors ≡ a.errors) × (r.score ≡ a.score - min (length l * 5) 20))
    unfolding check_optics
    check_optics-sums [] a = ground arith
    check_optics-sums (p ∷ l) a = ground arith

    findings-sums :
        (now : F) (device : Fields F)
        → (let seen = scan_ports py limits now (ports py (get "connections" device)) in
            let faults = count is_bad (hw_items py device) in
            let heat = thermal (temps py device) in
            let r = findings py limits now device in
            (r.errors ≡ faults + (if status_eq heat unhealthy then 1 else 0))
            × (r.score ≡ 100 - (40 * faults + thermal_points heat + port_points seen)))
    unfolding findings
    findings-sums now device =
        let seen = scan_ports py limits now (ports py (get "connections" device)) in
        let a1 = check_hardware py (hw_items py device) fine in
        let a2 = check_thermal py limits (temps py device) a1 in
        let a3 = check_down py limits seen.down a2 in
        let a4 = check_flapping py limits seen.flapping a3 in
        let (e1, _, s1) = check_hardware-sums (hw_items py device) fine in
        let (e2, s2) = check_thermal-sums (temps py device) a1 in
        let (e3, s3) = check_down-sums seen.down a2 in
        let (e4, s4) = check_flapping-sums seen.flapping a3 in
        let (e5, s5) = check_optics-sums seen.weak_optics a4 in
        (omega (arith, e1, e2, e3, e4, e5), omega (arith, s1, s2, s3, s4, s5))

    -- Of whatever record, an assessment is healthy exactly if it has no reasons, and then the
    -- score is 100 and nothing is counted; it is unhealthy exactly if it counts an error, and
    -- never unknown. In contact, the score is 100 less 40 for each faulty part, 35 or 15 for the
    -- heat, and what the ports take off, but not below 0, and the device is unhealthy exactly if a
    -- part is faulty or the heat critical. Out of contact it is unhealthy with score 0.
    pub assess_device_lem :
        (now : F) (device : Fields F)
        → (let seen = scan_ports py limits now (ports py (get "connections" device)) in
            let faults = count is_bad (hw_items py device) in
            let heat = thermal (temps py device) in
            let a = assess_device py limits now device in
            IsFair a
            × (if in_contact py device
                then (a.score ≡ 100 - (40 * faults + thermal_points heat + port_points seen))
                  × ((a.status ≡ unhealthy) ↔ ((1 ≤ faults) ⊎ (heat ≡ unhealthy)))
                else (a.score ≡ 0) × (a.status ≡ unhealthy)))
    unfolding assess_device
    assess_device_lem now device = elim (Bool-cases (in_contact py device)) [
      | inl e ↦
          let fair = findings-IsFair py limits now device in
          let (errors, score) = findings-sums now device in
          let heat = thermal (temps py device) in
          let faults = count is_bad (hw_items py device) in
          rw (e, settled_of_IsFair (findings py limits now device) fair)
            (
              fair,
              (
                score,
                (
                  (λ h. (fault_or_heat faults heat errors).0 (fair.grave.0 h)),
                  (λ h. fair.grave.1 ((fault_or_heat faults heat errors).1 h)),
                ),
              ),
            )
      | inr e ↦ rw e (lost-IsFair (lost_reason py device), (refl, refl))
    ]
