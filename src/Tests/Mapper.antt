-- ===== src/Tests/Mapper.antt =====
-- The assessment of a device by numbers that are natural, and its theorem there.
use itdashboard.Prelude.{
  ℕ, ◌+◌, ◌-◌, ◌*◌, ◌≡◌, ◌↔◌, ◌⊎◌, refl, ◌≤◌, false, none, some, [], ◌∷◌, ltb, leb, ◌==◌,
  if◌then◌else◌, count, str_eq,
}
use itdashboard.Status.{unhealthy}
use itdashboard.Poller.Json.{text, object, Fields, end, field, Python, get}
use itdashboard.Poller.Mapper.{Limits, in_contact, scan_ports, assess_device}
use itdashboard.Poller.Reading.{hw_items, temps, ports}
use itdashboard.Poller.Mapper.Fair.{IsFair, is_bad}
use itdashboard.Poller.Mapper.Assessed.{thermal, thermal_points, port_points, assess_device_lem}

-- Numbers that are natural, texts in lower case, and one written number.
abbrev pub py : Python ℕ
py = record {
  zero = 0;
  is_zero = λ n. n == 0;
  is_one = λ n. n == 1;
  natural = λ n. some n;
  below = ltb;
  at_least = λ a b. leb b a;
  minus = λ a b. a - b;
  whole = λ n. "60";
  tenths = λ n. "60.0";
  repr = λ v. "1";
  number_of_text = λ s. if str_eq s "60C" then some 60 else none;
  strip = λ s. s;
  lower = λ s. s;
  upper = λ s. s;
  contains = λ s w. false;
}

abbrev pub limits : Limits ℕ
limits = record {
  temp_crit_celsius = 70;
  temp_warn_celsius = 55;
  link_flap_window_seconds = 900;
  optical_rx_warn_dbm = 5;
  link_flap_min_changes = 3;
}

abbrev device : Fields ℕ
device = field "attributes" (object (field "psu1" (text "fail") (field "temp1" (text "60C") end))) (
    field "connections" (object (field "7" (object (field "port_status" (text "down") end)) end))
      end)

assess_test :
    (let a = assess_device py limits 100 device in
      (a.status ≡ unhealthy)
      × (a.score ≡ 40)
      × (a.reasons ≡ "hardware_fault:psu1" ∷ "thermal_warning:60C" ∷ "ports_down:1" ∷ []))
unfolding assess_device
assess_test = (refl, refl, refl)

-- A NaN is not hot: neither comparison holds of it.
nan_test :
    (let a =
        assess_device
          (record py { below = λ a b. false; at_least = λ a b. false })
          limits
          100
          device in
      a.reasons ≡ "hardware_fault:psu1" ∷ "ports_down:1" ∷ [])
unfolding assess_device
nan_test = refl

assess_device_lem_example :
    (let seen = scan_ports py limits 100 (ports py (get "connections" device)) in
      let faults = count is_bad (hw_items py device) in
      let heat = thermal py limits (temps py device) in
      let a = assess_device py limits 100 device in
      IsFair a
      × (if in_contact py device
          then (a.score ≡ 100 - (40 * faults + thermal_points heat + port_points py limits seen))
            × ((a.status ≡ unhealthy) ↔ ((1 ≤ faults) ⊎ (heat ≡ unhealthy)))
          else (a.score ≡ 0) × (a.status ≡ unhealthy)))
assess_device_lem_example = assess_device_lem py limits 100 device
