-- ===== src/Poller/Mapper.antt =====
-- poller/mapper.py: the health of a device, from the platform's record of it. The record is JSON;
-- numbers and the functions of Python's library are arguments (Poller.Json). Every finding takes
-- something off the score, so that stopping at 0 in each step is max(0, …) at the end.
pub mod Fair
pub mod Assessed
use package.text.Mathlib.Text.{starts_with}
use itdashboard.Prelude.{
  ℕ, suc, ◌+◌, ◌-◌, ◌*◌, min, max, String, Bool, true, false, not, ◌&&◌, ◌||◌, Option, none, some,
  List, [], ◌∷◌, ◌++◌, str_eq, leb, ltb, if◌then◌else◌, length, take, any,
}
use itdashboard.Text.{left, truthy, concat, decimal}
use itdashboard.Status.{Status, healthy, degraded, unhealthy, unknown, status_eq}
use itdashboard.Poller.Json.{
  Json, null, bool, number, text, array, object, Items, nil, cons, Fields, end, field, Python, get,
  has_key, is_null, str, is_true, equals_zero, is_text,
}
use itdashboard.Poller.Reading.{
  Hardware, attribute_temps, bad, hw_attributes, hw_items, hw_state, hw_word, item_temps, num, ok,
  ports, ports_of_fields, ports_of_items, temps, unclear,
}

-- What the assessment reads of the configuration, with the defaults of `cfg.get` filled in.
pub record Limits (F : Type 0) : Type 0 where
  pub temp_crit_celsius : F
  pub temp_warn_celsius : F
  pub link_flap_window_seconds : F
  pub optical_rx_warn_dbm : F
  pub link_flap_min_changes : ℕ

abbrev pub rank : Status → ℕ
rank unhealthy = 0
rank degraded = 1
rank healthy = 2
rank unknown = 3

abbrev pub worst : Status → Status → Status
worst a b = if leb (rank a) (rank b) then a else b

-- The state of a device while it is assessed.
pub record Assessment : Type 0 where
  pub status : Status
  pub score : ℕ
  pub reasons : List String
  pub errors : ℕ
  pub warns : ℕ

abbrev pub fine : Assessment
fine = record { status = healthy; score = 100; reasons = []; errors = 0; warns = 0 }

-- A finding: its status, what it takes off the score, how it counts, and its reason.
abbrev pub find : Status → ℕ → ℕ → ℕ → String → Assessment → Assessment
find status points errors warns reason a = record {
  status = worst a.status status;
  score = a.score - points;
  reasons = a.reasons ++ reason ∷ [];
  errors = a.errors + errors;
  warns = a.warns + warns;
}

-- What the loop over the ports finds: the ports that are down and that flap, by name, and the weak
-- optics with their level.
pub record Ports (F : Type 0) : Type 0 where
  pub down : List String
  pub flapping : List String
  pub weak_optics : List (String × F)

-- `if status == "healthy" and score < 85`
abbrev pub settled : Assessment → Assessment
settled a =
    if status_eq a.status healthy && ltb a.score 85 then record a { status = degraded } else a

abbrev pub add_if {ℓ} : {A : Type ℓ} → Bool → A → List A → List A
add_if b x l = if b then x ∷ l else l

module _ {F : Type 0} (py : Python F) where
  -- `max(temps)`
  abbrev hottest_of : F → List F → F
  hottest_of best [] = best
  hottest_of best (t ∷ rest) = hottest_of (if py.below best t then t else best) rest

  -- `min(r for _p, r in weak_optics)`
  abbrev weakest_of : F → List (String × F) → F
  weakest_of best [] = best
  weakest_of best ((p, r) ∷ rest) = weakest_of (if py.below r best then r else best) rest

  -- The device is in contact: the first test of `assess_device`.
  unfoldable pub in_contact : Fields F → Bool
  in_contact device =
      let lost = get "lost_contact" device in
      let state = if has_key ".state" device then get ".state" device else get "state" device in
      let calm =
        is_null lost
        || is_text "" lost
        || is_text "null" lost
        || equals_zero py lost
        || is_text "0" lost in
      calm && not (equals_zero py state || is_text "False" state || is_text "false" state)

  unfoldable pub lost_reason : Fields F → String
  unfolding str concat left
  lost_reason device =
      let why = get "lost_reason" device in
      if is_true py why
      then concat ("lost_contact:" ∷ left 60 (str py why) ∷ [])
      else "lost_contact"

  unfoldable pub check_hardware : List (String × Hardware) → Assessment → Assessment
  unfolding concat
  check_hardware [] a = a
  check_hardware ((name, bad) ∷ items) a =
      check_hardware items (find unhealthy 40 1 0 (concat ("hardware_fault:" ∷ name ∷ [])) a)
  check_hardware ((name, state) ∷ items) a = check_hardware items a

  module _ (limits : Limits F) where
    unfoldable pub check_thermal : List F → Assessment → Assessment
    unfolding concat
    check_thermal [] a = a
    check_thermal (t ∷ rest) a =
        let hottest = hottest_of t rest in
        if py.at_least hottest limits.temp_crit_celsius
        then find unhealthy 35 1 0 (concat ("thermal_critical:" ∷ py.whole hottest ∷ "C" ∷ [])) a
        else if py.at_least hottest limits.temp_warn_celsius
        then find degraded 15 0 1 (concat ("thermal_warning:" ∷ py.whole hottest ∷ "C" ∷ [])) a
        else a

    abbrev flaps : F → Option F → Bool
    flaps now none = false
    flaps now (some change) =
        py.below py.zero (py.minus now change)
        && py.below (py.minus now change) limits.link_flap_window_seconds

    abbrev is_weak : String → Option F → Bool
    is_weak sfp none = false
    is_weak sfp (some rx) =
        py.below rx limits.optical_rx_warn_dbm && not (str_eq (py.lower sfp) "copper")

    abbrev level : Option F → F
    level none = py.zero
    level (some rx) = rx

    -- `str(rec.get(key, ""))`
    abbrev text_at : String → Fields F → String
    text_at key rec = if has_key key rec then str py (get key rec) else ""

    -- The loop over the ports.
    unfoldable pub scan_ports : F → List (String × Fields F) → Ports F
    unfolding num str
    scan_ports now [] = record { down = []; flapping = []; weak_optics = [] }
    scan_ports now ((port, rec) ∷ rest) =
        let found = scan_ports now rest in
        let status = py.lower (py.strip (text_at "port_status" rec)) in
        let rx = num py (get "rx_optical_level" rec) in
        record {
          down =
              add_if (str_eq status "down" || str_eq status "inactive" || str_eq status "false")
                port found.down;
          flapping = add_if (flaps now (num py (get "last_link_change" rec))) port found.flapping;
          weak_optics =
              add_if (is_weak (text_at "sfp_type" rec) rx) (port, level rx) found.weak_optics;
        }

    unfoldable pub check_down : List String → Assessment → Assessment
    unfolding concat decimal
    check_down [] a = a
    check_down (p ∷ ports) a =
        let n = length (p ∷ ports) in
        find degraded (min (n * 5) 25) 0 n (concat ("ports_down:" ∷ decimal n ∷ [])) a

    unfoldable pub check_flapping : List String → Assessment → Assessment
    unfolding concat decimal
    check_flapping ports a =
        if leb limits.link_flap_min_changes (length ports)
        then find degraded 15 0 1 (concat ("link_flap:" ∷ decimal (length ports) ∷ "_ports" ∷ [])) a
        else a

    unfoldable pub check_optics : List (String × F) → Assessment → Assessment
    unfolding concat decimal
    check_optics [] a = a
    check_optics ((p, rx) ∷ ports) a =
        let n = length ((p, rx) ∷ ports) in
        let worst_rx = py.tenths (weakest_of rx ports) in
        find degraded (min (n * 5) 20) 0 n
          (concat ("optical_low:" ∷ decimal n ∷ "_ports_min_" ∷ worst_rx ∷ "dBm" ∷ [])) a

    unfoldable pub findings : F → Fields F → Assessment
    unfolding check_hardware hw_items check_thermal temps scan_ports ports check_down check_flapping
        check_optics
    findings now device =
        let seen = scan_ports now (ports py (get "connections" device)) in
        check_optics seen.weak_optics (
          check_flapping seen.flapping (
            check_down seen.down
              (check_thermal (temps py device) (check_hardware (hw_items py device) fine))))

    -- `assess_device`: `event_count` is `max(1, errors + warns)`.
    unfoldable pub assess_device : F → Fields F → Assessment
    unfolding in_contact lost_reason findings
    assess_device now device = if in_contact device then settled (findings now device) else record {
      status = unhealthy;
      score = 0;
      reasons = lost_reason device ∷ [];
      errors = 1;
      warns = 0;
    }

abbrev pub event_count : Assessment → ℕ
event_count a = max 1 (a.errors + a.warns)
