-- ===== src/Poller/Platform.antt =====
-- poller/mapper.py: the health of the orchestration platform itself. Python's int raises
-- OverflowError on an infinity, which JSON numbers can be: then there is no assessment.
pub mod Steps
pub mod Assessed
use itdashboard.Prelude.{
  ℕ, zero, suc, ◌+◌, ◌-◌, ◌*◌, ◌/◌, min, String, Bool, true, false, not, ◌&&◌, ◌||◌, Option, none,
  some, List, [], ◌∷◌, str_eq, if◌then◌else◌, length,
}
use itdashboard.Text.{left, truthy, concat, decimal}
use itdashboard.Status.{degraded, unhealthy}
use itdashboard.Poller.Json.{
  Json, null, bool, number, text, array, object, Fields, end, Python, get, str, or_json,
}
use itdashboard.Poller.Mapper.{Assessment, fine, find, settled}
use itdashboard.Poller.Reading.{num}

-- What the assessment reads of the configuration, and the number 30 * 86400.
pub record PlatformLimits (F : Type 0) : Type 0 where
  pub freespace_warn_percent : F
  pub month : F

infixl 5 ◌>>=◌
abbrev ◌>>=◌ {ℓ κ} : {A : Type ℓ} {B : Type κ} → Option A → (A → Option B) → Option B
none >>= f = none
some a >>= f = f a

module _ {F : Type 0} (py : Python F) where
  -- `v in (True, "TRUE", "true")`; the number 1 equals True, and 0 equals False.
  abbrev pub says_true : Json F → Bool
  says_true (bool b) = b
  says_true (number n) = py.is_one n
  says_true (text s) = str_eq s "TRUE" || str_eq s "true"
  says_true v = false

  abbrev pub says_false : Json F → Bool
  says_false (bool b) = not b
  says_false (number n) = py.is_zero n
  says_false (text s) = str_eq s "FALSE" || str_eq s "false"
  says_false v = false

  -- `int(n)` of a number that is there and positive: the outer None stands for OverflowError.
  abbrev rounded : Option ℕ → Option (Option ℕ)
  rounded none = none
  rounded (some k) = some (some k)

  unfoldable pub positive : Option F → Option (Option ℕ)
  positive none = some none
  positive (some n) = if py.below py.zero n then rounded (py.natural n) else some none

  abbrev in_days : Option ℕ → Option (Option ℕ)
  in_days none = none
  in_days (some seconds) = some (some (seconds / 86400))

  -- The days that a license is still valid, if it expires within a month.
  unfoldable pub expires_in : F → F → Option F → Option (Option ℕ)
  expires_in month now none = some none
  expires_in month now (some not_after) =
      let left = py.minus not_after now in
      if not (py.is_zero not_after) && py.below py.zero left && py.below left month
      then in_days (py.natural left)
      else some none

  unfoldable pub check_lost : Option ℕ → Assessment → Assessment
  unfolding concat decimal
  check_lost none a = a
  check_lost (some k) a =
      find degraded (min (k * 5) 30) 0 k (concat ("optical_edge_out_of_contact:" ∷ decimal k ∷ []))
        a

  unfoldable pub check_rebooted : Option ℕ → Assessment → Assessment
  unfolding concat decimal
  check_rebooted none a = a
  check_rebooted (some k) a =
      find degraded 5 0 k (concat ("optical_edge_rebooted_24h:" ∷ decimal k ∷ [])) a

  unfoldable pub check_freespace : F → Option F → Assessment → Assessment
  unfolding concat
  check_freespace warn none a = a
  check_freespace warn (some free) a =
      if py.below free warn
      then find degraded 20 0 1 (concat ("platform_disk_low:" ∷ py.whole free ∷ "pct_free" ∷ [])) a
      else a

  abbrev pub is_calm : String → Bool
  is_calm buffer_state =
      not (truthy buffer_state) || str_eq buffer_state "normal" || str_eq buffer_state "starting"

  unfoldable pub check_buffer : String → Assessment → Assessment
  unfolding concat left
  check_buffer buffer_state a =
      if is_calm buffer_state
      then a
      else find degraded 15 0 1 (concat ("bufferwatch:" ∷ left 40 buffer_state ∷ [])) a

  unfoldable pub check_expired : Fields F → Assessment → Assessment
  check_expired lic a =
      if says_true (get "expired" lic) then find unhealthy 50 1 0 "license_expired" a else a

  unfoldable pub check_valid : Fields F → Assessment → Assessment
  check_valid lic a =
      if says_true (get "missing" lic)
      then find unhealthy 30 1 0 "license_file_missing" a
      else if says_false (get "valid" lic)
      then find degraded 20 0 1 "license_invalid" a
      else a

  unfoldable pub check_expiring : Option ℕ → Assessment → Assessment
  unfolding concat decimal
  check_expiring none a = a
  check_expiring (some days) a =
      find degraded 10 0 1 (concat ("license_expires_in_" ∷ decimal days ∷ "d" ∷ [])) a

  -- A license that is no dict is passed over, which an empty one is too.
  abbrev pub license_of : Json F → Fields F
  license_of (object lic) = lic
  license_of v = end

  unfoldable pub check_problems : ℕ → Assessment → Assessment
  unfolding concat decimal
  check_problems zero a = a
  check_problems (suc n) a =
      let k = suc n in
      find degraded (min (k * 10) 40) k 0 (concat ("active_problems:" ∷ decimal k ∷ [])) a

  abbrev pub buffer_state_of : Fields F → String
  buffer_state_of response =
      py.lower (py.strip (str py (or_json py (get "bufferwatch" response) (text ""))))

  -- The findings, of the counts and days as they were read.
  unfoldable pub platform_findings :
      PlatformLimits F → Fields F → ℕ → Option ℕ → Option ℕ → Option ℕ → Assessment
  unfolding num str check_lost check_rebooted check_freespace check_buffer check_expired check_valid
      check_expiring check_problems
  platform_findings limits response problems lost rebooted days =
      let lic = license_of (get "tenant_licenses" response) in
      let free = num py (get "freespace" response) in
      check_problems problems (
        check_expiring days (
          check_valid lic (
            check_expired lic (
              check_buffer (buffer_state_of response) (
                check_freespace limits.freespace_warn_percent free
                  (check_rebooted rebooted (check_lost lost fine)))))))

  -- `assess_platform`, of the number of problems.
  unfoldable pub assess_platform : PlatformLimits F → F → Fields F → ℕ → Option Assessment
  unfolding num positive expires_in platform_findings
  assess_platform limits now response problems =
      let lic = license_of (get "tenant_licenses" response) in
      do
        lost ← positive (num py (get "fttp_lost_contact" response))
        rebooted ← positive (num py (get "fttp_rebooted" response))
        days ← expires_in limits.month now (num py (get "not_after" lic))
        some (settled (platform_findings limits response problems lost rebooted days))
