-- ===== src/Tests/Cycle.antt =====
-- The platform's health, the messages of a device, and a poll that fails after it recorded a device.
use itdashboard.Prelude.{
  ℕ, ◌≡◌, ◌↔◌, refl, String, true, Option, none, some, List, [], ◌∷◌, ◌++◌, inl, inr, map, All,
}
use itdashboard.Status.{unhealthy}
use itdashboard.Table.Delete.{IsKeyed}
use itdashboard.Poller.Json.{
  Json, null, number, text, array, object, nil, cons, Fields, end, dict, get,
}
use itdashboard.Poller.Queue.{Outbound, empty, enqueue_many}
use itdashboard.Poller.StateStore.{StateStore, record_status}
use itdashboard.Poller.StateStore
use itdashboard.Poller.Mapper.{Assessment}
use itdashboard.Poller.Reading.{num}
use itdashboard.Poller.Platform.{PlatformLimits, positive, expires_in, license_of, assess_platform}
use itdashboard.Poller.Platform.Assessed.{Says, assess_platform_lem}
use itdashboard.Poller.Identity.{Identity, device_id_for}
use itdashboard.Poller.Report.{transition, Report, EdgeHealth, device_message, platform_message}
use itdashboard.Poller.Report.Events.{KeepsSeverities}
use itdashboard.Poller.Report.Contract.{MeetsContract, messages-MeetContract}
use itdashboard.Poller.Client.{Result}
use itdashboard.Poller.Poll.Transitions.{reading_key, reports}
use itdashboard.Poller.Cycle.{
  PollSettings, PollMessage, edge_health, platform_readings, device_readings, cycle,
}
use itdashboard.Poller.Devices.{iter_devices}
use itdashboard.Poller.Cycle.Lost.{state_of, devices_of, IsOfAbsent, cycle_lost}
use itdashboard.Tests.Mapper.{limits}
use itdashboard.Tests.Config.{py}
use itdashboard.Tests.Client.{answer, switch}

abbrev platform_limits : PlatformLimits ℕ
platform_limits = record { freespace_warn_percent = 15; month = 2592000 }

abbrev response : Fields ℕ
response = dict (
    ("fttp_lost_contact", number 2)
    ∷ ("freespace", number 40)
    ∷ ("tenant_licenses", object (dict (("expired", text "TRUE") ∷ [])))
    ∷ [])

platform_test :
    assess_platform py platform_limits 100 response 1
    ≡ some (record {
      status = unhealthy;
      score = 30;
      reasons = "optical_edge_out_of_contact:2" ∷ "license_expired" ∷ "active_problems:1" ∷ [];
      errors = 2;
      warns = 2;
    })
unfolding assess_platform
platform_test = refl

lost_read : positive py (num py (get "fttp_lost_contact" response)) ≡ some (some 2)
unfolding positive num
lost_read = refl

rebooted_read : positive py (num py (get "fttp_rebooted" response)) ≡ some none
unfolding positive num
rebooted_read = refl

days_read :
    expires_in py 2592000 100
      (num py (get "not_after" (license_of py (get "tenant_licenses" response))))
    ≡ some none
unfolding expires_in num
days_read = refl

assess_platform_lem_example :
    (a : Assessment) × (assess_platform py platform_limits 100 response 1 ≡ some a)
    × Says py platform_limits response 1 (some 2) none none a
assess_platform_lem_example =
    assess_platform_lem py platform_limits response 100 1 (some 2) none none lost_read rebooted_read
      days_read

abbrev identity : Identity ℕ
identity = record {
  device_id_source = "dev_id";
  device_id_prefix = "sdlan";
  default_device_class = "switch";
  device_overrides = end;
  platform_device_class = "orchestrator";
  property_name = "sheraton";
}

abbrev same_case : String → String
same_case s = s

same_case-KeepsSeverities : KeepsSeverities same_case
same_case-KeepsSeverities = record { crit = refl; err = refl; warning = refl; info = refl }

id_test : device_id_for py identity switch ≡ some "sdlan-1"
unfolding device_id_for
id_test = refl

messages-MeetContract_example :
    ((lim : _) (device : Fields ℕ) (domain site : Json ℕ)
      → ((device_message py identity lim device domain site transition 100 ≡ none)
          ↔ (device_id_for py identity device ≡ none))
        × ((m : Report ℕ)
            → device_message py identity lim device domain site transition 100 ≡ some m
            → (device_id_for py identity device ≡ some m.device_id)
              × MeetsContract same_case transition m))
    × ((lim : PlatformLimits ℕ) (answered : Fields ℕ) (problems : List (Fields ℕ)) (m : Report ℕ)
        → platform_message py identity lim answered problems transition 100 ≡ some m
        → MeetsContract same_case transition m)
messages-MeetContract_example =
    messages-MeetContract same_case py same_case-KeepsSeverities identity transition 100

abbrev settings : PollSettings ℕ
settings = record {
  identity = identity;
  limits = limits;
  platform_limits = platform_limits;
  report_platform = true;
  poll_interval_seconds = 300;
}

abbrev kind_of : PollMessage ℕ → Option String
kind_of m = none

-- A list is no answer to a status query: `status_resp.get` raises.
abbrev odd : Result ℕ
odd = inr (array (cons null nil), none)

abbrev refused : Result ℕ
refused = inl "HTTP 500"

odd_raises : platform_readings py settings 100 odd ≡ none
unfolding platform_readings
odd_raises = refl

refused_passed : platform_readings py settings 200 refused ≡ some []
unfolding platform_readings
refused_passed = refl

devices-IsKeyed : IsKeyed reading_key (devices_of py settings 100 answer)
unfolding iter_devices device_readings
devices-IsKeyed = (tt, tt)

later-IsKeyed : IsKeyed reading_key (devices_of py settings 200 answer ++ [])
unfolding iter_devices device_readings
later-IsKeyed = (tt, tt)

same_states :
    map state_of (devices_of py settings 100 answer)
    ≡ map state_of (devices_of py settings 200 answer)
unfolding iter_devices device_readings
same_states = refl

-- Before the poll the device was known as unhealthy.
abbrev store : StateStore
store = (record_status 5 "sdlan-1" "unhealthy" 0 StateStore.empty).0

abbrev failed : StateStore × Outbound (PollMessage ℕ)
failed =
    cycle py settings 100 kind_of 9 9 6 "9" "AttributeError" (inr (answer, none)) odd store empty

cycle_lost_example :
    (let next =
        cycle py settings 200 kind_of 19 19 16 "19" ""
          (inr (answer, none))
          refused
          failed.0
          failed.1 in
      (failed.1 ≡ empty)
      × ((gone : List (PollMessage ℕ)) × (heartbeat : EdgeHealth ℕ) × All
            (IsOfAbsent py settings (devices_of py settings 200 answer ++ []))
            gone
          × (next.1
              ≡ enqueue_many kind_of 19
                  (map (λ r. r.periodic) (devices_of py settings 200 answer)
                    ++ reports failed.0 []
                    ++ gone
                    ++ edge_health heartbeat ∷ [])
                  empty)))
cycle_lost_example =
    cycle_lost py settings kind_of 100 200 9 9 6 19 19 16 "9" "19" "AttributeError" "" answer answer
      none none odd refused [] store empty odd_raises refused_passed devices-IsKeyed later-IsKeyed
      same_states
