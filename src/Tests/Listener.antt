-- ===== src/Tests/Listener.antt =====
-- Runs of the listener, and its theorem at a concrete run.
use itdashboard.Prelude.{
  ℕ, ◌≡◌, refl, String, Option, none, some, List, [], ◌∷◌, map, arith, str_eq, if◌then◌else◌,
}
use itdashboard.Syslog.Device.{Config, Meta}
use itdashboard.Syslog.Queue.{empty, enqueue}
use itdashboard.Syslog.Aggregator.{Aggregator}
use itdashboard.Syslog.Aggregator.Timely.{AllTimely}
use itdashboard.Syslog.Listener.{
  Groups, parse_error, DeviceMap, resolve_device, Action, datagram, periodic, parse_message, steps,
}
use itdashboard.Syslog.Listener.Known.{IsKnown}
use itdashboard.Syslog.Listener.Run.{ends, steps-IsKnown}

-- Expressions that know one line each.
abbrev old_line : String
old_line = "<131>May  8 10:00:00 switch-floor1 LINK: down"

abbrev relayed_line : String
relayed_line = "<131>2026-05-08T10:00:00Z switch-floor1 LINK: down"

groups : String → Groups
groups ts = record { pri = "131"; ts = ts; host = "switch-floor1"; tag = "LINK"; msg = "down" }

abbrev none_of : String → Option Groups
none_of raw = none

abbrev old_form : String → Option Groups
old_form raw = if str_eq raw old_line then some (groups "May  8 10:00:00") else none

abbrev relayed_form : String → Option Groups
relayed_form raw = if str_eq raw relayed_line then some (groups "2026-05-08T10:00:00Z") else none

abbrev int : String → Option ℕ
int s = if str_eq s "131" then some 131 else none

unreadable :
    parse_message none_of old_form relayed_form int "t" "junk" "10.0.0.9"
    ≡ some (parse_error "junk" "10.0.0.9" "t")
unfolding parse_message
unreadable = refl

abbrev switch : String → Meta
switch id = record {
  device_id = id;
  device_name = none;
  device_class = some "switch";
  vendor = none;
  site = none;
}

abbrev device_map : DeviceMap
device_map =
    ("192.168.1.10|switch-floor1", switch "dev-001") ∷ ("*|switch-floor1", switch "dev-101") ∷ []

exact_address : resolve_device device_map "192.168.1.10" "switch-floor1" ≡ some (switch "dev-001")
unfolding resolve_device
exact_address = refl

any_address : resolve_device device_map "10.0.0.9" "switch-floor1" ≡ some (switch "dev-101")
unfolding resolve_device
any_address = refl

no_host : resolve_device device_map "192.168.1.10" "ap-lobby" ≡ none
unfolding resolve_device
no_host = refl

abbrev cfg : Config
cfg = record { window_seconds = 300; stale_threshold_seconds = 180 }

abbrev signature : String → String → String → String
signature category severity message = message

abbrev start : Aggregator
start = record { devices = []; outbound = empty }

abbrev script : List Action
script =
    datagram 10 10 "t" "192.168.1.10" old_line
    ∷ datagram 11 11 "t" "10.0.0.9" relayed_line
    ∷ datagram 12 12 "t" "10.0.0.9" "junk"
    ∷ periodic 60 (λ d. 60)
    ∷ []

-- Two devices report; the line that cannot be read is dropped.
two_devices :
    map
      (λ d. d.0)
      (steps none_of old_form relayed_form int cfg device_map signature [] script start).devices
    ≡ "dev-001" ∷ "dev-101" ∷ []
unfolding steps groups
two_devices = refl

two_summaries :
    map
      (λ r. r.payload.device_id)
      (steps none_of old_form relayed_form int cfg device_map signature [] script
        start).outbound.rows
    ≡ "dev-001" ∷ "dev-101" ∷ []
unfolding steps groups enqueue
two_summaries = refl

steps-IsKnown_example :
    (let a = steps none_of old_form relayed_form int cfg device_map signature [] script start in
      AllTimely (ends 0 script) a.devices × IsKnown device_map a)
steps-IsKnown_example =
    steps-IsKnown none_of old_form relayed_form int cfg device_map signature [] 0 script start
      (omega arith, (omega arith, (omega arith, (omega arith, tt)))) tt
      (record { devices = tt; queue = tt })
