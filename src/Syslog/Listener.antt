-- ===== src/Syslog/Listener.antt =====
-- `parse_message` of syslog/syslog_listener.py, `resolve_device` of syslog/config.py, and what
-- `listener_loop` of syslog/main.py does with a datagram. The three regular expressions are arguments
-- that give the groups of a match, and so is Python's int, which refuses very long numbers. Every
-- device of the map has a "device_id". What `ingest` and a pass of `run_periodic` do is done under one
-- lock, so what the threads of the agent do to the aggregator is a list of steps.
pub mod Known
pub mod Run
use itdashboard.Prelude.{ℕ, String, Option, none, some, List, [], ◌∷◌, str_eq, if◌then◌else◌}
use itdashboard.Text.{concat}
use itdashboard.Syslog.Classify.{Rule, parse_pri}
use itdashboard.Syslog.Device.{Config, Meta}
use itdashboard.Syslog.Aggregator.{Aggregator, ingest, periodic_pass}

-- The groups of a match that are used; `tag` is the group `app` of RFC5424_RE.
pub record Groups : Type 0 where
  pub pri : String
  pub ts : String
  pub host : String
  pub tag : String
  pub msg : String

pub record LogEvent : Type 0 where
  pub rfc : String
  pub src_ip : String
  pub received_at : String
  pub timestamp : String
  pub host : String
  pub facility : String
  pub severity : String
  pub tag : String
  pub message : String

-- `parse_error`: raw, src_ip and received_at.
pub data Parsed : Type 0 where
  parse_error : String → String → String → Parsed
  event : LogEvent → Parsed

-- "ip|host" or "*|host", and the device
abbrev pub DeviceMap : Type 0
DeviceMap = List (String × Meta)

unfoldable pub device_at : String → DeviceMap → Option Meta
device_at key [] = none
device_at key ((k, m) ∷ rest) = if str_eq k key then some m else device_at key rest

unfoldable pub resolve_device : DeviceMap → String → String → Option Meta
unfolding device_at concat
resolve_device device_map src_ip hostname =
    elim (device_at (concat (src_ip ∷ "|" ∷ hostname ∷ [])) device_map) [
      | some m ↦ some m
      | none ↦ device_at (concat ("*|" ∷ hostname ∷ [])) device_map
    ]

-- What the threads do: a datagram from an address, or a pass. Times are as in `ingest`.
pub data Action : Type 0 where
  datagram : (now queue_now : ℕ) (received_at src_ip raw : String) → Action
  periodic : (now : ℕ) (queue_now : String → ℕ) → Action

module _ (rfc5424 rfc3164 rfc3339 : String → Option Groups) (int : String → Option ℕ) where
  -- The first expression that matches, and its name.
  unfoldable pub first_match : String → Option (String × Groups)
  first_match raw = elim (rfc5424 raw) [
    | some m ↦ some ("5424", m)
    | none ↦ elim (rfc3164 raw) [
      | some m ↦ some ("3164", m)
      | none ↦ elim (rfc3339 raw) [ some m ↦ some ("3164-rfc3339", m) | none ↦ none ]
    ]
  ]

  -- None where `int` raises.
  unfoldable pub parse_message : String → String → String → Option Parsed
  unfolding first_match parse_pri
  parse_message received_at raw src_ip = elim (first_match raw) [
    | none ↦ some (parse_error raw src_ip received_at)
    | some (rfc, m) ↦ elim (int m.pri) [
      | none ↦ none
      | some pri ↦ some (
          event (record {
            rfc = rfc;
            src_ip = src_ip;
            received_at = received_at;
            timestamp = m.ts;
            host = m.host;
            facility = (parse_pri pri).0;
            severity = (parse_pri pri).1;
            tag = m.tag;
            message = m.msg;
          }))
    ]
  ]

  module _ (cfg : Config) (device_map : DeviceMap) (signature : String → String → String → String)
      (rules : List Rule) where
    -- One datagram: what raises is noted, and the loop goes on.
    unfoldable pub receive : ℕ → ℕ → String → String → String → Aggregator → Aggregator
    unfolding parse_message resolve_device ingest
    receive now queue_now received_at src_ip raw a = elim (parse_message received_at raw src_ip) [
      | none ↦ a
      | some (parse_error r s t) ↦ a
      | some (event e) ↦ elim (resolve_device device_map src_ip e.host) [
        | none ↦ a
        | some m ↦ ingest cfg signature rules now queue_now e.severity e.message m a
      ]
    ]

    unfoldable pub step : Action → Aggregator → Aggregator
    unfolding receive periodic_pass
    step (datagram now queue_now received_at src_ip raw) a =
        receive now queue_now received_at src_ip raw a
    step (periodic now queue_now) a = periodic_pass cfg now queue_now a

    unfoldable pub steps : List Action → Aggregator → Aggregator
    unfolding step
    steps [] a = a
    steps (s ∷ rest) a = steps rest (step s a)
