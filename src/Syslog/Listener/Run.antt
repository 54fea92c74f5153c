-- ===== src/Syslog/Listener/Run.antt =====
-- Whatever datagrams arrive, between whatever passes: the invariant of the agent.
use itdashboard.Prelude.{ℕ, ◌≤◌, ◌≡◌, refl, String, Option, none, some, List, [], ◌∷◌}
use itdashboard.Syslog.Classify.{Rule}
use itdashboard.Syslog.Device.{Config, Meta}
use itdashboard.Syslog.Aggregator.{Aggregator, ingest, periodic_pass}
use itdashboard.Syslog.Aggregator.Timely.{
  AllTimely, later-AllTimely, ingest-AllTimely, periodic_pass-AllTimely,
}
use itdashboard.Syslog.Listener.{
  Groups, Parsed, parse_error, event, DeviceMap, resolve_device, Action, datagram, periodic,
  parse_message, receive, step, steps,
}
use itdashboard.Syslog.Listener.Known.{
  In, IsKnown, resolve_device-In, ingest-IsKnown, sweep-IsKnown,
}

-- The clock does not go back, from a time on.
abbrev pub time_of : Action → ℕ
time_of (datagram now queue_now received_at src_ip raw) = now
time_of (periodic now queue_now) = now

abbrev pub IsClock : ℕ → List Action → Type 0
IsClock t [] = Unit
IsClock t (s ∷ rest) = (t ≤ time_of s) × IsClock (time_of s) rest

-- The time of the last step.
abbrev pub ends : ℕ → List Action → ℕ
ends t [] = t
ends t (s ∷ rest) = ends (time_of s) rest

module _ (rfc5424 rfc3164 rfc3339 : String → Option Groups) (int : String → Option ℕ) (cfg : Config)
    (device_map : DeviceMap) (signature : String → String → String → String)
    (rules : List Rule) where
  receive-IsKnown :
      (t now queue_now : ℕ) (received_at src_ip raw : String) (a : Aggregator)
      → t ≤ now
      → AllTimely t a.devices × IsKnown device_map a
      → (let a' =
            receive rfc5424 rfc3164 rfc3339 int cfg device_map signature rules now queue_now
              received_at src_ip raw a in
          AllTimely now a'.devices × IsKnown device_map a')
  unfolding receive
  receive-IsKnown t now queue_now received_at src_ip raw a le (timely, known) =
      parsed (parse_message rfc5424 rfc3164 rfc3339 int received_at raw src_ip)
    where
      late : AllTimely now a.devices
      late = later-AllTimely t now a.devices le timely

      resolved :
          (severity message : String) (o : Option Meta)
          → ((m : Meta) → o ≡ some m → In device_map m.device_id)
          → (let a' : Aggregator = elim o [
            | none ↦ a
            | some m ↦ ingest cfg signature rules now queue_now severity message m a
          ] in
              AllTimely now a'.devices × IsKnown device_map a')
      resolved severity message none f = (late, known)
      resolved severity message (some m) f = (
        ingest-AllTimely cfg signature rules t now queue_now severity message m a le timely,
        ingest-IsKnown cfg device_map signature rules now queue_now severity message m a (f m refl)
            known,
      )

      parsed :
          (p : Option Parsed)
          → (let a' : Aggregator = elim p [
            | none ↦ a
            | some (parse_error r s u) ↦ a
            | some (event e) ↦ elim (resolve_device device_map src_ip e.host) [
              | none ↦ a
              | some m ↦ ingest cfg signature rules now queue_now e.severity e.message m a
            ]
          ] in
              AllTimely now a'.devices × IsKnown device_map a')
      parsed none = (late, known)
      parsed (some (parse_error r s u)) = (late, known)
      parsed (some (event e)) =
          resolved e.severity e.message (resolve_device device_map src_ip e.host)
            (λ m k. resolve_device-In device_map src_ip e.host m k)

  step-IsKnown :
      (t : ℕ) (s : Action) (a : Aggregator)
      → t ≤ time_of s
      → AllTimely t a.devices × IsKnown device_map a
      → (let a' = step rfc5424 rfc3164 rfc3339 int cfg device_map signature rules s a in
          AllTimely (time_of s) a'.devices × IsKnown device_map a')
  unfolding step
  step-IsKnown t (datagram now queue_now received_at src_ip raw) a le h =
      receive-IsKnown t now queue_now received_at src_ip raw a le h
  step-IsKnown t (periodic now queue_now) a le (timely, known) =
      let kept =
        sweep-IsKnown cfg device_map signature now queue_now a.devices a.outbound known.devices
          known.queue in
      (
        periodic_pass-AllTimely cfg now queue_now a (later-AllTimely t now a.devices le timely),
        unfold periodic_pass in record { devices = kept.0; queue = kept.1 },
      )

  -- If the times that the steps read do not go back, then whatever datagrams arrive from whatever
  -- addresses, in whatever order with the periodic passes: every device that is kept stands under
  -- its own id, and it and every device that a queued message is about is one of the device map;
  -- each window stays in the order of its times, with none after the device was last seen, and no
  -- device was seen in the future.
  pub steps-IsKnown :
      (t : ℕ) (l : List Action) (a : Aggregator)
      → IsClock t l
      → AllTimely t a.devices
      → IsKnown device_map a
      → (let a' = steps rfc5424 rfc3164 rfc3339 int cfg device_map signature rules l a in
          AllTimely (ends t l) a'.devices × IsKnown device_map a')
  unfolding steps
  steps-IsKnown t [] a c timely known = (timely, known)
  steps-IsKnown t (s ∷ rest) a c timely known =
      let (timely', known') = step-IsKnown t s a c.0 (timely, known) in
      steps-IsKnown (time_of s) rest _ c.1 timely' known'
