-- ===== src/Poller/Cycle.antt =====
-- One pass of the loop of run in poller/main.py, from what the platform answers: the client's two
-- queries, the devices in their answers, the messages of the mapper, and poll_once over them. A
-- poll can fail when its devices are already recorded; then run notes the error in the state store.
pub mod Lost
use itdashboard.Prelude.{
  ℕ, String, Bool, true, false, Option, none, some, List, [], ◌∷◌, ◌++◌, ◌⊎◌, inl, inr,
  if◌then◌else◌,
}
use itdashboard.Text.{left}
use itdashboard.Status.{status_text}
use itdashboard.Poller.Json.{Json, object, Fields, end, Python, is_true}
use itdashboard.Poller.Queue.{Outbound}
use itdashboard.Poller.StateStore.{StateStore, set_meta}
use itdashboard.Poller.Mapper.{Limits}
use itdashboard.Poller.Platform.{PlatformLimits}
use itdashboard.Poller.Client.{Result}
use itdashboard.Poller.Devices.{Located, iter_devices, iter_problems}
use itdashboard.Poller.Identity.{Identity}
use itdashboard.Poller.Report.{
  Kind, periodic, transition, Report, EdgeHealth, device_message, platform_message,
  edge_health_message,
}
use itdashboard.Poller.Poll.{Reading, Own, record_all, poll_once}

-- What a poll reads of the configuration.
pub record PollSettings (F : Type 0) : Type 0 where
  pub identity : Identity F
  pub limits : Limits F
  pub platform_limits : PlatformLimits F
  pub report_platform : Bool
  pub poll_interval_seconds : ℕ

-- What the queue holds of the poller: reports, what is said of a device that vanished, by its id
-- and when it was last seen, and heartbeats.
pub data PollMessage (F : Type 0) : Type 0 where
  report : Report F → PollMessage F
  vanished : String → ℕ → PollMessage F
  edge_health : EdgeHealth F → PollMessage F

module _ {F : Type 0} where
  abbrev reading_of : Report F → Report F → Reading (PollMessage F)
  reading_of p t = record {
    device_id = p.device_id;
    status = status_text p.health.status;
    score = p.health.score;
    periodic = report p;
    transition = report t;
  }

  -- A reading of the two messages that are made of one record, unless it has no id.
  abbrev pub add_reading :
      Option (Report F)
      → Option (Report F)
      → List (Reading (PollMessage F))
      → List (Reading (PollMessage F))
  add_reading (some p) (some t) rest = reading_of p t ∷ rest
  add_reading p t rest = rest

  -- The platform's reading, if its assessment did not raise.
  abbrev pub or_raise :
      Option (Report F) → Option (Report F) → Option (List (Reading (PollMessage F)))
  or_raise (some p) (some t) = some (reading_of p t ∷ [])
  or_raise p t = none

  module _ (py : Python F) (cfg : PollSettings F) (now : F) where
    unfoldable pub device_readings : List (Located F) → List (Reading (PollMessage F))
    unfolding device_message
    device_readings [] = []
    device_readings (l ∷ rest) =
        let message = device_message py cfg.identity cfg.limits l.device l.domain l.site in
        add_reading (message periodic now) (message transition now) (device_readings rest)

    -- The platform, of the answer to its status query: None stands for an exception. A failed
    -- query is passed over; an answer that is true and no dict has no `get`.
    unfoldable pub platform_readings : Result F → Option (List (Reading (PollMessage F)))
    unfolding platform_message iter_problems
    platform_readings (inl e) = some []
    platform_readings (inr (object response, log)) =
        let problems = iter_problems py (object response) in
        let message = platform_message py cfg.identity cfg.platform_limits response problems in
        if is_true py (object response)
        then (if cfg.report_platform
            then or_raise (message periodic now) (message transition now)
            else some [])
        else some []
    platform_readings (inr (v, log)) =
        if is_true py v then (if cfg.report_platform then none else some []) else some []

    -- The messages that a poll makes on its own. What is said of a device that vanished follows from
    -- its id, when it was last seen, and the time of the poll.
    abbrev pub own_messages : Own (PollMessage F)
    own_messages = record {
      vanished = vanished;
      edge_health = λ tracked unhealthy queue_depth.
          edge_health
            (edge_health_message cfg.poll_interval_seconds tracked unhealthy queue_depth now);
    }

    -- A poll that raises after the devices were recorded, and one that goes through; `error` is
    -- what the exception says, `at`, `queue_now` and `cutoff` are times as in poll_once.
    unfoldable pub finish :
        (PollMessage F → Option String)
        → ℕ
        → ℕ
        → ℕ
        → String
        → String
        → List (Reading (PollMessage F))
        → Option (List (Reading (PollMessage F)))
        → StateStore
        → Outbound (PollMessage F)
        → StateStore × Outbound (PollMessage F)
    unfolding record_all set_meta left poll_once
    finish kind_of at queue_now cutoff now_text error devices none s q =
        (set_meta "last_poll_error" (left 300 error) (record_all at devices s).0, q)
    finish kind_of at queue_now cutoff now_text error devices (some platform) s q =
        poll_once own_messages kind_of at queue_now cutoff now_text (devices ++ platform) s q

    -- One pass of `run`, of the results of `networks()` and `status()`.
    unfoldable pub cycle :
        (PollMessage F → Option String)
        → ℕ
        → ℕ
        → ℕ
        → String
        → String
        → Result F
        → Result F
        → StateStore
        → Outbound (PollMessage F)
        → StateStore × Outbound (PollMessage F)
    unfolding set_meta left iter_devices device_readings platform_readings finish
    cycle kind_of at queue_now cutoff now_text error (inl e) status s q =
        (set_meta "last_poll_error" (left 300 e) s, q)
    cycle kind_of at queue_now cutoff now_text error (inr (networks, log)) status s q =
        finish kind_of at queue_now cutoff now_text error
          (device_readings (iter_devices py networks)) (platform_readings status) s q
