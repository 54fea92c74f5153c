-- ===== src/Syslog/Aggregator.antt =====
-- `ingest` and `run_periodic` of syslog/aggregator.py. `re.sub` in `_signature` is an argument, as
-- the whole of `signature`. `ingest` and the body of the loop of `run_periodic` hold the lock
-- throughout, so each is one function of the state.
pub mod Observe
pub mod Timely
use itdashboard.Prelude.{
  ℕ, ◌+◌, String, Bool, true, false, not, ◌&&◌, Option, none, some, List, [], ◌∷◌, ◌++◌, str_eq,
  ltb, if◌then◌else◌,
}
use itdashboard.Status.{Status, unknown, status_eq}
use itdashboard.Syslog.Classify.{Rule, classify, is_noise}
use itdashboard.Syslog.Device.{
  Config, Event, DeviceState, Meta, new_device, recent, cached, put_cache, evict_old,
}
use itdashboard.Syslog.Health.{compute_health}
use itdashboard.Syslog.Summary.{Payload, periodic, transition, kind_text, build_summary}
use itdashboard.Syslog.Queue.{Outbound, enqueue}

pub record Aggregator : Type 0 where
  pub devices : List (String × DeviceState)
  pub outbound : Outbound Payload

unfoldable pub find_device : String → List (String × DeviceState) → Option DeviceState
find_device d [] = none
find_device d ((k, s) ∷ rest) = if str_eq k d then some s else find_device d rest

unfoldable pub put_device :
    String → DeviceState → List (String × DeviceState) → List (String × DeviceState)
put_device d state [] = (d, state) ∷ []
put_device d state ((k, s) ∷ rest) =
    let others = put_device d state rest in
    if str_eq k d then (k, state) ∷ rest else (k, s) ∷ others

-- What `ingest` does to the state of its device, and the summary that it sends, if any.
module _ (cfg : Config) (signature : String → String → String → String) where
  -- The message is no repetition: it is an event of the window, and may change the status.
  unfoldable pub take_in :
      ℕ → String → String → String → String → DeviceState → DeviceState × Option Payload
  unfolding evict_old compute_health build_summary put_cache
  take_in now sig severity category message state =
      let event : Event = record {
        ts = now;
        severity = severity;
        category = category;
        message = message;
      } in
      let noted = record state {
        dedup_cache = put_cache sig (1, now) state.dedup_cache;
        events = state.events ++ event ∷ [];
        last_seen = now;
      } in
      let kept = evict_old cfg now noted in
      let status = (compute_health cfg now kept).0 in
      let changed =
        not (status_eq status kept.last_status) && not (status_eq kept.last_status unknown) in
      (
        record kept { last_status = status },
        if changed then some (build_summary cfg now transition kept) else none,
      )

  -- Within a minute of the first such message it is only counted.
  unfoldable pub observe : ℕ → String → String → String → DeviceState → DeviceState × Option Payload
  unfolding cached put_cache take_in
  observe now severity category message state =
      let sig = signature category severity message in
      let entry = cached now sig state.dedup_cache in
      if ltb 0 entry.0 && recent now entry.1
      then (
        record state {
          dedup_cache = put_cache sig (entry.0 + 1, entry.1) state.dedup_cache;
          last_seen = now;
        },
        none,
      )
      else take_in now sig severity category message state

  abbrev pub send_if : ℕ → Option Payload → Outbound Payload → Outbound Payload
  send_if now none q = q
  send_if now (some s) q = enqueue kind_text now s q

  -- `ingest`: `queue_now` is what the queue's clock shows when the summary is enqueued.
  unfoldable pub ingest : List Rule → ℕ → ℕ → String → String → Meta → Aggregator → Aggregator
  unfolding classify is_noise find_device put_device new_device observe
  ingest rules now queue_now severity message m a =
      let category = classify rules message in
      let state : DeviceState = elim (find_device m.device_id a.devices) [
        | none ↦ new_device m
        | some s ↦ s
      ] in
      let (state', summary) = observe now severity category message state in
      if is_noise severity category then a else record {
        devices = put_device m.device_id state' a.devices;
        outbound = send_if queue_now summary a.outbound;
      }

-- One pass of `run_periodic`: every device is swept and summarised. `queue_now` is what the queue's
-- clock shows when the summary of a device is enqueued.
unfoldable pub sweep :
    Config
    → ℕ
    → (String → ℕ)
    → List (String × DeviceState)
    → Outbound Payload
    → List (String × DeviceState) × Outbound Payload
unfolding evict_old build_summary
sweep cfg now queue_now [] q = ([], q)
sweep cfg now queue_now ((d, s) ∷ rest) q =
    let kept = evict_old cfg now s in
    let sent = enqueue kind_text (queue_now d) (build_summary cfg now periodic kept) q in
    let (rest', q') = sweep cfg now queue_now rest sent in ((d, kept) ∷ rest', q')

unfoldable pub periodic_pass : Config → ℕ → (String → ℕ) → Aggregator → Aggregator
unfolding sweep
periodic_pass cfg now queue_now a =
    let (devices', outbound') = sweep cfg now queue_now a.devices a.outbound in
    record { devices = devices'; outbound = outbound' }
