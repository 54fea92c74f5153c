-- ===== src/Syslog/Aggregator/Observe.antt =====
-- What a message does to the state of its device, and when a transition is sent.
use mathlib.Core.Path.{subst}
use itdashboard.Prelude.{
  ℕ, ◌+◌, ◌*◌, ◌≤◌, ◌≡◌, ◌≢◌, ◌⊎◌, String, Bool, true, ◌&&◌, inl, inr, Option, none, some, [], ◌∷◌,
  ◌++◌, arith, ltb, select, All, All-imp, All-append, Bool-cases, sym, select_passes,
}
use itdashboard.Status.{Status, unknown}
use itdashboard.Syslog.Device.{second, Config, Event, DeviceState, recent, cached, put_cache}
use itdashboard.Syslog.Device.Window.{time, fresh, IsOrderly, IsOrdered-snoc, evict_old-events}
use itdashboard.Syslog.Summary.{Payload, transition}
use itdashboard.Syslog.Aggregator.{take_in, observe}

-- A summary is sent exactly if the status was known and is another one now; it is a transition to
-- the new status, of this device.
abbrev pub Reports : Status → DeviceState → Option Payload → Type 0
Reports old state none = (state.last_status ≡ old) ⊎ (old ≡ unknown)
Reports old state (some p) =
    (p.kind ≡ transition)
    × (p.status ≡ state.last_status)
    × (p.device_id ≡ state.device_id)
    × (state.last_status ≢ old)
    × (old ≢ unknown)

module _ (cfg : Config) (signature : String → String → String → String) where
  -- Within a minute of the first message of its signature a message is a repetition: it is counted,
  -- and the window, the status and the queue are left alone. Any other message sends a summary
  -- exactly if the status was known and changes.
  abbrev pub repeated : ℕ → String → DeviceState → Bool
  repeated now sig state =
      ltb 0 (cached now sig state.dedup_cache).0 && recent now (cached now sig state.dedup_cache).1

  take_in-IsOrderly :
      (now : ℕ) (sig severity category message : String) (state : DeviceState)
      → IsOrderly state
      → state.last_seen ≤ now
      → (let s = (take_in cfg signature now sig severity category message state).0 in
          IsOrderly s × All (λ e. now ≤ e.ts + cfg.window_seconds * second) s.events)
  unfolding take_in
  take_in-IsOrderly now sig severity category message state h late =
      let event : Event = record {
        ts = now;
        severity = severity;
        category = category;
        message = message;
      } in
      let noted = record state {
        dedup_cache = put_cache sig (1, now) state.dedup_cache;
        events = state.events ++ event ∷ [];
        last_seen = now;
      } in
      let window = cfg.window_seconds * second in
      let earlier : All (λ e. time e ≤ now) state.events =
        All-imp (λ e. time e ≤ state.last_seen) (λ e. time e ≤ now) (λ e k. omega arith)
          state.events h.seen in
      let noted_orderly : IsOrderly noted = record {
        ordered = IsOrdered-snoc state.events event h.ordered earlier;
        seen = All-append (λ e. time e ≤ now) state.events (event ∷ []) earlier (omega arith, tt);
      } in
      let (events, kept) = evict_old-events cfg now noted noted_orderly in
      (
        record { ordered = kept.ordered; seen = kept.seen },
        subst (All (λ e. now ≤ e.ts + window)) (sym events) (
            All-imp (λ e. fresh window now e ≡ true) (λ e. now ≤ e.ts + window)
              (λ e k. ground arith) (select (fresh window now) noted.events)
              (select_passes (fresh window now) noted.events)),
      )

  pub observe-IsOrderly :
      (now : ℕ) (severity category message : String) (state : DeviceState)
      → IsOrderly state
      → state.last_seen ≤ now
      → IsOrderly (observe cfg signature now severity category message state).0
  unfolding observe
  observe-IsOrderly now severity category message state h late =
      let sig = signature category severity message in
      elim (Bool-cases (repeated now sig state)) [
        | inl again ↦ rw again (record {
          ordered = h.ordered;
          seen =
              All-imp (λ e. time e ≤ state.last_seen) (λ e. time e ≤ now) (λ e k. omega arith)
                state.events h.seen;
        })
        | inr new ↦ rw new (take_in-IsOrderly now sig severity category message state h late).0
      ]
