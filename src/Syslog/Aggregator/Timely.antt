-- ===== src/Syslog/Aggregator/Timely.antt =====
-- The invariant of the aggregator, over all its devices.
use mathlib.Core.Path.{subst}
use itdashboard.Prelude.{
  ℕ, ◌≤◌, ◌≡◌, String, inl, inr, none, some, List, [], ◌∷◌, arith, str_eq, All, All-imp, Bool-cases,
  Option-cases,
}
use itdashboard.Syslog.Classify.{Rule, classify, is_noise}
use itdashboard.Syslog.Device.{Config, DeviceState, Meta, new_device, evict_old}
use itdashboard.Syslog.Device.Window.{IsOrderly, evict_old-events}
use itdashboard.Syslog.Summary.{Payload}
use itdashboard.Syslog.Queue.{Outbound}
use itdashboard.Syslog.Aggregator.{
  Aggregator, find_device, put_device, take_in, observe, ingest, sweep, periodic_pass,
}
use itdashboard.Syslog.Aggregator.Observe.{observe-IsOrderly}

-- A device's window is orderly and ends at `now` at the latest.
pub record IsTimely (now : ℕ) (state : DeviceState) : Type 0 where
  pub orderly : IsOrderly state
  pub late : state.last_seen ≤ now

abbrev pub AllTimely : ℕ → List (String × DeviceState) → Type 0
AllTimely now devices = All (λ (d : String × DeviceState). IsTimely now d.1) devices

find_device-IsTimely :
    (now : ℕ) (d : String) (devices : List (String × DeviceState)) (s : DeviceState)
    → AllTimely now devices
    → find_device d devices ≡ some s
    → IsTimely now s
unfolding find_device
find_device-IsTimely now d [] s h e = absurd (cc)
find_device-IsTimely now d ((k, s') ∷ rest) s h e = elim (Bool-cases (str_eq k d)) [
  | inl same ↦ let found : s' ≡ s = ground arith in subst (IsTimely now) found h.0
  | inr other ↦ find_device-IsTimely now d rest s h.1 (rw other at e)
]

put_device-AllTimely :
    (now : ℕ) (d : String) (s : DeviceState) (devices : List (String × DeviceState))
    → IsTimely now s
    → AllTimely now devices
    → AllTimely now (put_device d s devices)
unfolding put_device
put_device-AllTimely now d s [] t h = (t, tt)
put_device-AllTimely now d s ((k, s') ∷ rest) t h = elim (Bool-cases (str_eq k d)) [
  | inl same ↦ rw same (t, h.1)
  | inr other ↦ rw other (h.0, put_device-AllTimely now d s rest t h.1)
]

new_device-IsTimely : (now : ℕ) (m : Meta) → IsTimely now (new_device m)
unfolding new_device
new_device-IsTimely now m = record {
  orderly = record { ordered = tt; seen = tt };
  late = omega arith;
}

later-IsTimely : {t now : ℕ} (s : DeviceState) → t ≤ now → IsTimely t s → IsTimely now s
later-IsTimely s h k = record { orderly = k.orderly; late = omega (arith, k.late) }

pub later-AllTimely :
    (t now : ℕ) (devices : List (String × DeviceState))
    → t ≤ now
    → AllTimely t devices
    → AllTimely now devices
later-AllTimely t now devices le h =
    All-imp (λ (d : String × DeviceState). IsTimely t d.1) (λ d. IsTimely now d.1)
      (λ d k. later-IsTimely d.1 le k) devices h

module _ (cfg : Config) (signature : String → String → String → String) (rules : List Rule) where
  observe-last_seen :
      (now : ℕ) (severity category message : String) (state : DeviceState)
      → (observe cfg signature now severity category message state).0.last_seen ≡ now
  unfolding observe take_in evict_old
  observe-last_seen now severity category message state = ground arith

  known_or_new-IsTimely :
      (now : ℕ) (m : Meta) (devices : List (String × DeviceState))
      → AllTimely now devices
      → IsTimely now (elim (find_device m.device_id devices) [ none ↦ new_device m | some s ↦ s ])
  known_or_new-IsTimely now m devices h = elim (Option-cases (find_device m.device_id devices)) [
    | inl e ↦ rw e (new_device-IsTimely now m)
    | inr (s, e) ↦ rw e (find_device-IsTimely now m.device_id devices s h e)
  ]

  -- On a clock that has not gone back, a message keeps every device's window in the order of its
  -- times, with none after the device was last seen, and no device was seen in the future.
  pub ingest-AllTimely :
      (t now queue_now : ℕ) (severity message : String) (m : Meta) (a : Aggregator)
      → t ≤ now
      → AllTimely t a.devices
      → AllTimely now (ingest cfg signature rules now queue_now severity message m a).devices
  unfolding ingest
  ingest-AllTimely t now queue_now severity message m a le h =
      let category = classify rules message in
      let h' = later-AllTimely t now a.devices le h in
      let state : DeviceState = elim (find_device m.device_id a.devices) [
        | none ↦ new_device m
        | some s ↦ s
      ] in
      let timely = known_or_new-IsTimely now m a.devices h' in
      elim (Bool-cases (is_noise severity category)) [
        | inl noise ↦ rw noise h'
        | inr kept ↦ rw kept (
            put_device-AllTimely now m.device_id _ a.devices
              (record {
                orderly =
                    observe-IsOrderly cfg signature now severity category message state
                      timely.orderly timely.late;
                late = omega (arith, observe-last_seen now severity category message state);
              })
              h')
      ]

-- The periodic sweep keeps it too.
pub periodic_pass-AllTimely :
    (cfg : Config) (now : ℕ) (queue_now : String → ℕ) (a : Aggregator)
    → AllTimely now a.devices
    → AllTimely now (periodic_pass cfg now queue_now a).devices
unfolding periodic_pass
periodic_pass-AllTimely cfg now queue_now a h = go a.devices a.outbound h
  where
    go :
        (devices : List (String × DeviceState)) (q : Outbound Payload)
        → AllTimely now devices
        → AllTimely now (sweep cfg now queue_now devices q).0
    go [] q h = tt
    go ((d, s) ∷ rest) q h = (
      record {
        orderly = (evict_old-events cfg now s h.0.orderly).1;
        late = unfold evict_old in h.0.late;
      },
      go rest _ h.1,
    )
