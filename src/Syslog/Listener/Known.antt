-- ===== src/Syslog/Listener/Known.antt =====
-- What the agent keeps and queues, after any run, is about devices of the configuration.
use itdashboard.Prelude.{
  ℕ, ◌≡◌, refl, arith, sym, ◌∙◌, String, true, inl, inr, Option, none, some, List, [], ◌∷◌, str_eq,
  eq_iff, any, All, All-append, Bool-cases, Option-cases,
}
use text.Mathlib.TextPositions.{eq_refl}
use mathlib.Core.Path.{subst}
use itdashboard.Text.{concat}
use itdashboard.Table.Trim.{All-delete_oldest}
use itdashboard.Syslog.Classify.{Rule, classify, is_noise}
use itdashboard.Syslog.Device.{Config, DeviceState, Meta, new_device, evict_old}
use itdashboard.Syslog.Summary.{Payload, kind_text, build_summary}
use itdashboard.Syslog.Queue.{
  Row, Outbound, row_id, age, other, periodic as periodic_row, max_periodic_rows, max_other_rows,
  enqueue, trim, trim_rows,
}
use itdashboard.Syslog.Aggregator.{
  Aggregator, find_device, put_device, take_in, observe, send_if, ingest, sweep,
}
use itdashboard.Syslog.Listener.{DeviceMap, device_at, resolve_device}

-- A device of the map has this id.
abbrev pub In : DeviceMap → String → Type 0
In device_map id = any (λ (d : String × Meta). str_eq d.1.device_id id) device_map ≡ true

-- A device is kept under its own id, which is one of the map.
abbrev pub Configured : DeviceMap → String × DeviceState → Type 0
Configured device_map d = (d.1.device_id ≡ d.0) × In device_map d.0

abbrev pub About : DeviceMap → Row Payload → Type 0
About device_map r = In device_map r.payload.device_id

-- A summary, if there is one, is of this device.
abbrev pub Names : String → Option Payload → Type 0
Names id none = Unit
Names id (some p) = p.device_id ≡ id

pub record IsKnown (device_map : DeviceMap) (a : Aggregator) : Type 0 where
  pub devices : All (Configured device_map) a.devices
  pub queue : All (About device_map) a.outbound.rows

device_at-In :
    (device_map : DeviceMap) (key : String) (m : Meta)
    → device_at key device_map ≡ some m
    → In device_map m.device_id
unfolding device_at
device_at-In [] key m e = absurd (cc)
device_at-In ((k, m') ∷ rest) key m e = elim (Bool-cases (str_eq k key)) [
  | inl same ↦ let found : m' ≡ m = ground arith in rw (found, eq_refl m.device_id) refl
  | inr other ↦
      let later = device_at-In rest key m (rw other at e) in
      elim (Bool-cases (str_eq m'.device_id m.device_id)) [
        | inl this ↦ rw this refl
        | inr that ↦ rw that later
      ]
]

pub resolve_device-In :
    (device_map : DeviceMap) (src_ip hostname : String) (m : Meta)
    → resolve_device device_map src_ip hostname ≡ some m
    → In device_map m.device_id
unfolding resolve_device
resolve_device-In device_map src_ip hostname m e = go (device_at exact device_map) refl e
  where
    exact : String
    exact = concat (src_ip ∷ "|" ∷ hostname ∷ [])

    wildcard : String
    wildcard = concat ("*|" ∷ hostname ∷ [])

    go :
        (o : Option Meta)
        → device_at exact device_map ≡ o
        → elim o [ some m' ↦ some m' | none ↦ device_at wildcard device_map ] ≡ some m
        → In device_map m.device_id
    go none absent k = device_at-In device_map wildcard m k
    go (some m') here k = device_at-In device_map exact m (here ∙ k)

module _ (device_map : DeviceMap) where
  find_device-id :
      (d : String) (devices : List (String × DeviceState)) (s : DeviceState)
      → All (Configured device_map) devices
      → find_device d devices ≡ some s
      → s.device_id ≡ d
  unfolding find_device
  find_device-id d [] s h e = absurd (cc)
  find_device-id d ((k, s') ∷ rest) s h e = elim (Bool-cases (str_eq k d)) [
    | inl same ↦
        let found : s' ≡ s = ground arith in
        let key : k ≡ d = (eq_iff k d).0 same in rw (← found, h.0.0) key
    | inr other ↦ find_device-id d rest s h.1 (rw other at e)
  ]

  put_device-Configured :
      (d : String) (s : DeviceState) (devices : List (String × DeviceState))
      → Configured device_map (d, s)
      → All (Configured device_map) devices
      → All (Configured device_map) (put_device d s devices)
  unfolding put_device
  put_device-Configured d s [] t h = (t, tt)
  put_device-Configured d s ((k, s') ∷ rest) t h = elim (Bool-cases (str_eq k d)) [
    | inl same ↦ rw same ((t.0 ∙ sym ((eq_iff k d).0 same), h.0.1), h.1)
    | inr other ↦ rw other (h.0, put_device-Configured d s rest t h.1)
  ]

  enqueue-About :
      (now : ℕ) (p : Payload) (q : Outbound Payload)
      → In device_map p.device_id
      → All (About device_map) q.rows
      → All (About device_map) (enqueue kind_text now p q).rows
  unfolding enqueue trim trim_rows
  enqueue-About now p q known h =
      All-delete_oldest row_id age other max_other_rows (About device_map) _ (
        All-delete_oldest row_id age periodic_row max_periodic_rows (About device_map) _
          (All-append (About device_map) q.rows _ h (known, tt)))

module _ (cfg : Config) (device_map : DeviceMap)
    (signature : String → String → String → String) where
  -- A message neither renames a device nor sends a summary of another one.
  observe-id :
      (now : ℕ) (severity category message : String) (state : DeviceState)
      → (let r = observe cfg signature now severity category message state in
          (r.0.device_id ≡ state.device_id) × Names state.device_id r.1)
  unfolding observe take_in evict_old build_summary
  observe-id now severity category message state = ground arith

  send_if-About :
      (id : String) (queue_now : ℕ) (o : Option Payload) (q : Outbound Payload)
      → Names id o
      → In device_map id
      → All (About device_map) q.rows
      → All (About device_map) (send_if cfg signature queue_now o q).rows
  send_if-About id queue_now none q named known h = h
  send_if-About id queue_now (some p) q named known h =
      enqueue-About device_map queue_now p q (rw named known) h

  found_or_new-id :
      (m : Meta) (devices : List (String × DeviceState))
      → All (Configured device_map) devices
      → (let state : DeviceState = elim (find_device m.device_id devices) [
        | none ↦ new_device m
        | some s ↦ s
      ] in
          state.device_id ≡ m.device_id)
  found_or_new-id m devices h = elim (Option-cases (find_device m.device_id devices)) [
    | inl e ↦ rw e (unfold new_device in refl)
    | inr (s, e) ↦ rw e (find_device-id device_map m.device_id devices s h e)
  ]

  pub ingest-IsKnown :
      (rules : List Rule) (now queue_now : ℕ) (severity message : String) (m : Meta)
      (a : Aggregator)
      → In device_map m.device_id
      → IsKnown device_map a
      → IsKnown device_map (ingest cfg signature rules now queue_now severity message m a)
  unfolding ingest
  ingest-IsKnown rules now queue_now severity message m a known h =
      let category = classify rules message in
      let state : DeviceState = elim (find_device m.device_id a.devices) [
        | none ↦ new_device m
        | some s ↦ s
      ] in
      let named = found_or_new-id m a.devices h.devices in
      let (same, of_it) = observe-id now severity category message state in
      let r = observe cfg signature now severity category message state in
      elim (Bool-cases (is_noise severity category)) [
        | inl noise ↦ rw noise h
        | inr kept ↦ rw kept (record {
          devices =
              put_device-Configured device_map m.device_id _ a.devices (same ∙ named, known)
                h.devices;
          queue =
              send_if-About m.device_id queue_now r.1 a.outbound
                (subst (λ i. Names i r.1) named of_it) known h.queue;
        })
      ]

  pub sweep-IsKnown :
      (now : ℕ) (queue_now : String → ℕ) (devices : List (String × DeviceState))
      (q : Outbound Payload)
      → All (Configured device_map) devices
      → All (About device_map) q.rows
      → (let r = sweep cfg now queue_now devices q in
          All (Configured device_map) r.0 × All (About device_map) r.1.rows)
  unfolding sweep evict_old build_summary
  sweep-IsKnown now queue_now [] q h k = (h, k)
  sweep-IsKnown now queue_now ((d, s) ∷ rest) q h k =
      let known : In device_map s.device_id = rw h.0.0 (h.0.1) in
      let (h', k') =
        sweep-IsKnown now queue_now rest _ h.1
          (enqueue-About device_map (queue_now d) _ q known k) in
      ((h.0, h'), k')
