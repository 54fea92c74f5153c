-- ===== src/Poller/Cycle/Lost.antt =====
-- What a poll that fails at the platform does to the transitions of its devices.
use itdashboard.Prelude.{
  ℕ, ◌≡◌, refl, sym, ap, ◌∙◌, String, Option, none, some, List, [], ◌∷◌, ◌++◌, inr, map, arith, ◌≢◌,
  All, All-imp,
}
use mathlib.Core.List.{append_assoc}
use mathlib.Core.Path.{subst}
use text.Mathlib.TextPositions.{eq_refl}
use itdashboard.Text.{left}
use itdashboard.Table.Delete.{IsKeyed}
use itdashboard.Poller.Json.{Json, Python}
use itdashboard.Poller.Queue.{Outbound, enqueue_many, depth}
use itdashboard.Poller.StateStore.{StateStore, set_meta, previous_status}
use itdashboard.Poller.Report.{EdgeHealth, edge_health_message}
use itdashboard.Poller.Client.{Block, Result}
use itdashboard.Poller.Devices.{iter_devices}
use itdashboard.Poller.Poll.{Reading, record_all, report as sent_of}
use itdashboard.Poller.Poll.Transitions.{
  reading_key, reports, Remembers, SaysVanished, record_all-Remembers, poll_once_lem,
}
use itdashboard.Poller.Cycle.{
  PollSettings, PollMessage, device_readings, platform_readings, finish, cycle, own_messages,
  report, vanished, edge_health,
}

module _ {ℓ} {P : Type ℓ} where
  reports_remembered :
      (s : StateStore) (readings : List (Reading P))
      → Remembers s readings
      → reports s readings ≡ map (λ r. r.periodic) readings
  reports_remembered s [] h = refl
  reports_remembered s (r ∷ rest) h = rw (h.0, eq_refl r.status, reports_remembered s rest h.1) refl

  reports-append :
      (s : StateStore) (xs ys : List (Reading P))
      → reports s (xs ++ ys) ≡ reports s xs ++ reports s ys
  reports-append s [] ys = refl
  reports-append s (x ∷ xs) ys =
      rw (reports-append s xs ys) (
        sym
          (append_assoc (sent_of (previous_status x.device_id s) x) (reports s xs) (reports s ys)))

  -- The device and its status.
  abbrev pub state_of : Reading P → String × String
  state_of r = (r.device_id, r.status)

  Remembers-state_of :
      (s : StateStore) (xs ys : List (Reading P))
      → map state_of xs ≡ map state_of ys
      → Remembers s xs
      → Remembers s ys
  Remembers-state_of s xs [] same h = tt
  Remembers-state_of s [] (y ∷ ys) same h = ground (arith, same)
  Remembers-state_of s (x ∷ xs) (y ∷ ys) same h =
      let id : x.device_id ≡ y.device_id = cc same in
      let status : x.status ≡ y.status = cc same in
      let rest : map state_of xs ≡ map state_of ys = cc same in
      (cc (id, status, h.0), Remembers-state_of s xs ys rest h.1)

module _ {F : Type 0} (py : Python F) (cfg : PollSettings F) where
  -- The devices of an answer to the query for networks.
  abbrev pub devices_of : F → Json F → List (Reading (PollMessage F))
  devices_of now networks = device_readings py cfg now (iter_devices py networks)

  -- A message that a device vanished, which none of the readings is of: no transition of theirs.
  abbrev pub IsOfAbsent : List (Reading (PollMessage F)) → PollMessage F → Type 0
  IsOfAbsent readings (vanished d last_seen) = All (λ r. reading_key r ≢ d) readings
  IsOfAbsent readings (report r) = ⊥
  IsOfAbsent readings (edge_health h) = ⊥

  SaysVanished-IsOfAbsent :
      (now : F) (readings : List (Reading (PollMessage F))) (m : PollMessage F)
      → SaysVanished (own_messages py cfg now) readings m
      → IsOfAbsent readings m
  SaysVanished-IsOfAbsent now readings m (d, last_seen, said, absent) =
      subst (IsOfAbsent readings) (sym said) absent

  module _ (kind_of : PollMessage F → Option String) where
    -- If a poll raises at the platform, after its devices were recorded, then nothing of it is
    -- queued; and if the next poll goes through and finds the devices in the same states, it
    -- queues a sample of each device, what it says of the platform and of vanished devices, none
    -- of which was reported, and its heartbeat: no transition of a device, whatever states the
    -- devices had before the poll that failed. No device may be reported twice, and none has the
    -- id of the platform.
    pub cycle_lost :
        (now now_later : F) (at queue_now cutoff at_later queue_now_later cutoff_later : ℕ)
        (now_text now_text_later error error_later : String) (networks networks_later : Json F)
        (log log_later : Option (Block F)) (status status_later : Result F)
        (platform : List (Reading (PollMessage F))) (s : StateStore) (q : Outbound (PollMessage F))
        → platform_readings py cfg now status ≡ none
        → platform_readings py cfg now_later status_later ≡ some platform
        → IsKeyed reading_key (devices_of now networks)
        → IsKeyed reading_key (devices_of now_later networks_later ++ platform)
        → map state_of (devices_of now networks)
          ≡ map state_of (devices_of now_later networks_later)
        → (let failed =
              cycle py cfg now kind_of at queue_now cutoff now_text error
                (inr (networks, log))
                status
                s
                q in
            let next =
              cycle py cfg now_later kind_of at_later queue_now_later cutoff_later now_text_later
                error_later
                (inr (networks_later, log_later))
                status_later
                failed.0
                failed.1 in
            (failed.1 ≡ q)
            × ((gone : List (PollMessage F)) × (heartbeat : EdgeHealth F) × All
                  (IsOfAbsent (devices_of now_later networks_later ++ platform))
                  gone
                × (next.1
                    ≡ enqueue_many kind_of queue_now_later
                        (map (λ r. r.periodic) (devices_of now_later networks_later)
                          ++ reports failed.0 platform
                          ++ gone
                          ++ edge_health heartbeat ∷ [])
                        q)))
    unfolding cycle finish set_meta previous_status
    cycle_lost now now_later at queue_now cutoff at_later queue_now_later cutoff_later now_text
          now_text_later error error_later networks networks_later log log_later status status_later
          platform s q raised fine keyed keyed_later same =
        let devices = devices_of now networks in
        let later = devices_of now_later networks_later in
        let known = set_meta "last_poll_error" (left 300 error) (record_all at devices s).0 in
        let remembered : Remembers known devices = record_all-Remembers at devices s keyed in
        let kept = Remembers-state_of known devices later same remembered in
        let own_later = own_messages py cfg now_later in
        let (gone, unhealthy, (absent, queued)) =
          (poll_once_lem own_later kind_of at_later queue_now_later cutoff_later now_text_later
            (later ++ platform) known q keyed_later).1 in
        let heartbeat =
          edge_health_message cfg.poll_interval_seconds _ unhealthy (depth q) now_later in
        let told =
          reports-append known later platform
          ∙ ap (λ (l : List (PollMessage F)). l ++ reports known platform)
              (reports_remembered known later kept) in
        let queue = λ (l : List (PollMessage F)). enqueue_many kind_of queue_now_later l q in
        rw (raised, fine)
          (
            refl,
            (
              gone,
              heartbeat,
              All-imp (SaysVanished own_later (later ++ platform)) (IsOfAbsent (later ++ platform))
                  (SaysVanished-IsOfAbsent now_later (later ++ platform)) gone absent,
              queued
                  ∙ ap
                      (λ (l : List (PollMessage F)).
                        queue (l ++ gone ++ edge_health heartbeat ∷ []))
                      told,
            ),
          )
