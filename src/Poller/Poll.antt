-- ===== src/Poller/Poll.antt =====
-- `poll_once` of poller/main.py. What the platform answers is an argument: the readings of its
-- devices, each with the messages that the mapper makes of it, and last that of the platform itself,
-- if it is reported. The state store has a clock of its own, which shows `at` throughout a poll.
pub mod Transitions
use itdashboard.Prelude.{
  ℕ, ◌+◌, String, Bool, true, false, not, ◌||◌, Option, none, some, List, [], ◌∷◌, ◌++◌, str_eq,
  if◌then◌else◌, length,
}
use itdashboard.Poller.Queue.{Outbound, enqueue_many, depth}
use itdashboard.Poller.StateStore.{
  StateStore, record_status, devices_not_seen_since, counts, set_meta,
}

module _ {ℓ} (P : Type ℓ) where
  pub record Reading : Type ℓ where
    pub device_id : String
    pub status : String
    pub score : ℕ
    pub periodic : P
    pub transition : P

  -- The messages that a poll makes on its own: of a device that vanished, by what the store knows
  -- of it, and of its heartbeat, by the tracked and unhealthy devices and the depth of the queue.
  pub record Own : Type ℓ where
    pub vanished : String → ℕ → P
    pub edge_health : ℕ → ℕ → ℕ → P

module _ {ℓ} {P : Type ℓ} where
  -- What is sent of a reading, by the status that was known before.
  abbrev pub report : Option String → Reading P → List P
  report none r = r.periodic ∷ []
  report (some prev) r =
      if not (str_eq prev r.status) then r.periodic ∷ r.transition ∷ [] else r.periodic ∷ []

  -- The loop over the devices, and the platform.
  unfoldable pub record_all : ℕ → List (Reading P) → StateStore → StateStore × List P
  unfolding record_status
  record_all at [] s = (s, [])
  record_all at (r ∷ rest) s =
      let (s', prev) = record_status at r.device_id r.status r.score s in
      let (last, messages) = record_all at rest s' in (last, report prev r ++ messages)

  unfoldable pub is_seen : List (Reading P) → String → Bool
  is_seen [] d = false
  is_seen (r ∷ rest) d = if str_eq r.device_id d then true else is_seen rest d

  -- The loop over the devices that vanished: the store, the messages.
  unfoldable pub bury :
      Own P → ℕ → List (Reading P) → List (String × String × ℕ) → StateStore → StateStore × List P
  unfolding record_status is_seen
  bury own at readings [] s = (s, [])
  bury own at readings ((d, status, last_seen) ∷ gone) s =
      let skipped = bury own at readings gone s in
      let (last, messages) = bury own at readings gone (record_status at d "unhealthy" 0 s).0 in
      if is_seen readings d || str_eq status "unhealthy"
      then skipped
      else (last, own.vanished d last_seen ∷ messages)

  abbrev pub unhealthy_of : List (Reading P) → ℕ
  unhealthy_of [] = 0
  unhealthy_of (r ∷ rest) =
      let n = unhealthy_of rest in if str_eq r.status "unhealthy" then n + 1 else n

  -- `cutoff` is two and a half intervals ago, `now_text` the time of the poll as the store keeps
  -- it, and `kind_of` reads the kind of a message; `queue_now` is what the queue's clock shows.
  unfoldable pub poll_once :
      Own P
      → (P → Option String)
      → ℕ
      → ℕ
      → ℕ
      → String
      → List (Reading P)
      → StateStore
      → Outbound P
      → StateStore × Outbound P
  unfolding record_all bury
  poll_once own kind_of at queue_now cutoff now_text readings s q =
      let (known, reported) = record_all at readings s in
      let (left, buried) = bury own at readings (devices_not_seen_since cutoff known) known in
      let heartbeat =
        own.edge_health (counts left).0 (unhealthy_of readings + length buried) (depth q) in
      (
        set_meta "last_poll_ok" now_text left,
        enqueue_many kind_of queue_now (reported ++ buried ++ heartbeat ∷ []) q,
      )
