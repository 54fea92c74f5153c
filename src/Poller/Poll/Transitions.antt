-- ===== src/Poller/Poll/Transitions.antt =====
-- A transition is sent exactly of the devices whose status is another one than before the poll.
use itdashboard.Prelude.{
  ℕ, ◌+◌, ◌≡◌, ◌≢◌, refl, sym, ap, ◌∙◌, String, Bool, true, false, ◌||◌, inl, inr, Option, none,
  some, List, [], ◌∷◌, ◌++◌, arith, str_eq, eq_iff, if◌then◌else◌, All, All-imp, All-both,
  Bool-cases, length,
}
use text.Mathlib.TextPositions.{eq_refl}
use itdashboard.Table.Delete.{IsKeyed}
use itdashboard.Poller.Queue.{Outbound, enqueue_many, depth}
use itdashboard.Poller.StateStore.{
  devices_not_seen_since, set_meta, counts, DeviceState, StateStore, find, status_of,
  previous_status,
}
use itdashboard.Poller.StateStore.Laws.{after, recorded, record_status_lem}
use itdashboard.Poller.Poll.{
  Reading, Own, report, record_all, is_seen, bury, poll_once, unhealthy_of,
}

previous-other :
    (at : ℕ) (d j status : String) (score : ℕ) (s : StateStore)
    → j ≢ d
    → previous_status j (after at d status score s) ≡ previous_status j s
unfolding previous_status
previous-other at d j status score s other =
    let row = (record_status_lem at d status score s).1 j in
    let differs : str_eq d j ≡ false = elim (Bool-cases (str_eq d j)) [
      | inl e ↦ absurd (other (sym ((eq_iff d j).0 e)))
      | inr e ↦ e
    ] in
    ap status_of row ∙ rw differs refl

previous-recorded :
    (at : ℕ) (d status : String) (score : ℕ) (s : StateStore)
    → previous_status d (after at d status score s) ≡ some status
unfolding previous_status
previous-recorded at d status score s =
    let row = (record_status_lem at d status score s).1 d in
    let new = recorded at d status score (find d s.device_state) in
    let mine : (if str_eq d d then some new else find d s.device_state) ≡ some new =
      rw (eq_refl d) refl in
    ap status_of (row ∙ mine) ∙ recorded-status (find d s.device_state)
  where
    recorded-status :
        (o : Option DeviceState) → status_of (some (recorded at d status score o)) ≡ some status
    recorded-status none = refl
    recorded-status (some r) = refl

not_left : (a b : Bool) → (a || b) ≡ false → a ≡ false
not_left a b h = ground arith

module _ {ℓ} {P : Type ℓ} where
  abbrev pub reading_key : Reading P → String
  reading_key r = r.device_id

  -- What is sent of each reading, by what the store knew before the poll.
  abbrev pub reports : StateStore → List (Reading P) → List P
  reports s [] = []
  reports s (r ∷ rest) = report (previous_status r.device_id s) r ++ reports s rest

  reports-other :
      (at : ℕ) (d status : String) (score : ℕ) (s : StateStore) (rest : List (Reading P))
      → All (λ r. reading_key r ≢ d) rest
      → reports (after at d status score s) rest ≡ reports s rest
  reports-other at d status score s [] h = refl
  reports-other at d status score s (r ∷ rest) h =
      rw
        (
          previous-other at d r.device_id status score s h.0,
          reports-other at d status score s rest h.1,
        )
        refl

  pub record_all-reports :
      (at : ℕ) (readings : List (Reading P)) (s : StateStore)
      → IsKeyed reading_key readings
      → (record_all at readings s).1 ≡ reports s readings
  unfolding record_all
  record_all-reports at [] s keyed = refl
  record_all-reports at (r ∷ rest) s keyed =
      let prev = (record_status_lem at r.device_id r.status r.score s).0 in
      ap
        (λ (p : Option String).
          report p r ++ (record_all at rest (after at r.device_id r.status r.score s)).1)
        prev
      ∙ ap (◌++◌ (report (previous_status r.device_id s) r)) (
          record_all-reports at rest (after at r.device_id r.status r.score s) keyed.1
          ∙ reports-other at r.device_id r.status r.score s rest keyed.0)

  record_all-other :
      (at : ℕ) (d : String) (readings : List (Reading P)) (s : StateStore)
      → All (λ r. reading_key r ≢ d) readings
      → previous_status d (record_all at readings s).0 ≡ previous_status d s
  unfolding record_all
  record_all-other at d [] s h = refl
  record_all-other at d (r ∷ rest) s h =
      record_all-other at d rest (after at r.device_id r.status r.score s) h.1
      ∙ previous-other at r.device_id d r.status r.score s (λ e. h.0 (sym e))

  -- The store remembers the status that was reported.
  abbrev pub Remembers : StateStore → List (Reading P) → Type 0
  Remembers s readings = All (λ r. previous_status r.device_id s ≡ some r.status) readings

  pub record_all-Remembers :
      (at : ℕ) (readings : List (Reading P)) (s : StateStore)
      → IsKeyed reading_key readings
      → Remembers (record_all at readings s).0 readings
  unfolding record_all
  record_all-Remembers at [] s keyed = tt
  record_all-Remembers at (r ∷ rest) s keyed =
      let next = after at r.device_id r.status r.score s in
      (
        record_all-other at r.device_id rest next keyed.0
            ∙ previous-recorded at r.device_id r.status r.score s,
        record_all-Remembers at rest next keyed.1,
      )

  bury-seen :
      (own : Own P) (at : ℕ) (readings : List (Reading P)) (d : String)
      (gone : List (String × String × ℕ)) (s : StateStore)
      → is_seen readings d ≡ true
      → previous_status d (bury own at readings gone s).0 ≡ previous_status d s
  unfolding bury
  bury-seen own at readings d [] s seen = refl
  bury-seen own at readings d ((g, status, last_seen) ∷ gone) s seen =
      elim (Bool-cases (is_seen readings g || str_eq status "unhealthy")) [
        | inl e ↦ rw e (bury-seen own at readings d gone s seen)
        | inr e ↦
            let unseen = not_left (is_seen readings g) (str_eq status "unhealthy") e in
            let other : d ≢ g = λ same. cc (seen, unseen, ap (is_seen readings) same) in
            rw e (
              bury-seen own at readings d gone (after at g "unhealthy" 0 s) seen
              ∙ previous-other at g d "unhealthy" 0 s other)
      ]

  all_seen : (readings : List (Reading P)) → All (λ r. is_seen readings r.device_id ≡ true) readings
  unfolding is_seen
  all_seen [] = tt
  all_seen (r ∷ rest) = (
    rw (eq_refl r.device_id) refl,
    All-imp (λ x. is_seen rest x.device_id ≡ true) (λ x. is_seen (r ∷ rest) x.device_id ≡ true)
        (λ x h. ground arith) rest (all_seen rest),
  )

  unseen :
      (readings : List (Reading P)) (d : String)
      → is_seen readings d ≡ false
      → All (λ r. reading_key r ≢ d) readings
  unfolding is_seen
  unseen [] d h = tt
  unseen (r ∷ rest) d h = elim (Bool-cases (str_eq r.device_id d)) [
    | inl e ↦ ground (arith, h)
    | inr e ↦ ((λ same. cc (e, (eq_iff r.device_id d).1 same)), unseen rest d (rw e at h))
  ]

  -- What is said of a device that vanished, which none of the readings is of.
  abbrev pub SaysVanished : Own P → List (Reading P) → P → Type ℓ
  SaysVanished own readings m =
      (d : String) × (last_seen : ℕ) × (m ≡ own.vanished d last_seen)
      × All (λ r. reading_key r ≢ d) readings

  bury-SaysVanished :
      (own : Own P) (at : ℕ) (readings : List (Reading P)) (gone : List (String × String × ℕ))
      (s : StateStore)
      → All (SaysVanished own readings) (bury own at readings gone s).1
  unfolding bury
  bury-SaysVanished own at readings [] s = tt
  bury-SaysVanished own at readings ((g, status, last_seen) ∷ gone) s =
      elim (Bool-cases (is_seen readings g || str_eq status "unhealthy")) [
        | inl e ↦ rw e (bury-SaysVanished own at readings gone s)
        | inr e ↦
            let absent =
              unseen readings g (not_left (is_seen readings g) (str_eq status "unhealthy") e) in
            rw e (
              (g, last_seen, refl, absent),
              bury-SaysVanished own at readings gone (after at g "unhealthy" 0 s),
            )
      ]

  -- If no device is reported twice, a poll leaves every reported device in the state store with
  -- the status that was reported, and puts into the queue at once: a sample of each, followed by a
  -- transition exactly if it was known before the poll with another status, then what it says of
  -- vanished devices, none of which was reported, and last a heartbeat with the number of devices
  -- in the store and the depth that the queue had.
  pub poll_once_lem :
      (own : Own P) (kind_of : P → Option String) (at queue_now cutoff : ℕ) (now_text : String)
      (readings : List (Reading P)) (s : StateStore) (q : Outbound P)
      → IsKeyed reading_key readings
      → (let r = poll_once own kind_of at queue_now cutoff now_text readings s q in
          Remembers r.0 readings
          × ((vanished : List P) × (unhealthy : ℕ) × (let heartbeat =
                  own.edge_health (length r.0.device_state) unhealthy (depth q) in
                All (SaysVanished own readings) vanished
                × (r.1
                    ≡ enqueue_many kind_of queue_now
                        (reports s readings ++ vanished ++ heartbeat ∷ [])
                        q))))
  unfolding poll_once set_meta previous_status counts
  poll_once_lem own kind_of at queue_now cutoff now_text readings s q keyed =
      let known = (record_all at readings s).0 in
      let gone = devices_not_seen_since cutoff known in
      let buried = bury own at readings gone known in
      let heartbeat =
        own.edge_health (counts buried.0).0 (unhealthy_of readings + length buried.1) (depth q) in
      let kept : (r : Reading P)
          → (is_seen readings r.device_id ≡ true)
            × (previous_status r.device_id known ≡ some r.status)
          → previous_status r.device_id (bury own at readings gone known).0 ≡ some r.status =
        λ r h. bury-seen own at readings r.device_id gone known h.0 ∙ h.1 in
      (
        All-imp
            (λ r.
              (is_seen readings r.device_id ≡ true)
              × (previous_status r.device_id known ≡ some r.status))
            (λ r. previous_status r.device_id (bury own at readings gone known).0 ≡ some r.status)
            kept readings
            (All-both (λ r. is_seen readings r.device_id ≡ true)
              (λ r. previous_status r.device_id known ≡ some r.status) readings (all_seen readings)
              (record_all-Remembers at readings s keyed)),
        (
          buried.1,
          unhealthy_of readings + length buried.1,
          (
            bury-SaysVanished own at readings gone known,
            ap (λ (l : List P). enqueue_many kind_of queue_now (l ++ buried.1 ++ heartbeat ∷ []) q)
                (record_all-reports at readings s keyed),
          ),
        ),
      )
