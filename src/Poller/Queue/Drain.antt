-- ===== src/Poller/Queue/Drain.antt =====
-- How the queue drains: what is acknowledged or quarantined leaves its head, and what failed stays.
use native.Mathlib.Nat.{le_trans}
use itdashboard.Prelude.{
  length, map-take, map-drop, ℕ, ◌+◌, ◌≤◌, ◌≡◌, refl, sym, ap, ◌∙◌, String, Option, List, [], ◌∷◌,
  map, arith, All-every, Bool, false, select, count, take, drop, if◌then◌else◌,
}
use itdashboard.Table.{elem, order_by, delete_in, update_in, delete_oldest}
use itdashboard.Table.Order.{order_by-map}
use itdashboard.Table.Delete.{IsKeyed, delete_in_absent}
use itdashboard.Table.Trim.{order_by-delete_head, delete_oldest_under, count-delete_in-le}
use itdashboard.Table.Others.{select-delete_oldest_apart}
use itdashboard.Table.Update.{select-update_in_out, select-update_in, IsKeyed-update_in}
use itdashboard.Poller.Queue.{
  message, entry_id, Row, Outbound, quarantined, row_id, age, in_queue, pending_periodic,
  pending_other, parked, clip_error, max_periodic_rows, max_other_rows, max_quarantine_rows,
  trim_rows, trim, in_order, take_batch, ack, mark_failed, quarantine,
}
use itdashboard.Poller.Queue.Invariant.{IsStored, IsValid}

module _ {ℓ} {P : Type ℓ} where
  -- `[rid for rid, _ in batch]`
  abbrev pub batch_ids : ℕ → Outbound P → List ℕ
  batch_ids n q = map entry_id (take_batch n q)

  ids_of_rows : (rows : List (Row P)) → map entry_id (map message rows) ≡ map row_id rows
  ids_of_rows [] = refl
  ids_of_rows (r ∷ rows) = ap (◌∷◌ (row_id r)) (ids_of_rows rows)

  batch_ids-eq : (n : ℕ) (q : Outbound P) → batch_ids n q ≡ map row_id (take n (in_order q))
  unfolding take_batch
  batch_ids-eq n q = ids_of_rows (take n (in_order q))

  ack-rows : (ids : List ℕ) (q : Outbound P) → (ack ids q).rows ≡ delete_in row_id ids q.rows
  unfolding ack elem
  ack-rows [] q = sym (
      delete_in_absent row_id [] q.rows
        (All-every (λ r. elem (row_id r) [] ≡ false) (λ r. refl) q.rows))
  ack-rows (i ∷ ids) q = refl

  -- Acknowledging a batch removes exactly that batch: what was behind it is now at the head, in the
  -- same order.
  pub in_order-ack :
      (n : ℕ) (q : Outbound P) → IsStored q → in_order (ack (batch_ids n q) q) ≡ drop n (in_order q)
  unfolding in_order
  in_order-ack n q h =
      ap (λ (l : List (Row P)). order_by age (select in_queue l))
        (ack-rows (batch_ids n q) q
          ∙ ap (λ (ids : List ℕ). delete_in row_id ids q.rows) (batch_ids-eq n q))
      ∙ order_by-delete_head row_id age in_queue n q.rows h.keyed

  failed_row : List ℕ → Option String → Row P → Row P
  failed_row ids error r =
      if elem (row_id r) ids
      then record r { attempts = r.attempts + 1; last_error = clip_error error }
      else r

  messages_kept :
      (ids : List ℕ) (error : Option String) (rows : List (Row P))
      → map message (map (failed_row ids error) rows) ≡ map message rows
  unfolding failed_row
  messages_kept ids error [] = refl
  messages_kept ids error (r ∷ rows) = ground (arith, messages_kept ids error rows)

  messages-mark_failed :
      (ids : List ℕ) (error : Option String) (q : Outbound P)
      → map message (in_order (mark_failed ids error q)) ≡ map message (in_order q)
  unfolding mark_failed in_order failed_row
  messages-mark_failed [] error q = refl
  messages-mark_failed (i ∷ ids) error q =
      let f : Row P → Row P =
        λ r. record r { attempts = r.attempts + 1; last_error = clip_error error } in
      let moved : select in_queue (update_in row_id f (i ∷ ids) q.rows)
          ≡ map (failed_row (i ∷ ids) error) (select in_queue q.rows) =
        select-update_in row_id f in_queue (i ∷ ids) q.rows (λ r. refl) in
      let sorted =
        order_by-map age (failed_row (i ∷ ids) error) (select in_queue q.rows)
          (λ r. ground arith) in
      ap (map message) (ap (order_by age) moved ∙ sorted)
      ∙ messages_kept (i ∷ ids) error (order_by age (select in_queue q.rows))

  parked_row : Option String → Row P → Row P
  parked_row error r = record r { state = quarantined; last_error = clip_error error }

  -- The trim after a quarantine deletes parked rows only: the pending ones are under their caps.
  trim_parked :
      (rows : List (Row P))
      → IsKeyed row_id rows
      → count pending_periodic rows ≤ max_periodic_rows
      → count pending_other rows ≤ max_other_rows
      → select in_queue (trim_rows rows) ≡ select in_queue rows
  unfolding trim_rows
  trim_parked rows k a b =
      let first = delete_oldest_under row_id age pending_periodic max_periodic_rows rows a in
      let second = delete_oldest_under row_id age pending_other max_other_rows rows b in
      ap
        (λ (l : List (Row P)).
          select in_queue (delete_oldest row_id age parked max_quarantine_rows l))
        (ap (delete_oldest row_id age pending_other max_other_rows) first ∙ second)
      ∙ select-delete_oldest_apart row_id age parked in_queue (λ r h. rw h) max_quarantine_rows rows
          k

  parked_count :
      (p : Row P → Bool) (error : Option String) (ids : List ℕ) (rows : List (Row P))
      → ((r : Row P) → p (parked_row error r) ≡ false)
      → count p (update_in row_id (parked_row error) ids rows) ≤ count p rows
  parked_count p error ids rows out = omega (
    arith,
    ap length (select-update_in_out row_id (parked_row error) p ids rows out),
    count-delete_in-le row_id p ids rows,
  )

  pending-quarantine :
      (ids : List ℕ) (error : Option String) (q : Outbound P)
      → IsValid q
      → select in_queue (quarantine ids error q).rows
        ≡ select in_queue (delete_in row_id ids q.rows)
  unfolding quarantine trim parked_row elem
  pending-quarantine [] error q h = ap (select in_queue) (
      sym (
        delete_in_absent row_id [] q.rows
          (All-every (λ r. elem (row_id r) [] ≡ false) (λ r. refl) q.rows)))
  pending-quarantine (i ∷ ids) error q h =
      let rows' = update_in row_id (parked_row error) (i ∷ ids) q.rows in
      trim_parked rows'
        (IsKeyed-update_in row_id (parked_row error) (λ r. refl) (i ∷ ids) q.rows h.stored.keyed)
        (le_trans (parked_count pending_periodic error (i ∷ ids) q.rows (λ r. ground arith))
          h.capped.periodic)
        (le_trans (parked_count pending_other error (i ∷ ids) q.rows (λ r. ground arith))
          h.capped.other)
      ∙ select-update_in_out row_id (parked_row error) in_queue (i ∷ ids) q.rows (λ r. refl)

  -- Quarantining a batch takes exactly that batch out of the way: what was behind it is now at the
  -- head, in the same order, and no pending message is trimmed.
  pub in_order-quarantine :
      (n : ℕ) (error : Option String) (q : Outbound P)
      → IsValid q
      → in_order (quarantine (batch_ids n q) error q) ≡ drop n (in_order q)
  unfolding in_order
  in_order-quarantine n error q h =
      ap (order_by age) (pending-quarantine (batch_ids n q) error q h)
      ∙ ap (λ (ids : List ℕ). order_by age (select in_queue (delete_in row_id ids q.rows)))
          (batch_ids-eq n q)
      ∙ order_by-delete_head row_id age in_queue n q.rows h.stored.keyed

  -- The queue as the uploader sees it: the pending messages with their ids, oldest first.
  abbrev pub messages : Outbound P → List (ℕ × P)
  messages q = map message (in_order q)

  take_batch-messages : (n : ℕ) (q : Outbound P) → take_batch n q ≡ take n (messages q)
  unfolding take_batch
  take_batch-messages n q = map-take message n (in_order q)

  -- On a valid queue, seen as the pending messages in order, take_batch shows the first n,
  -- acknowledging or quarantining that batch drops exactly those, and marking any rows as failed
  -- changes nothing.
  pub queue_refines :
      (n : ℕ) (ids : List ℕ) (error : Option String) (q : Outbound P)
      → IsValid q
      → (take_batch n q ≡ take n (messages q))
        × (messages (ack (batch_ids n q) q) ≡ drop n (messages q))
        × (messages (quarantine (batch_ids n q) error q) ≡ drop n (messages q))
        × (messages (mark_failed ids error q) ≡ messages q)
  queue_refines n ids error q h = (
    take_batch-messages n q,
    ap (map message) (in_order-ack n q h.stored) ∙ map-drop message n (in_order q),
    ap (map message) (in_order-quarantine n error q h) ∙ map-drop message n (in_order q),
    messages-mark_failed ids error q,
  )
