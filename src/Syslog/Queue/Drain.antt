-- ===== src/Syslog/Queue/Drain.antt =====
-- The syslog agent's queue as the uploader sees it.
use itdashboard.Prelude.{
  ℕ, ◌+◌, ◌≡◌, refl, sym, ap, ◌∙◌, true, false, List, [], ◌∷◌, map, arith, All-every, take, drop,
  select, select_all, map-take, map-drop, if◌then◌else◌,
}
use itdashboard.Table.{elem, order_by, delete_in, update_in}
use itdashboard.Table.Order.{order_by-map}
use itdashboard.Table.Delete.{delete_in_absent}
use itdashboard.Table.Trim.{order_by-delete_head}
use itdashboard.Syslog.Queue.{
  Row, Outbound, row_id, age, message, entry_id, in_order, take_batch, ack, mark_failed,
}
use itdashboard.Syslog.Queue.Invariant.{IsValid}

module _ {ℓ} {P : Type ℓ} where
  abbrev pub messages : Outbound P → List (ℕ × P)
  messages q = map message (in_order q)

  -- `[rid for rid, _ in batch]`
  abbrev pub batch_ids : ℕ → Outbound P → List ℕ
  batch_ids n q = map entry_id (take_batch n q)

  ids_of_rows : (rows : List (Row P)) → map entry_id (map message rows) ≡ map row_id rows
  ids_of_rows [] = refl
  ids_of_rows (r ∷ rows) = ap (◌∷◌ (row_id r)) (ids_of_rows rows)

  ack-rows : (ids : List ℕ) (q : Outbound P) → (ack ids q).rows ≡ delete_in row_id ids q.rows
  unfolding ack elem
  ack-rows [] q = sym (
      delete_in_absent row_id [] q.rows
        (All-every (λ r. elem (row_id r) [] ≡ false) (λ r. refl) q.rows))
  ack-rows (i ∷ ids) q = refl

  every_row : (rows : List (Row P)) → select (λ _. true) rows ≡ rows
  every_row rows = select_all (λ _. true) rows (All-every (λ _. true ≡ true) (λ _. refl) rows)

  in_order-ack :
      (n : ℕ) (q : Outbound P) → IsValid q → in_order (ack (batch_ids n q) q) ≡ drop n (in_order q)
  unfolding in_order take_batch
  in_order-ack n q h =
      let ids = map row_id (take n (order_by age q.rows)) in
      let head = order_by-delete_head row_id age (λ (_ : Row P). true) n q.rows h.keyed in
      ap (order_by age) (
        ack-rows (batch_ids n q) q
        ∙ ap (λ (l : List ℕ). delete_in row_id l q.rows)
            (ids_of_rows (take n (order_by age q.rows))))
      ∙ (simp every_row at head)

  failed_row : List ℕ → Row P → Row P
  failed_row ids r = if elem (row_id r) ids then record r { attempts = r.attempts + 1 } else r

  messages_kept :
      (ids : List ℕ) (rows : List (Row P))
      → map message (map (failed_row ids) rows) ≡ map message rows
  unfolding failed_row
  messages_kept ids [] = refl
  messages_kept ids (r ∷ rows) = ground (arith, messages_kept ids rows)

  messages-mark_failed : (ids : List ℕ) (q : Outbound P) → messages (mark_failed ids q) ≡ messages q
  unfolding mark_failed in_order failed_row update_in
  messages-mark_failed [] q = refl
  messages-mark_failed (i ∷ ids) q =
      ap (map message) (order_by-map age (failed_row (i ∷ ids)) q.rows (λ r. ground arith))
      ∙ messages_kept (i ∷ ids) (order_by age q.rows)

  -- On a valid queue of the syslog agent, seen as its messages in order, take_batch shows the
  -- first n, acknowledging that batch drops exactly those, and marking any rows as failed changes
  -- nothing.
  pub syslog_queue_refines :
      (n : ℕ) (ids : List ℕ) (q : Outbound P)
      → IsValid q
      → (take_batch n q ≡ take n (messages q))
        × (messages (ack (batch_ids n q) q) ≡ drop n (messages q))
        × (messages (mark_failed ids q) ≡ messages q)
  unfolding take_batch
  syslog_queue_refines n ids q h = (
    map-take message n (in_order q),
    ap (map message) (in_order-ack n q h) ∙ map-drop message n (in_order q),
    messages-mark_failed ids q,
  )
