-- ===== src/Syslog/Queue.antt =====
-- syslog/outbound_queue.py: the syslog agent's durable queue. As the poller's, with no `state`
-- column: every row is waiting to be sent.
pub mod Invariant
pub mod Drain
use itdashboard.Prelude.{
  ℕ, ◌+◌, String, Bool, not, Option, none, some, List, [], ◌∷◌, ◌++◌, map, str_eq, take, length,
}
use itdashboard.Table.{order_by, delete_in, update_in, delete_oldest}

pub record Row {ℓ} (P : Type ℓ) : Type ℓ where
  pub id : ℕ
  pub enqueued_at : ℕ
  pub kind : String
  pub payload : P
  pub attempts : ℕ

pub record Outbound {ℓ} (P : Type ℓ) : Type ℓ where
  pub rows : List (Row P)
  pub next_id : ℕ

abbrev pub max_periodic_rows : ℕ
max_periodic_rows = 5000

abbrev pub max_other_rows : ℕ
max_other_rows = 20000

module _ {ℓ} {P : Type ℓ} where
  abbrev pub periodic : Row P → Bool
  periodic r = str_eq r.kind "periodic"

  abbrev pub other : Row P → Bool
  other r = not (str_eq r.kind "periodic")

  abbrev pub row_id : Row P → ℕ
  row_id r = r.id

  abbrev pub age : Row P → ℕ
  age r = r.enqueued_at

  abbrev pub message : Row P → ℕ × P
  message r = (r.id, r.payload)

  abbrev pub entry_id : ℕ × P → ℕ
  entry_id e = e.0

  abbrev pub entry_payload : ℕ × P → P
  entry_payload e = e.1

  abbrev pub empty : Outbound P
  empty = record { rows = []; next_id = 1 }

  unfoldable pub trim_rows : List (Row P) → List (Row P)
  unfolding delete_oldest
  trim_rows rows =
      delete_oldest row_id age other max_other_rows
        (delete_oldest row_id age periodic max_periodic_rows rows)

  unfoldable pub trim : Outbound P → Outbound P
  unfolding trim_rows
  trim q = record q { rows = trim_rows q.rows }

  -- `kind_of` is `payload.get("kind", "unknown")`.
  unfoldable pub enqueue : (P → String) → ℕ → P → Outbound P → Outbound P
  unfolding trim
  enqueue kind_of now payload q = trim (record {
    rows =
        q.rows
        ++ record {
          id = q.next_id;
          enqueued_at = now;
          kind = kind_of payload;
          payload = payload;
          attempts = 0;
        }
          ∷ [];
    next_id = q.next_id + 1;
  })

  unfoldable pub in_order : Outbound P → List (Row P)
  unfolding order_by
  in_order q = order_by age q.rows

  unfoldable pub take_batch : ℕ → Outbound P → List (ℕ × P)
  unfolding in_order
  take_batch n q = map message (take n (in_order q))

  unfoldable pub ack : List ℕ → Outbound P → Outbound P
  unfolding delete_in
  ack [] q = q
  ack (i ∷ ids) q = record q { rows = delete_in row_id (i ∷ ids) q.rows }

  unfoldable pub mark_failed : List ℕ → Outbound P → Outbound P
  unfolding update_in
  mark_failed [] q = q
  mark_failed (i ∷ ids) q = record q {
    rows = update_in row_id (λ r. record r { attempts = r.attempts + 1 }) (i ∷ ids) q.rows;
  }

  unfoldable pub depth : Outbound P → ℕ
  depth q = length q.rows
