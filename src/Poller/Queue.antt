-- ===== src/Poller/Queue.antt =====
-- poller/outbound_queue.py: the durable outbound queue. The table `outbound` is the list of its rows
-- in rowid order beside the AUTOINCREMENT counter. The payload column holds the message itself:
-- `json.loads` undoes `json.dumps` on what the poller sends. Each method holds the lock from its
-- first statement to its last, so it is one function of the table.
pub mod Invariant
pub mod Drain
pub mod Arrival
use itdashboard.Prelude.{
  ℕ, zero, suc, ◌+◌, String, Bool, true, false, not, ◌&&◌, Option, none, some, List, [], ◌∷◌, ◌++◌,
  map, str_eq, if◌then◌else◌, take, select, count,
}
use itdashboard.Text.{left, truthy}
use itdashboard.Table.{order_by, delete_in, update_in, delete_oldest}

pub data RowState : Type 0 where
  pending quarantined : RowState

abbrev pub is_pending : RowState → Bool
is_pending pending = true
is_pending quarantined = false

pub record Row {ℓ} (P : Type ℓ) : Type ℓ where
  pub id : ℕ
  pub enqueued_at : ℕ
  pub kind : String
  pub payload : P
  pub attempts : ℕ
  pub state : RowState
  pub last_error : Option String

pub record Outbound {ℓ} (P : Type ℓ) : Type ℓ where
  pub rows : List (Row P)
  pub next_id : ℕ

abbrev pub max_periodic_rows : ℕ
max_periodic_rows = 5000

abbrev pub max_other_rows : ℕ
max_other_rows = 20000

abbrev pub max_quarantine_rows : ℕ
max_quarantine_rows = 500

-- `str(error)[:300] if error else None`
unfoldable pub clip_error : Option String → Option String
unfolding left
clip_error none = none
clip_error (some e) = if truthy e then some (left 300 e) else none

module _ {ℓ} {P : Type ℓ} where
  -- The WHERE clauses of `_trim`.
  abbrev pub pending_periodic : Row P → Bool
  pending_periodic r = str_eq r.kind "periodic" && is_pending r.state

  abbrev pub pending_other : Row P → Bool
  pending_other r = not (str_eq r.kind "periodic") && is_pending r.state

  abbrev pub parked : Row P → Bool
  parked r = not (is_pending r.state)

  abbrev pub in_queue : Row P → Bool
  in_queue r = is_pending r.state

  abbrev pub row_id : Row P → ℕ
  row_id r = r.id

  abbrev pub age : Row P → ℕ
  age r = r.enqueued_at

  -- The columns `id, payload`.
  abbrev pub message : Row P → ℕ × P
  message r = (r.id, r.payload)

  abbrev pub entry_id : ℕ × P → ℕ
  entry_id e = e.0

  abbrev pub entry_payload : ℕ × P → P
  entry_payload e = e.1

  -- `executescript(SCHEMA)` on a new file.
  abbrev pub empty : Outbound P
  empty = record { rows = []; next_id = 1 }

  unfoldable pub trim_rows : List (Row P) → List (Row P)
  unfolding delete_oldest
  trim_rows rows = delete_oldest row_id age parked max_quarantine_rows (
      delete_oldest row_id age pending_other max_other_rows
        (delete_oldest row_id age pending_periodic max_periodic_rows rows))

  unfoldable pub trim : Outbound P → Outbound P
  unfolding trim_rows
  trim q = record q { rows = trim_rows q.rows }

  -- One INSERT: the defaults of the schema for the columns that it does not name.
  unfoldable pub insert : ℕ → String → P → Outbound P → Outbound P
  insert now kind payload q = record {
    rows =
        q.rows
        ++ record {
          id = q.next_id;
          enqueued_at = now;
          kind = kind;
          payload = payload;
          attempts = 0;
          state = pending;
          last_error = none;
        }
          ∷ [];
    next_id = q.next_id + 1;
  }

  unfoldable pub insert_many : ℕ → List (String × P) → Outbound P → Outbound P
  unfolding insert
  insert_many now [] q = q
  insert_many now ((kind, payload) ∷ rest) q = insert_many now rest (insert now kind payload q)

  module _ (kind_of : P → Option String) where
    -- `payload.get("kind", "unknown")`
    abbrev pub kind_or_unknown : P → String
    kind_or_unknown p = elim (kind_of p) [ none ↦ "unknown" | some k ↦ k ]

    unfoldable pub enqueue : ℕ → P → Outbound P → Outbound P
    unfolding trim insert
    enqueue now payload q = trim (insert now (kind_or_unknown payload) payload q)

    unfoldable pub enqueue_many : ℕ → List P → Outbound P → Outbound P
    unfolding trim insert_many
    enqueue_many now [] q = q
    enqueue_many now (p ∷ ps) q =
        trim (insert_many now (map (λ x. (kind_or_unknown x, x)) (p ∷ ps)) q)

  -- The pending rows, oldest first.
  unfoldable pub in_order : Outbound P → List (Row P)
  unfolding order_by
  in_order q = order_by age (select in_queue q.rows)

  unfoldable pub take_batch : ℕ → Outbound P → List (ℕ × P)
  unfolding in_order
  take_batch n q = map message (take n (in_order q))

  unfoldable pub ack : List ℕ → Outbound P → Outbound P
  unfolding delete_in
  ack [] q = q
  ack (i ∷ ids) q = record q { rows = delete_in row_id (i ∷ ids) q.rows }

  unfoldable pub mark_failed : List ℕ → Option String → Outbound P → Outbound P
  unfolding update_in clip_error
  mark_failed [] error q = q
  mark_failed (i ∷ ids) error q = record q {
    rows =
        update_in row_id
          (λ r. record r { attempts = r.attempts + 1; last_error = clip_error error }) (i ∷ ids)
          q.rows;
  }

  unfoldable pub quarantine : List ℕ → Option String → Outbound P → Outbound P
  unfolding update_in clip_error trim
  quarantine [] error q = q
  quarantine (i ∷ ids) error q = trim (record q {
    rows =
        update_in row_id (λ r. record r { state = quarantined; last_error = clip_error error })
          (i ∷ ids) q.rows;
  })

  unfoldable pub depth : Outbound P → ℕ
  depth q = count in_queue q.rows
