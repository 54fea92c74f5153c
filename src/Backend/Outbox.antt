-- ===== src/Backend/Outbox.antt =====
-- backend/app/lib/outbox_poller.py: `_poll_once`, and the loop around it. One poller runs, so SKIP
-- LOCKED skips nothing. What Redis answers is an argument: `ok r` is that the event of row `r` gets
-- through; if it does not, the exception rolls the transaction back, but what was published stays.
pub mod Delivery
use itdashboard.Prelude.{
  ℕ, ◌+◌, String, Bool, true, false, Option, none, some, List, [], ◌∷◌, ◌++◌, map, take, select,
  if◌then◌else◌,
}
use itdashboard.Text.{concat}
use itdashboard.Table.{order_by, update_in}
use itdashboard.Backend.Database.{Event, OutboxRow}

abbrev pub poll_limit : ℕ
poll_limit = 50

abbrev pub outbox_id : OutboxRow → ℕ
outbox_id r = r.outbox_id

abbrev pub enqueued : OutboxRow → ℕ
enqueued r = r.enqueued_at

-- `published_at IS NULL`
abbrev pub unpublished : OutboxRow → Bool
unpublished r = elim r.published_at [ none ↦ true | some t ↦ false ]

abbrev pub pending : List OutboxRow → List OutboxRow
pending rows = order_by enqueued (select unpublished rows)

unfoldable pub channel : String → String
unfolding concat
channel property_id = concat ("hosp:prop:" ∷ property_id ∷ [])

-- A message that Redis got: its channel, and the event.
abbrev pub message : OutboxRow → String × Event
message r = (channel r.property_id, r.event)

-- The rows that get through, up to the first that does not, and whether all did.
unfoldable pub publish : (OutboxRow → Bool) → List OutboxRow → List OutboxRow × Bool
publish ok [] = ([], true)
publish ok (r ∷ rows) =
    let (sent, all) = publish ok rows in if ok r then (r ∷ sent, all) else ([], false)

abbrev pub mark_published : ℕ → OutboxRow → OutboxRow
mark_published now r = record r { published_at = some now; attempts = r.attempts + 1 }

-- The table, and what was published.
unfoldable pub poll_once :
    (OutboxRow → Bool) → ℕ → List OutboxRow → List OutboxRow × List (String × Event)
unfolding order_by update_in publish
poll_once ok now rows =
    let batch = take poll_limit (pending rows) in
    let (sent, all) = publish ok batch in
    (
      if all then update_in outbox_id (mark_published now) (map outbox_id batch) rows else rows,
      map message sent,
    )

-- The loop, with what Redis does and what the clock shows at each poll.
unfoldable pub polls :
    List ((OutboxRow → Bool) × ℕ) → List OutboxRow → List OutboxRow × List (String × Event)
unfolding poll_once
polls [] rows = (rows, [])
polls ((ok, now) ∷ rest) rows =
    let (rows', sent) = poll_once ok now rows in
    let (last, later) = polls rest rows' in (last, sent ++ later)
