-- ===== src/Tests/PollerQueue.antt =====
-- Runs of the poller's queue, and its theorems at a concrete queue.
use itdashboard.Prelude.{
  ◌+◌, ◌-◌, ◌≡◌, refl, String, Option, none, some, List, [], ◌∷◌, ◌++◌, arith, str_eq, take, drop,
  count, if◌then◌else◌,
}
use itdashboard.Table.{order_by, delete_in, update_in, delete_oldest}
use itdashboard.Poller.Queue.{
  Outbound, empty, enqueue, enqueue_many, take_batch, ack, mark_failed, quarantine, depth,
  pending_periodic, pending_other, max_periodic_rows, max_other_rows, kind_or_unknown,
}
use itdashboard.Poller.Queue.Invariant.{
  IsValid, Call, enqueued, enqueued_many, acked, failed, quarantined as quarantined_call, calls,
  calls-IsValid, empty-IsValid, call,
}
use itdashboard.Poller.Queue.Drain.{messages, batch_ids, queue_refines}
use itdashboard.Poller.Queue.Arrival.{lane, new_row, enqueue-lanes}

program : Unit {0}
unfolding order_by delete_in update_in delete_oldest enqueue enqueue_many take_batch ack mark_failed
    quarantine depth calls call
program = tt

abbrev kind_of : String → Option String
kind_of m = if str_eq m "" then none else some m

abbrev script : List (Call String)
script =
    enqueued_many 10 ("periodic" ∷ "transition" ∷ [])
    ∷ enqueued 11 "edge_health"
    ∷ failed (1 ∷ []) (some "HTTP 500")
    ∷ acked (1 ∷ [])
    ∷ quarantined_call (2 ∷ []) none
    ∷ []

abbrev queue : Outbound String
queue = calls kind_of script empty

take_batch_after_script : take_batch 5 queue ≡ (3, "edge_health") ∷ []
unfolding program
take_batch_after_script = refl

queue-IsValid : IsValid queue
queue-IsValid = calls-IsValid kind_of script empty-IsValid

calls-IsValid_example : IsValid (calls kind_of script empty)
calls-IsValid_example = calls-IsValid kind_of script empty-IsValid

queue_refines_example :
    (take_batch 1 queue ≡ take 1 (messages queue))
    × (messages (ack (batch_ids 1 queue) queue) ≡ drop 1 (messages queue))
    × (messages (quarantine (batch_ids 1 queue) none queue) ≡ drop 1 (messages queue))
    × (messages (mark_failed (3 ∷ []) none queue) ≡ messages queue)
queue_refines_example = queue_refines 1 (3 ∷ []) none queue queue-IsValid

enqueue-lanes_example :
    (let kind = kind_or_unknown kind_of "periodic" in
      let new = new_row 12 kind "periodic" queue in
      let q' = enqueue kind_of 12 "periodic" queue in
      if str_eq kind "periodic"
      then (lane pending_periodic q'
          ≡ drop
              (count pending_periodic queue.rows + 1 - max_periodic_rows)
              (lane pending_periodic queue ++ new ∷ []))
        × (lane pending_other q' ≡ lane pending_other queue)
      else (lane pending_other q'
          ≡ drop
              (count pending_other queue.rows + 1 - max_other_rows)
              (lane pending_other queue ++ new ∷ []))
        × (lane pending_periodic q' ≡ lane pending_periodic queue))
unfolding program
enqueue-lanes_example = enqueue-lanes kind_of 12 "periodic" queue queue-IsValid (omega arith)
