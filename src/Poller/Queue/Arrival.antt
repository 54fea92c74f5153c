-- ===== src/Poller/Queue/Arrival.antt =====
-- What `enqueue` does to the order of the queue: the new message comes last, and only the oldest
-- pending messages of its own kind make room for it.
use mathlib.Core.List.{append-nil}
use itdashboard.Prelude.{
  ℕ, ◌+◌, ◌-◌, ◌≤◌, ◌≡◌, ap, ◌∙◌, String, Option, none, List, [], ◌∷◌, ◌++◌, arith, All, All-select,
  Bool, true, false, str_eq, select, select-append, count, length, length-append, drop, inl, inr,
  Bool-cases, if◌then◌else◌,
}
use itdashboard.Table.{order_by, delete_oldest}
use itdashboard.Table.Order.{order_by-snoc}
use itdashboard.Table.Trim.{order_by-delete_oldest, IsKeyed-delete_oldest}
use itdashboard.Table.Delete.{IsKeyed}
use itdashboard.Table.Others.{select-delete_oldest_apart}
use itdashboard.Poller.Queue.{
  Row, Outbound, pending, row_id, age, in_queue, pending_periodic, pending_other, parked,
  max_periodic_rows, max_other_rows, max_quarantine_rows, trim_rows, trim, insert, enqueue,
  kind_or_unknown,
}
use itdashboard.Poller.Queue.Invariant.{IsStored, IsValid, insert-IsStored}

module _ {ℓ} {P : Type ℓ} where
  -- The row that an INSERT at time `now` adds.
  abbrev pub new_row : ℕ → String → P → Outbound P → Row P
  new_row now kind payload q = record {
    id = q.next_id;
    enqueued_at = now;
    kind = kind;
    payload = payload;
    attempts = 0;
    state = pending;
    last_error = none;
  }

  -- The rows of one kind, oldest first.
  abbrev pub lane : (Row P → Bool) → Outbound P → List (Row P)
  lane p q = order_by age (select p q.rows)

  -- Every row was enqueued at `now` or before: the clock has not gone back.
  abbrev pub NotAfter : ℕ → Outbound P → Type 0
  NotAfter now q = All (λ (r : Row P). r.enqueued_at ≤ now) q.rows

  periodic_apart_other : (r : Row P) → pending_other r ≡ true → pending_periodic r ≡ false
  periodic_apart_other r h = ground arith

  other_apart_periodic : (r : Row P) → pending_periodic r ≡ true → pending_other r ≡ false
  other_apart_periodic r h = ground arith

  parked_apart :
      (p : Row P → Bool)
      → ((r : Row P) → p r ≡ true → in_queue r ≡ true)
      → (r : Row P) → p r ≡ true
      → parked r ≡ false
  parked_apart p pends r h = rw (pends r h)

  lane-trim_periodic :
      (rows : List (Row P))
      → IsKeyed row_id rows
      → order_by age (select pending_periodic (trim_rows rows))
        ≡ drop
            (count pending_periodic rows - max_periodic_rows)
            (order_by age (select pending_periodic rows))
  unfolding trim_rows
  lane-trim_periodic rows k =
      let a = delete_oldest row_id age pending_periodic max_periodic_rows rows in
      let b = delete_oldest row_id age pending_other max_other_rows a in
      let ka = IsKeyed-delete_oldest row_id age pending_periodic max_periodic_rows rows k in
      let kb = IsKeyed-delete_oldest row_id age pending_other max_other_rows a ka in
      ap (order_by age) (
        select-delete_oldest_apart row_id age parked pending_periodic (λ r h. ground arith)
          max_quarantine_rows b kb
        ∙ select-delete_oldest_apart row_id age pending_other pending_periodic other_apart_periodic
            max_other_rows a ka)
      ∙ order_by-delete_oldest row_id age pending_periodic max_periodic_rows rows k

  lane-trim_other :
      (rows : List (Row P))
      → IsKeyed row_id rows
      → order_by age (select pending_other (trim_rows rows))
        ≡ drop
            (count pending_other rows - max_other_rows)
            (order_by age (select pending_other rows))
  unfolding trim_rows
  lane-trim_other rows k =
      let a = delete_oldest row_id age pending_periodic max_periodic_rows rows in
      let b = delete_oldest row_id age pending_other max_other_rows a in
      let ka = IsKeyed-delete_oldest row_id age pending_periodic max_periodic_rows rows k in
      let kb = IsKeyed-delete_oldest row_id age pending_other max_other_rows a ka in
      let same =
        select-delete_oldest_apart row_id age pending_periodic pending_other periodic_apart_other
          max_periodic_rows rows k in
      ap (order_by age) (
        select-delete_oldest_apart row_id age parked pending_other (λ r h. ground arith)
          max_quarantine_rows b kb)
      ∙ order_by-delete_oldest row_id age pending_other max_other_rows a ka
      ∙ ap (λ (l : List (Row P)). drop (length l - max_other_rows) (order_by age l)) same

  select-insert_in :
      (p : Row P → Bool) (now : ℕ) (kind : String) (payload : P) (q : Outbound P)
      → p (new_row now kind payload q) ≡ true
      → select p (insert now kind payload q).rows
        ≡ select p q.rows ++ new_row now kind payload q ∷ []
  unfolding insert
  select-insert_in p now kind payload q e =
      select-append p q.rows (new_row now kind payload q ∷ []) ∙ (rw e)

  lane-insert_in :
      (p : Row P → Bool) (now : ℕ) (kind : String) (payload : P) (q : Outbound P)
      → NotAfter now q
      → p (new_row now kind payload q) ≡ true
      → lane p (insert now kind payload q) ≡ lane p q ++ new_row now kind payload q ∷ []
  lane-insert_in p now kind payload q h e =
      let new = new_row now kind payload q in
      ap (order_by age) (select-insert_in p now kind payload q e)
      ∙ order_by-snoc age (select p q.rows) new
          (All-select (λ (r : Row P). r.enqueued_at ≤ now) p q.rows h)

  lane-insert_out :
      (p : Row P → Bool) (now : ℕ) (kind : String) (payload : P) (q : Outbound P)
      → p (new_row now kind payload q) ≡ false
      → select p (insert now kind payload q).rows ≡ select p q.rows
  unfolding insert
  lane-insert_out p now kind payload q e =
      select-append p q.rows (new_row now kind payload q ∷ []) ∙ simp (e, append-nil)

  -- What `_trim` does to the lane of `p`, under its cap.
  abbrev TrimsLane : (Row P → Bool) → ℕ → Type ℓ
  TrimsLane p cap =
      (rows : List (Row P))
      → IsKeyed row_id rows
      → order_by age (select p (trim_rows rows))
        ≡ drop (count p rows - cap) (order_by age (select p rows))

  module _ (p : Row P → Bool) (cap : ℕ) (law : TrimsLane p cap) where
    arrive :
        (now : ℕ) (kind : String) (payload : P) (q : Outbound P)
        → IsStored q
        → NotAfter now q
        → p (new_row now kind payload q) ≡ true
        → lane p (trim (insert now kind payload q))
          ≡ drop (count p q.rows + 1 - cap) (lane p q ++ new_row now kind payload q ∷ [])
    unfolding trim
    arrive now kind payload q h late e =
        let inserted = insert now kind payload q in
        let new = new_row now kind payload q in
        let one_more : count p inserted.rows ≡ count p q.rows + 1 =
          ap length (select-insert_in p now kind payload q e)
          ∙ length-append (select p q.rows) (new ∷ []) in
        law inserted.rows (insert-IsStored now kind payload h).keyed
        ∙ ap (λ (n : ℕ). drop (n - cap) (lane p inserted)) one_more
        ∙ ap (drop (count p q.rows + 1 - cap)) (lane-insert_in p now kind payload q late e)

    stay :
        (now : ℕ) (kind : String) (payload : P) (q : Outbound P)
        → IsStored q
        → count p q.rows ≤ cap
        → p (new_row now kind payload q) ≡ false
        → lane p (trim (insert now kind payload q)) ≡ lane p q
    unfolding trim
    stay now kind payload q h fits e =
        let same = lane-insert_out p now kind payload q e in
        let none_over : count p q.rows - cap ≡ 0 = omega arith in
        law (insert now kind payload q).rows (insert-IsStored now kind payload h).keyed
        ∙ ap (λ (l : List (Row P)). drop (length l - cap) (order_by age l)) same
        ∙ ap (λ (n : ℕ). drop n (lane p q)) none_over

  module _ (kind_of : P → Option String) (now : ℕ) (payload : P) (q : Outbound P) where
    -- On a valid queue and a clock that has not gone back, an enqueued message goes to the end of
    -- the pending messages of its kind (periodic or not), the oldest of that kind over its cap are
    -- dropped, and the pending messages of the other kind stay as they were.
    pub enqueue-lanes :
        IsValid q
        → NotAfter now q
        → (let kind = kind_or_unknown kind_of payload in
            let new = new_row now kind payload q in
            let q' = enqueue kind_of now payload q in
            if str_eq kind "periodic"
            then (lane pending_periodic q'
                ≡ drop
                    (count pending_periodic q.rows + 1 - max_periodic_rows)
                    (lane pending_periodic q ++ new ∷ []))
              × (lane pending_other q' ≡ lane pending_other q)
            else (lane pending_other q'
                ≡ drop
                    (count pending_other q.rows + 1 - max_other_rows)
                    (lane pending_other q ++ new ∷ []))
              × (lane pending_periodic q' ≡ lane pending_periodic q))
    unfolding enqueue
    enqueue-lanes h late =
        let kind = kind_or_unknown kind_of payload in
        elim (Bool-cases (str_eq kind "periodic")) [
          | inl e ↦ rw e (
            arrive pending_periodic max_periodic_rows lane-trim_periodic now kind payload q h.stored
                late (rw e),
            stay pending_other max_other_rows lane-trim_other now kind payload q h.stored
                h.capped.other (rw e),
          )
          | inr e ↦ rw e (
            arrive pending_other max_other_rows lane-trim_other now kind payload q h.stored late
                (rw e),
            stay pending_periodic max_periodic_rows lane-trim_periodic now kind payload q h.stored
                h.capped.periodic (rw e),
          )
        ]
