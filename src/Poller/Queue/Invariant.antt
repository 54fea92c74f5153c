-- ===== src/Poller/Queue/Invariant.antt =====
-- The invariant of the poller's queue, and that every method keeps it.
use native.Mathlib.Nat.{le_trans}
use itdashboard.Prelude.{
  ℕ, ◌+◌, ◌≤◌, ◌<◌, ◌≡◌, ◌≢◌, refl, String, Option, List, [], ◌∷◌, ◌++◌, map, arith, All,
  All-append, All-imp, All-select, count, Bool,
}
use itdashboard.Table.{delete_in, update_in, delete_oldest}
use itdashboard.Table.Delete.{IsKeyed, IsKeyed-select}
use itdashboard.Table.Trim.{
  count-delete_oldest-le, count-delete_in-le, count-delete_oldest_mono, IsKeyed-delete_oldest,
  All-delete_oldest,
}
use itdashboard.Table.Update.{All_id-update_in, IsKeyed-update_in, count-update_in}
use itdashboard.Poller.Queue.{
  empty, clip_error, kind_or_unknown, Row, Outbound, row_id, age, pending_periodic, pending_other,
  parked, max_periodic_rows, max_other_rows, max_quarantine_rows, trim_rows, trim, insert,
  insert_many, enqueue, enqueue_many, ack, mark_failed, quarantine,
}

module _ {ℓ} {P : Type ℓ} where
  -- Ids are distinct and below the AUTOINCREMENT counter.
  pub record IsStored (q : Outbound P) : Type 0 where
    pub keyed : IsKeyed row_id q.rows
    pub below : All (λ (r : Row P). r.id < q.next_id) q.rows

  -- The three caps.
  pub record IsCapped (rows : List (Row P)) : Type 0 where
    pub periodic : count pending_periodic rows ≤ max_periodic_rows
    pub other : count pending_other rows ≤ max_other_rows
    pub quarantine : count parked rows ≤ max_quarantine_rows

  pub record IsValid (q : Outbound P) : Type 0 where
    pub stored : IsStored q
    pub capped : IsCapped q.rows

  trim_rows-IsCapped : (rows : List (Row P)) → IsCapped (trim_rows rows)
  unfolding trim_rows
  trim_rows-IsCapped rows =
      let a = delete_oldest row_id age pending_periodic max_periodic_rows rows in
      let b = delete_oldest row_id age pending_other max_other_rows a in
      let a-le = count-delete_oldest-le row_id age pending_periodic max_periodic_rows rows in
      let b-le = count-delete_oldest-le row_id age pending_other max_other_rows a in
      let ab =
        count-delete_oldest_mono row_id age pending_other pending_periodic max_other_rows a in
      let bc = count-delete_oldest_mono row_id age parked pending_periodic max_quarantine_rows b in
      let bd = count-delete_oldest_mono row_id age parked pending_other max_quarantine_rows b in
      record {
        periodic = le_trans bc (le_trans ab a-le);
        other = le_trans bd b-le;
        quarantine = count-delete_oldest-le row_id age parked max_quarantine_rows b;
      }

  trim_rows-IsKeyed : (rows : List (Row P)) → IsKeyed row_id rows → IsKeyed row_id (trim_rows rows)
  unfolding trim_rows
  trim_rows-IsKeyed rows h = IsKeyed-delete_oldest row_id age parked max_quarantine_rows _ (
      IsKeyed-delete_oldest row_id age pending_other max_other_rows _
        (IsKeyed-delete_oldest row_id age pending_periodic max_periodic_rows rows h))

  trim_rows-All {κ} :
      (Q : Row P → Type κ) (rows : List (Row P)) → All Q rows → All Q (trim_rows rows)
  unfolding trim_rows
  trim_rows-All Q rows h = All-delete_oldest row_id age parked max_quarantine_rows Q _ (
      All-delete_oldest row_id age pending_other max_other_rows Q _
        (All-delete_oldest row_id age pending_periodic max_periodic_rows Q rows h))

  trim-IsValid : {q : Outbound P} → IsStored q → IsValid (trim q)
  unfolding trim
  trim-IsValid {q} h = record {
    stored = record {
      keyed = trim_rows-IsKeyed q.rows h.keyed;
      below = trim_rows-All (λ r. r.id < q.next_id) q.rows h.below;
    };
    capped = trim_rows-IsCapped q.rows;
  }

  IsKeyed-snoc :
      (rows : List (Row P)) (n : ℕ) (r : Row P)
      → IsKeyed row_id rows
      → All (λ (s : Row P). s.id < n) rows
      → r.id ≡ n
      → IsKeyed row_id (rows ++ r ∷ [])
  IsKeyed-snoc [] n r k b e = (tt, tt)
  IsKeyed-snoc (s ∷ rows) n r k b e = (
    All-append (λ t. row_id t ≢ row_id s) rows (r ∷ []) k.0 (omega arith, tt),
    IsKeyed-snoc rows n r k.1 b.1 e,
  )

  pub insert-IsStored :
      (now : ℕ) (kind : String) (payload : P) {q : Outbound P}
      → IsStored q
      → IsStored (insert now kind payload q)
  unfolding insert
  insert-IsStored now kind payload {q} h = record {
    keyed = IsKeyed-snoc q.rows q.next_id _ h.keyed h.below refl;
    below =
        All-append (λ (r : Row P). r.id < q.next_id + 1) q.rows _
          (All-imp (λ (r : Row P). r.id < q.next_id) (λ r. r.id < q.next_id + 1)
            (λ r k. omega arith) q.rows h.below)
          (omega arith, tt);
  }

  insert_many-IsStored :
      (now : ℕ) (l : List (String × P)) {q : Outbound P}
      → IsStored q
      → IsStored (insert_many now l q)
  unfolding insert_many
  insert_many-IsStored now [] h = h
  insert_many-IsStored now ((kind, payload) ∷ rest) h =
      insert_many-IsStored now rest (insert-IsStored now kind payload h)

  pub enqueue-IsValid :
      (kind_of : P → Option String) (now : ℕ) (p : P) {q : Outbound P}
      → IsValid q
      → IsValid (enqueue kind_of now p q)
  unfolding enqueue
  enqueue-IsValid kind_of now p h = trim-IsValid (insert-IsStored now _ p h.stored)

  pub enqueue_many-IsValid :
      (kind_of : P → Option String) (now : ℕ) (ps : List P) {q : Outbound P}
      → IsValid q
      → IsValid (enqueue_many kind_of now ps q)
  unfolding enqueue_many
  enqueue_many-IsValid kind_of now [] h = h
  enqueue_many-IsValid kind_of now (p ∷ ps) h =
      let messages = map (λ x. (kind_or_unknown kind_of x, x)) (p ∷ ps) in
      trim-IsValid (insert_many-IsStored now messages h.stored)

  pub ack-IsValid : (ids : List ℕ) {q : Outbound P} → IsValid q → IsValid (ack ids q)
  unfolding ack
  ack-IsValid [] h = h
  ack-IsValid (i ∷ ids) {q} h =
      let le = λ (p : Row P → Bool). count-delete_in-le row_id p (i ∷ ids) q.rows in
      record {
        stored =
            unfold delete_in in
            record {
              keyed = IsKeyed-select row_id _ q.rows h.stored.keyed;
              below = All-select _ _ q.rows h.stored.below;
            };
        capped = record {
          periodic = le_trans (le pending_periodic) h.capped.periodic;
          other = le_trans (le pending_other) h.capped.other;
          quarantine = le_trans (le parked) h.capped.quarantine;
        };
      }

  update-IsStored :
      (f : Row P → Row P) (ids : List ℕ) {q : Outbound P}
      → ((r : Row P) → row_id (f r) ≡ row_id r)
      → IsStored q
      → IsStored (record q { rows = update_in row_id f ids q.rows })
  update-IsStored f ids {q} same h = record {
    keyed = IsKeyed-update_in row_id f same ids q.rows h.keyed;
    below = All_id-update_in row_id f same (λ i. i < q.next_id) ids q.rows h.below;
  }

  pub mark_failed-IsValid :
      (ids : List ℕ) (error : Option String) {q : Outbound P}
      → IsValid q
      → IsValid (mark_failed ids error q)
  unfolding mark_failed
  mark_failed-IsValid [] error h = h
  mark_failed-IsValid (i ∷ ids) error {q} h =
      let f : Row P → Row P =
        λ r. record r { attempts = r.attempts + 1; last_error = clip_error error } in
      let eq = λ (p : Row P → Bool) (same : (r : Row P) → p (f r) ≡ p r).
        count-update_in row_id f (λ r. refl) p (i ∷ ids) q.rows same in
      record {
        stored = update-IsStored f (i ∷ ids) (λ r. refl) h.stored;
        capped = record {
          periodic = omega (arith, eq pending_periodic (λ r. refl), h.capped.periodic);
          other = omega (arith, eq pending_other (λ r. refl), h.capped.other);
          quarantine = omega (arith, eq parked (λ r. refl), h.capped.quarantine);
        };
      }

  pub quarantine-IsValid :
      (ids : List ℕ) (error : Option String) {q : Outbound P}
      → IsValid q
      → IsValid (quarantine ids error q)
  unfolding quarantine
  quarantine-IsValid [] error h = h
  quarantine-IsValid (i ∷ ids) error h =
      trim-IsValid (update-IsStored _ (i ∷ ids) (λ r. refl) h.stored)

-- The methods that change the table.
pub data Call {ℓ} (P : Type ℓ) : Type ℓ where
  enqueued : ℕ → P → Call P
  enqueued_many : ℕ → List P → Call P
  acked : List ℕ → Call P
  failed : List ℕ → Option String → Call P
  quarantined : List ℕ → Option String → Call P

module _ {ℓ} {P : Type ℓ} (kind_of : P → Option String) where
  unfoldable pub call : Call P → Outbound P → Outbound P
  unfolding enqueue enqueue_many ack mark_failed quarantine
  call (enqueued now p) q = enqueue kind_of now p q
  call (enqueued_many now ps) q = enqueue_many kind_of now ps q
  call (acked ids) q = ack ids q
  call (failed ids error) q = mark_failed ids error q
  call (quarantined ids error) q = quarantine ids error q

  call-IsValid : (c : Call P) {q : Outbound P} → IsValid q → IsValid (call c q)
  unfolding call
  call-IsValid (enqueued now p) h = enqueue-IsValid kind_of now p h
  call-IsValid (enqueued_many now ps) h = enqueue_many-IsValid kind_of now ps h
  call-IsValid (acked ids) h = ack-IsValid ids h
  call-IsValid (failed ids error) h = mark_failed-IsValid ids error h
  call-IsValid (quarantined ids error) h = quarantine-IsValid ids error h

  unfoldable pub calls : List (Call P) → Outbound P → Outbound P
  unfolding call
  calls [] q = q
  calls (c ∷ cs) q = calls cs (call c q)

  -- Whatever calls are made in whatever order on a valid queue, ids stay distinct and below the
  -- counter, and at most 5000 periodic and 20000 other messages are pending and 500 quarantined.
  pub calls-IsValid : (cs : List (Call P)) {q : Outbound P} → IsValid q → IsValid (calls cs q)
  unfolding calls
  calls-IsValid [] h = h
  calls-IsValid (c ∷ cs) h = calls-IsValid cs (call-IsValid c h)

pub empty-IsValid {ℓ} : {P : Type ℓ} → IsValid (empty {P = P})
empty-IsValid = record {
  stored = record { keyed = tt; below = tt };
  capped = record { periodic = omega arith; other = omega arith; quarantine = omega arith };
}
