-- ===== src/Syslog/Queue/Invariant.antt =====
-- The invariant of the syslog agent's queue, and that every method keeps it.
use native.Mathlib.Nat.{le_trans}
use itdashboard.Prelude.{
  ℕ, ◌+◌, ◌≤◌, ◌<◌, ◌≡◌, ◌≢◌, refl, String, List, [], ◌∷◌, ◌++◌, arith, All, All-append, All-imp,
  All-select, count, length,
}
use itdashboard.Table.{delete_in, delete_oldest}
use itdashboard.Table.Delete.{IsKeyed, IsKeyed-select}
use itdashboard.Table.Trim.{
  count-delete_oldest-le, count-delete_in-le, count-delete_oldest_mono, IsKeyed-delete_oldest,
  All-delete_oldest,
}
use itdashboard.Table.Update.{All_id-update_in, IsKeyed-update_in, count-update_in}
use itdashboard.Syslog.Queue.{
  Row, Outbound, row_id, age, periodic, other, max_periodic_rows, max_other_rows, empty, trim_rows,
  trim, enqueue, ack, mark_failed, depth,
}

module _ {ℓ} {P : Type ℓ} where
  pub record IsValid (q : Outbound P) : Type 0 where
    pub keyed : IsKeyed row_id q.rows
    pub below : All (λ (r : Row P). r.id < q.next_id) q.rows
    pub periodic_cap : count periodic q.rows ≤ max_periodic_rows
    pub other_cap : count other q.rows ≤ max_other_rows

  trim-IsValid :
      (q : Outbound P)
      → IsKeyed row_id q.rows
      → All (λ (r : Row P). r.id < q.next_id) q.rows
      → IsValid (trim q)
  unfolding trim trim_rows
  trim-IsValid q k b =
      let first = delete_oldest row_id age periodic max_periodic_rows q.rows in
      record {
        keyed =
            IsKeyed-delete_oldest row_id age other max_other_rows first
              (IsKeyed-delete_oldest row_id age periodic max_periodic_rows q.rows k);
        below =
            All-delete_oldest row_id age other max_other_rows (λ (r : Row P). r.id < q.next_id)
              first
              (All-delete_oldest row_id age periodic max_periodic_rows
                (λ (r : Row P). r.id < q.next_id) q.rows b);
        periodic_cap =
            le_trans (count-delete_oldest_mono row_id age other periodic max_other_rows first)
              (count-delete_oldest-le row_id age periodic max_periodic_rows q.rows);
        other_cap = count-delete_oldest-le row_id age other max_other_rows first;
      }

  IsKeyed-snoc :
      (rows : List (Row P)) (n : ℕ) (r : Row P)
      → IsKeyed row_id rows
      → All (λ (s : Row P). s.id < n) rows
      → r.id ≡ n
      → IsKeyed row_id (rows ++ r ∷ [])
  IsKeyed-snoc [] n r k b e = (tt, tt)
  IsKeyed-snoc (s ∷ rows) n r k b e = (
    All-append (λ t. row_id t ≢ row_id s) rows (r ∷ []) k.0 (omega arith, tt),
    IsKeyed-snoc rows n r k.1 b.1 e,
  )

  pub enqueue-IsValid :
      (kind_of : P → String) (now : ℕ) (payload : P) (q : Outbound P)
      → IsValid q
      → IsValid (enqueue kind_of now payload q)
  unfolding enqueue
  enqueue-IsValid kind_of now payload q h =
      trim-IsValid _ (IsKeyed-snoc q.rows q.next_id _ h.keyed h.below refl) (
        All-append (λ (r : Row P). r.id < q.next_id + 1) q.rows _
          (All-imp (λ (r : Row P). r.id < q.next_id) (λ (r : Row P). r.id < q.next_id + 1)
            (λ r k. omega arith) q.rows h.below)
          (omega arith, tt))

  pub ack-IsValid : (ids : List ℕ) (q : Outbound P) → IsValid q → IsValid (ack ids q)
  unfolding ack
  ack-IsValid [] q h = h
  ack-IsValid (i ∷ ids) q h = record {
    keyed = unfold delete_in in IsKeyed-select row_id _ q.rows h.keyed;
    below = unfold delete_in in All-select _ _ q.rows h.below;
    periodic_cap = le_trans (count-delete_in-le row_id periodic (i ∷ ids) q.rows) h.periodic_cap;
    other_cap = le_trans (count-delete_in-le row_id other (i ∷ ids) q.rows) h.other_cap;
  }

  pub mark_failed-IsValid :
      (ids : List ℕ) (q : Outbound P) → IsValid q → IsValid (mark_failed ids q)
  unfolding mark_failed
  mark_failed-IsValid [] q h = h
  mark_failed-IsValid (i ∷ ids) q h =
      let f : Row P → Row P = λ r. record r { attempts = r.attempts + 1 } in
      record {
        keyed = IsKeyed-update_in row_id f (λ r. refl) (i ∷ ids) q.rows h.keyed;
        below = All_id-update_in row_id f (λ r. refl) (λ j. j < q.next_id) (i ∷ ids) q.rows h.below;
        periodic_cap = omega (
          arith,
          count-update_in row_id f (λ r. refl) periodic (i ∷ ids) q.rows (λ r. refl),
          h.periodic_cap,
        );
        other_cap = omega (
          arith,
          count-update_in row_id f (λ r. refl) other (i ∷ ids) q.rows (λ r. refl),
          h.other_cap,
        );
      }

  count-split : (rows : List (Row P)) → count periodic rows + count other rows ≡ length rows
  count-split [] = omega arith
  count-split (r ∷ rows) = ground (arith, count-split rows)

  -- A valid queue holds at most 25000 rows.
  pub depth-le : (q : Outbound P) → IsValid q → depth q ≤ 25000
  unfolding depth
  depth-le q h = omega (arith, count-split q.rows, h.periodic_cap, h.other_cap)

-- The methods that change the table.
pub data Call {ℓ} (P : Type ℓ) : Type ℓ where
  enqueued : ℕ → P → Call P
  acked : List ℕ → Call P
  failed : List ℕ → Call P

module _ {ℓ} {P : Type ℓ} (kind_of : P → String) where
  pub call : Call P → Outbound P → Outbound P
  unfolding enqueue ack mark_failed
  call (enqueued now p) q = enqueue kind_of now p q
  call (acked ids) q = ack ids q
  call (failed ids) q = mark_failed ids q

  pub calls : List (Call P) → Outbound P → Outbound P
  unfolding call
  calls [] q = q
  calls (c ∷ cs) q = calls cs (call c q)

  call-IsValid : (c : Call P) (q : Outbound P) → IsValid q → IsValid (call c q)
  unfolding call
  call-IsValid (enqueued now p) q h = enqueue-IsValid kind_of now p q h
  call-IsValid (acked ids) q h = ack-IsValid ids q h
  call-IsValid (failed ids) q h = mark_failed-IsValid ids q h

  -- Whatever calls are made in whatever order on a valid queue of the syslog agent, ids stay
  -- distinct and below the counter, the caps of 5000 periodic and 20000 other rows hold, and so at
  -- most 25000 rows are kept.
  pub syslog_calls-IsValid :
      (cs : List (Call P)) (q : Outbound P)
      → IsValid q
      → IsValid (calls cs q) × (depth (calls cs q) ≤ 25000)
  unfolding calls
  syslog_calls-IsValid [] q h = (h, depth-le q h)
  syslog_calls-IsValid (c ∷ cs) q h = syslog_calls-IsValid cs (call c q) (call-IsValid c q h)

pub empty-IsValid {ℓ} : {P : Type ℓ} → IsValid (empty {P = P})
empty-IsValid = record {
  keyed = tt;
  below = tt;
  periodic_cap = omega arith;
  other_cap = omega arith;
}
