-- ===== src/Backend/Ingestor/Batches.antt =====
-- The reply to a batch accounts for every message, and a message that is rejected leaves no trace.
use itdashboard.Prelude.{
  ℕ, ◌+◌, ◌<◌, ◌≡◌, refl, ap, ◌∙◌, String, true, false, inl, inr, Option, none, ◌⊎◌, List, [], ◌∷◌,
  map, arith, if◌then◌else◌, length, All,
}
use itdashboard.Text.{or_else}
use itdashboard.Table.{elem}
use itdashboard.Backend.Database.{Database}
use itdashboard.Backend.Properties
use itdashboard.Backend.Ingestor.{handle_one, Rejected, Reply, handle_messages, handle_batch}
use itdashboard.Backend.Message.{
  Failure, Outcome, done, failed, Message, Sender, Fresh, kind_of, device_of,
}

abbrev pub index_of : Rejected → ℕ
index_of r = r.index

-- The messages whose index is not among `bad`; the first has the index `i`.
abbrev pub without : ℕ → List ℕ → List (Message × Fresh) → List (Message × Fresh)
without i bad [] = []
without i bad (m ∷ rest) =
    let kept = without (i + 1) bad rest in if elem i bad then kept else m ∷ kept

-- Indices of messages before `j` do not matter.
without-cons :
    (i j : ℕ) (bad : List ℕ) (messages : List (Message × Fresh))
    → i < j
    → without j (i ∷ bad) messages ≡ without j bad messages
unfolding elem
without-cons i j bad [] h = refl
without-cons i j bad (m ∷ rest) h = ground (arith, without-cons i (j + 1) bad rest (omega arith))

elem_below : (i : ℕ) (l : List ℕ) → All (λ j. i < j) l → elem i l ≡ false
unfolding elem
elem_below i [] h = refl
elem_below i (j ∷ l) h = ground (arith, elem_below i l h.1)

elem_first : (i : ℕ) (l : List ℕ) → elem i (i ∷ l) ≡ true
unfolding elem
elem_first i l = ground arith

module _ (lower : String → String) (now : ℕ) (sender : Sender) where
  abbrev run : ℕ → List (Message × Fresh) → Database → ℕ → Reply
  run = handle_messages lower now sender

  abbrev bad_of : Reply → List ℕ
  bad_of r = map index_of r.rejected

  -- One step of the loop, in each case.
  run-done :
      (i : ℕ) (m : Message) (fresh : Fresh) (rest : List (Message × Fresh)) (db db' : Database)
      (n : ℕ)
      → handle_one lower now sender fresh m db ≡ done db'
      → run i ((m, fresh) ∷ rest) db n ≡ run (i + 1) rest db' (n + 1)
  unfolding handle_messages
  run-done i m fresh rest db db' n e = rw (e, handle_messages) refl

  run-failed :
      (i : ℕ) (m : Message) (fresh : Fresh) (rest : List (Message × Fresh)) (db : Database) (n : ℕ)
      (f : Failure)
      → handle_one lower now sender fresh m db ≡ failed f
      → run i ((m, fresh) ∷ rest) db n ≡ record (run (i + 1) rest db n) {
        rejected =
            record { index = i; kind = kind_of m; device_id = device_of m; reason = f }
            ∷ (run (i + 1) rest db n).rejected;
      }
  unfolding handle_messages
  run-failed i m fresh rest db n f e = rw (e, handle_messages) refl

  Outcome-cases :
      (o : Outcome Database) → ((db : Database) × (o ≡ done db)) ⊎ ((f : Failure) × (o ≡ failed f))
  Outcome-cases (done db) = inl (db, refl)
  Outcome-cases (failed f) = inr (f, refl)

  accounted :
      (i : ℕ) (messages : List (Message × Fresh)) (db : Database) (n : ℕ)
      → (run i messages db n).accepted + length (run i messages db n).rejected ≡ n + length messages
  unfolding handle_messages
  accounted i [] db n = refl
  accounted i ((m, fresh) ∷ rest) db n =
      elim (Outcome-cases (handle_one lower now sender fresh m db)) [
        | inl (db', e) ↦
            rw (run-done i m fresh rest db db' n e)
              (omega (arith, accounted (i + 1) rest db' (n + 1)))
        | inr (f, e) ↦
            rw (run-failed i m fresh rest db n f e) (omega (arith, accounted (i + 1) rest db n))
      ]

  later :
      (i j : ℕ) (messages : List (Message × Fresh)) (db : Database) (n : ℕ)
      → i < j
      → All (λ k. i < k) (bad_of (run j messages db n))
  unfolding handle_messages
  later i j [] db n h = tt
  later i j ((m, fresh) ∷ rest) db n h =
      elim (Outcome-cases (handle_one lower now sender fresh m db)) [
        | inl (db', e) ↦
            rw (run-done j m fresh rest db db' n e) (later i (j + 1) rest db' (n + 1) (omega arith))
        | inr (f, e) ↦
            rw (run-failed j m fresh rest db n f e) (h, later i (j + 1) rest db n (omega arith))
      ]

  traceless :
      (i j : ℕ) (messages : List (Message × Fresh)) (db : Database) (n : ℕ)
      → (let r = run i messages db n in
          run j (without i (bad_of r) messages) db n
          ≡ record { database = r.database; accepted = r.accepted; rejected = [] })
  unfolding handle_messages
  traceless i j [] db n = refl
  traceless i j ((m, fresh) ∷ rest) db n =
      elim (Outcome-cases (handle_one lower now sender fresh m db)) [
        | inl (db', e) ↦
            let r = run (i + 1) rest db' (n + 1) in
            let kept = elem_below i (bad_of r) (later i (i + 1) rest db' (n + 1) (omega arith)) in
            rw (run-done i m fresh rest db db' n e, kept)
              (run-done j m fresh (without (i + 1) (bad_of r) rest) db db' n e
                ∙ traceless (i + 1) (j + 1) rest db' (n + 1))
        | inr (f, e) ↦
            let bad = bad_of (run (i + 1) rest db n) in
            let gone = without-cons i (i + 1) bad rest (omega arith) in
            let first : elem i (i ∷ bad) ≡ true = elem_first i bad in
            rw (run-failed i m fresh rest db n f e, first, gone) (traceless (i + 1) j rest db n)
      ]

  -- The accepted and the rejected messages of a batch are as many as its messages, and a rejected
  -- message leaves no trace: the batch without the rejected ones gives the same database and
  -- accepts every message.
  pub handle_batch_atomic :
      (name : Option String) (messages : List (Message × Fresh)) (db : Database)
      → (let r = handle_batch lower now sender name messages db in
          let kept = without 0 (map index_of r.rejected) messages in
          (r.accepted + length r.rejected ≡ length messages)
          × (r.accepted ≡ length kept)
          × (handle_batch lower now sender name kept db
              ≡ record { database = r.database; accepted = r.accepted; rejected = [] }))
  unfolding handle_batch
  handle_batch_atomic name messages db =
      let db' =
        Properties.upsert sender.provider_id sender.property_id (or_else name sender.property_id)
          none none db in
      let same = traceless 0 0 messages db' 0 in
      let kept = without 0 (bad_of (run 0 messages db' 0)) messages in
      let all = accounted 0 kept db' 0 in
      let accepted = ap (λ (r : Reply). r.accepted + length r.rejected) same in
      (omega (arith, accounted 0 messages db' 0), omega (arith, accepted, all), same)
