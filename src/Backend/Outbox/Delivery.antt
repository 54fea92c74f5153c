-- ===== src/Backend/Outbox/Delivery.antt =====
-- The outbox delivers its events in order, each at least once.
use itdashboard.Prelude.{
  ℕ, ◌+◌, ◌≡◌, refl, sym, ap, ◌∙◌, String, Bool, true, false, inl, inr, List, [], ◌∷◌, ◌++◌, map,
  arith, take, drop, length, take-append-drop, ◌*◌, drop-drop, take_add, suc, Bool-cases, map-take,
  map-drop,
}
use mathlib.Core.List.{append_assoc}
use itdashboard.Table.{order_by, update_in}
use itdashboard.Table.Delete.{IsKeyed}
use itdashboard.Table.Trim.{order_by-delete_head}
use itdashboard.Table.Update.{select-update_in_out, IsKeyed-update_in}
use itdashboard.Backend.Database.{Event, OutboxRow}
use itdashboard.Backend.Outbox.{
  poll_limit, outbox_id, enqueued, unpublished, pending, message, publish, mark_published,
  poll_once, polls,
}

abbrev pub events : List OutboxRow → List (String × Event)
events rows = map message (pending rows)

pending-marked :
    (now : ℕ) (rows : List OutboxRow)
    → IsKeyed outbox_id rows
    → pending (
        update_in outbox_id
          (mark_published now)
          (map outbox_id (take poll_limit (pending rows)))
          rows)
      ≡ drop poll_limit (pending rows)
pending-marked now rows keyed =
    ap (order_by enqueued) (
      select-update_in_out outbox_id (mark_published now) unpublished
        (map outbox_id (take poll_limit (pending rows))) rows (λ r. refl))
    ∙ order_by-delete_head outbox_id enqueued unpublished poll_limit rows keyed

-- `xs` is what is left of `ys` when some elements are passed over.
pub data IsSublist {ℓ} {A : Type ℓ} : List A → List A → Type ℓ where
  nothing : IsSublist [] []
  skip : {xs ys : List A} (y : A) → IsSublist xs ys → IsSublist xs (y ∷ ys)
  keep : {xs ys : List A} (x : A) → IsSublist xs ys → IsSublist (x ∷ xs) (x ∷ ys)

skip_all {ℓ} :
    {A : Type ℓ} (zs : List A) {xs ys : List A} → IsSublist xs ys → IsSublist xs (zs ++ ys)
skip_all [] h = h
skip_all (z ∷ zs) h = skip z (skip_all zs h)

keep_all {ℓ} :
    {A : Type ℓ} (zs : List A) {xs ys : List A} → IsSublist xs ys → IsSublist (zs ++ xs) (zs ++ ys)
keep_all [] h = h
keep_all (z ∷ zs) h = keep z (keep_all zs h)

-- If all gets through, all is published.
publish_all :
    (ok : OutboxRow → Bool) (rows : List OutboxRow)
    → (publish ok rows).1 ≡ true
    → (publish ok rows).0 ≡ rows
unfolding publish
publish_all ok [] h = refl
publish_all ok (r ∷ rows) h = elim (Bool-cases (ok r)) [
  | inl y ↦
      let rest : (publish ok rows).1 ≡ true = ground arith in rw (y, publish_all ok rows rest) refl
  | inr n ↦ ground arith
]

publish_always :
    (ok : OutboxRow → Bool) (rows : List OutboxRow)
    → ((r : OutboxRow) → ok r ≡ true)
    → (publish ok rows).1 ≡ true
unfolding publish
publish_always ok [] h = refl
publish_always ok (r ∷ rows) h = rw (h r, publish_always ok rows h) refl

-- A poll in which all gets through takes the published events from the head.
poll-success :
    (ok : OutboxRow → Bool) (now : ℕ) (rows : List OutboxRow)
    → IsKeyed outbox_id rows
    → (publish ok (take poll_limit (pending rows))).1 ≡ true
    → (let r = poll_once ok now rows in
        (r.1 ≡ take poll_limit (events rows))
        × (events r.0 ≡ drop poll_limit (events rows))
        × IsKeyed outbox_id r.0)
unfolding poll_once
poll-success ok now rows keyed all =
    let batch = take poll_limit (pending rows) in
    let marked = update_in outbox_id (mark_published now) (map outbox_id batch) rows in
    rw all (
      ap (map message) (publish_all ok batch all) ∙ map-take message poll_limit (pending rows),
      ap (map message) (pending-marked now rows keyed) ∙ map-drop message poll_limit (pending rows),
      IsKeyed-update_in outbox_id (mark_published now) (λ r. refl) (map outbox_id batch) rows keyed,
    )

poll-failure :
    (ok : OutboxRow → Bool) (now : ℕ) (rows : List OutboxRow)
    → (publish ok (take poll_limit (pending rows))).1 ≡ false
    → (poll_once ok now rows).0 ≡ rows
unfolding poll_once
poll-failure ok now rows some_fail = rw some_fail refl

-- Whatever fails at Redis, poll after poll, the events that wait in an outbox of distinct ids are
-- those that were settled, followed by those that still wait, and the settled ones were all
-- published in this order: each at least once.
pub polls-deliver :
    (trials : List ((OutboxRow → Bool) × ℕ)) (rows : List OutboxRow)
    → IsKeyed outbox_id rows
    → (let r = polls trials rows in
        (settled : List (String × Event)) × (events rows ≡ settled ++ events r.0)
        × IsSublist settled r.1)
unfolding polls
polls-deliver [] rows keyed = ([], refl, nothing)
polls-deliver ((ok, now) ∷ rest) rows keyed =
    let later =
      λ (rows' : List OutboxRow) (k : IsKeyed outbox_id rows'). polls-deliver rest rows' k in
    elim (Bool-cases (publish ok (take poll_limit (pending rows))).1) [
      | inl all ↦
          let (sent, left, k) = poll-success ok now rows keyed all in
          let (settled, e, sub) = later (poll_once ok now rows).0 k in
          (
            (poll_once ok now rows).1 ++ settled,
            sym (take-append-drop poll_limit (events rows))
                ∙ ap (λ (l : List (String × Event)). l ++ drop poll_limit (events rows)) (sym sent)
                ∙ ap (◌++◌ (poll_once ok now rows).1) (sym left ∙ e)
                ∙ sym (
                    append_assoc (poll_once ok now rows).1 settled
                      (events (polls rest (poll_once ok now rows).0).0)),
            keep_all (poll_once ok now rows).1 sub,
          )
      | inr fail ↦
          let same = poll-failure ok now rows fail in
          let (settled, e, sub) = later rows keyed in
          (settled, rw same e, skip_all (poll_once ok now rows).1 (rw same sub))
    ]

-- While Redis answers, k polls of an outbox of distinct ids publish exactly the first 50 * k
-- waiting events in order, each once, and leave the rest.
pub polls-drain :
    (clock : List ℕ) (rows : List OutboxRow)
    → IsKeyed outbox_id rows
    → (let r = polls (map (λ now. ((λ _. true), now)) clock) rows in
        (r.1 ≡ take (poll_limit * length clock) (events rows))
        × (events r.0 ≡ drop (poll_limit * length clock) (events rows)))
unfolding polls
polls-drain [] rows keyed = (refl, refl)
polls-drain (now ∷ rest) rows keyed =
    let ok : OutboxRow → Bool = λ _. true in
    let all = publish_always ok (take poll_limit (pending rows)) (λ r. refl) in
    let (sent, left, k) = poll-success ok now rows keyed all in
    let next = (poll_once ok now rows).0 in
    let (later, end) = polls-drain rest next k in
    let trials : List ((OutboxRow → Bool) × ℕ) = map (λ (t : ℕ). (ok, t)) rest in
    let size : poll_limit * suc (length rest) ≡ poll_limit + poll_limit * length rest =
      omega arith in
    (
      ap (λ (l : List (String × Event)). l ++ (polls trials next).1) sent
          ∙ ap (◌++◌ (take poll_limit (events rows)))
              (later ∙ ap (take (poll_limit * length rest)) left)
          ∙ sym (take_add poll_limit (poll_limit * length rest) (events rows))
          ∙ ap (λ (n : ℕ). take n (events rows)) (sym size),
      end
          ∙ ap (drop (poll_limit * length rest)) left
          ∙ drop-drop (poll_limit * length rest) poll_limit (events rows)
          ∙ ap (λ (n : ℕ). drop n (events rows)) (sym size),
    )
