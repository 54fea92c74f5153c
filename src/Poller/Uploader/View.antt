-- ===== src/Poller/Uploader/View.antt =====
-- The uploader on the queue as it sees it: an abstract machine over the pending messages in order,
-- which the rounds refine, and what repeated rejections lead to.
use mathlib.Core.Path.{subst}
use itdashboard.Prelude.{
  ℕ, ◌+◌, ◌*◌, ◌≡◌, refl, sym, ap, ◌∙◌, min, String, Bool, true, false, Option, none, some, inl,
  inr, List, [], ◌∷◌, map, leb, if◌then◌else◌, take, drop, Bool-cases,
}
use itdashboard.Poller.Queue.{
  Outbound, entry_id, entry_payload, take_batch, mark_failed, quarantine,
}
use itdashboard.Poller.Queue.Invariant.{IsValid, mark_failed-IsValid}
use itdashboard.Poller.Queue.Drain.{messages, batch_ids, queue_refines}
use itdashboard.Poller.Uploader.{
  Config, Exchange, Uploader, Pause, go_on, wait, Attempts, attempts_of, set_attempts,
  forget_attempts, max_4xx_attempts, rejected_again, settle, send, serve, round,
}

-- What the uploader can see.
pub record View {ℓ} (P : Type ℓ) : Type ℓ where
  pub pending : List (ℕ × P)
  pub batch_attempts : Attempts
  pub backoff : ℕ

abbrev pub view {ℓ} : {P : Type ℓ} → Uploader P → View P
view u = record {
  pending = messages u.queue;
  batch_attempts = u.batch_attempts;
  backoff = u.backoff;
}

module _ {ℓ} {P : Type ℓ} (cfg : Config) where
  -- The batch leaves the head, or stays there.
  unfoldable pub view_settle : List ℕ → Bool × Bool × String → View P → View P × Pause
  view_settle ids (true, permanent, detail) v = (
    record v {
      pending = drop cfg.upload_batch_size v.pending;
      batch_attempts = [];
      backoff = cfg.upload_retry_seconds;
    },
    go_on,
  )
  view_settle ids (false, false, detail) v =
      (record v { backoff = min (v.backoff * 2) 600 }, wait v.backoff)
  view_settle ids (false, true, detail) v =
      let n = attempts_of ids v.batch_attempts + 1 in
      let counted = set_attempts ids n v.batch_attempts in
      if leb max_4xx_attempts n
      then (
        record v {
          pending = drop cfg.upload_batch_size v.pending;
          batch_attempts = forget_attempts ids counted;
        },
        go_on,
      )
      else (
        record v { batch_attempts = counted; backoff = min (v.backoff * 2) 600 },
        wait v.backoff,
      )

  unfoldable pub view_serve : (List P → Exchange) → List (ℕ × P) → View P → View P × Pause
  view_serve post [] v = (v, wait 2)
  view_serve post (e ∷ batch) v =
      view_settle (map entry_id (e ∷ batch)) (send (post (map entry_payload (e ∷ batch)))) v

  unfoldable pub view_round : (List P → Exchange) → View P → View P × Pause
  view_round post v = view_serve post (take cfg.upload_batch_size v.pending) v

  abbrev seen : Uploader P × Pause → View P × Pause
  seen r = (view r.0, r.1)

  -- After a failed batch is marked, the same ids are still its ids, and a quarantine drops it.
  quarantine-mark_failed :
      (error : Option String) (q : Outbound P)
      → IsValid q
      → (let ids = batch_ids cfg.upload_batch_size q in
          messages (quarantine ids error (mark_failed ids error q))
          ≡ drop cfg.upload_batch_size (messages q))
  quarantine-mark_failed error q h =
      let n = cfg.upload_batch_size in
      let ids = batch_ids n q in
      let q' = mark_failed ids error q in
      let h' : IsValid q' = mark_failed-IsValid ids error h in
      let same = (queue_refines n ids error q h).3 in
      let batch : take_batch n q' ≡ take_batch n q =
        (queue_refines n [] error q' h').0
        ∙ ap (take n) same
        ∙ sym ((queue_refines n [] error q h).0) in
      ap (λ (l : List (ℕ × P)). messages (quarantine (map entry_id l) error q')) (sym batch)
      ∙ (queue_refines n [] error q' h').2
      ∙ ap (drop n) same

  settle_refines :
      (a : Bool × Bool × String) (u : Uploader P)
      → IsValid u.queue
      → seen (settle cfg (batch_ids cfg.upload_batch_size u.queue) a u)
        ≡ view_settle (batch_ids cfg.upload_batch_size u.queue) a (view u)
  unfolding settle view_settle rejected_again
  settle_refines (true, permanent, detail) u h =
      ap
        (λ (l : List (ℕ × P)).
          (record { pending = l; batch_attempts = []; backoff = cfg.upload_retry_seconds }, go_on))
        ((queue_refines cfg.upload_batch_size [] none u.queue h).1)
  settle_refines (false, false, detail) u h =
      let ids = batch_ids cfg.upload_batch_size u.queue in
      ap
        (λ (l : List (ℕ × P)). (
          record {
            pending = l;
            batch_attempts = u.batch_attempts;
            backoff = min (u.backoff * 2) 600;
          },
          wait u.backoff,
        ))
        ((queue_refines cfg.upload_batch_size ids (some detail) u.queue h).3)
  settle_refines (false, true, detail) u h =
      let ids = batch_ids cfg.upload_batch_size u.queue in
      let n = attempts_of ids u.batch_attempts + 1 in
      let counted = set_attempts ids n u.batch_attempts in
      elim (Bool-cases (leb max_4xx_attempts n)) [
        | inl e ↦ rw e (
            ap
              (λ (l : List (ℕ × P)). (
                record {
                  pending = l;
                  batch_attempts = forget_attempts ids counted;
                  backoff = u.backoff;
                },
                go_on,
              ))
              (quarantine-mark_failed (some detail) u.queue h))
        | inr e ↦ rw e (
            ap
              (λ (l : List (ℕ × P)). (
                record { pending = l; batch_attempts = counted; backoff = min (u.backoff * 2) 600 },
                wait u.backoff,
              ))
              ((queue_refines cfg.upload_batch_size ids (some detail) u.queue h).3))
      ]

  serve_refines :
      (post : List P → Exchange) (batch : List (ℕ × P)) (u : Uploader P)
      → IsValid u.queue
      → batch ≡ take_batch cfg.upload_batch_size u.queue
      → seen (serve cfg post batch u) ≡ view_serve post batch (view u)
  unfolding serve view_serve
  serve_refines post [] u h e = refl
  serve_refines post (b ∷ batch) u h e =
      let answer = send (post (map entry_payload (b ∷ batch))) in
      subst (λ (ids : List ℕ). seen (settle cfg ids answer u) ≡ view_settle ids answer (view u))
        (ap (map entry_id) (sym e)) (settle_refines answer u h)

  -- A round of the uploader on a valid queue, seen through the pending messages in order, is a
  -- round of the abstract machine: an accepted batch, or one rejected for the third time, is
  -- dropped from the head; after any other failure the head stays and the backoff is doubled up to
  -- 600.
  pub round_refines :
      (post : List P → Exchange) (u : Uploader P)
      → IsValid u.queue
      → (view (round cfg post u).0, (round cfg post u).1) ≡ view_round post (view u)
  unfolding round view_round
  round_refines post u h =
      let batch = take_batch cfg.upload_batch_size u.queue in
      serve_refines post batch u h refl
      ∙ ap (λ (l : List (ℕ × P)). view_serve post l (view u))
          ((queue_refines cfg.upload_batch_size [] none u.queue h).0)
