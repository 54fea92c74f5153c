-- ===== src/Syslog/Uploader/Rounds.antt =====
-- Rounds of the syslog agent's uploader: the head of the queue goes only when it is accepted.
use mathlib.Core.Path.{subst}
use itdashboard.Prelude.{
  ℕ, ◌+◌, ◌*◌, ◌≡◌, refl, sym, ap, ◌∙◌, Bool, true, false, List, [], ◌∷◌, map, arith, count, inl,
  inr, if◌then◌else◌, take, drop, drop-drop, zero, suc, Bool-cases,
}
use itdashboard.Syslog.Queue.{entry_id, take_batch}
use itdashboard.Syslog.Queue.Invariant.{IsValid, ack-IsValid, mark_failed-IsValid}
use itdashboard.Syslog.Queue.Drain.{messages, batch_ids, syslog_queue_refines}
use itdashboard.Syslog.Uploader.{Config, Exchange, Uploader, send, settle, serve, round, rounds}

drop_of_take_nil {ℓ} : {A : Type ℓ} (n : ℕ) (l : List A) → take n l ≡ [] → drop n l ≡ l
drop_of_take_nil zero l h = refl
drop_of_take_nil (suc n) [] h = refl
drop_of_take_nil (suc n) (x ∷ l) h = cc

module _ {ℓ} {P : Type ℓ} (cfg : Config) where
  settle-IsValid :
      (ids : List ℕ) (accepted : Bool) (u : Uploader P)
      → IsValid u.queue
      → IsValid (settle cfg ids accepted u).0.queue
  unfolding settle
  settle-IsValid ids true u h = ack-IsValid ids u.queue h
  settle-IsValid ids false u h = mark_failed-IsValid ids u.queue h

  serve-IsValid :
      (x : Exchange) (batch : List (ℕ × P)) (u : Uploader P)
      → IsValid u.queue
      → IsValid (serve cfg x batch u).0.queue
  unfolding serve
  serve-IsValid x [] u h = h
  serve-IsValid x (e ∷ batch) u h = settle-IsValid _ (send x) u h

  settle-messages :
      (accepted : Bool) (u : Uploader P)
      → IsValid u.queue
      → messages (settle cfg (batch_ids cfg.upload_batch_size u.queue) accepted u).0.queue
        ≡ (if accepted then drop cfg.upload_batch_size (messages u.queue) else messages u.queue)
  unfolding settle
  settle-messages true u h = (syslog_queue_refines cfg.upload_batch_size [] u.queue h).1
  settle-messages false u h =
      let ids = batch_ids cfg.upload_batch_size u.queue in
      (syslog_queue_refines cfg.upload_batch_size ids u.queue h).2

  serve-messages :
      (x : Exchange) (batch : List (ℕ × P)) (u : Uploader P)
      → IsValid u.queue
      → batch ≡ take_batch cfg.upload_batch_size u.queue
      → messages (serve cfg x batch u).0.queue
        ≡ (if send x then drop cfg.upload_batch_size (messages u.queue) else messages u.queue)
  unfolding serve
  serve-messages x [] u h e =
      let n = cfg.upload_batch_size in
      let idle =
        drop_of_take_nil n (messages u.queue)
          (sym ((syslog_queue_refines n [] u.queue h).0) ∙ sym e) in
      elim (Bool-cases (send x)) [ inl s ↦ rw s (sym idle) | inr s ↦ rw s ]
  serve-messages x (b ∷ batch) u h e =
      subst
        (λ (ids : List ℕ).
          messages (settle cfg ids (send x) u).0.queue
          ≡ (if send x then drop cfg.upload_batch_size (messages u.queue) else messages u.queue))
        (ap (map entry_id) (sym e)) (settle-messages (send x) u h)

  -- Nothing else touching a valid queue of the syslog agent, the messages that are left after some
  -- rounds are those behind as many batches as were accepted: a batch that is never accepted stays
  -- at the head.
  pub rounds-messages :
      (xs : List Exchange) (u : Uploader P)
      → IsValid u.queue
      → messages (rounds cfg xs u).queue
        ≡ drop (count send xs * cfg.upload_batch_size) (messages u.queue)
  unfolding rounds round
  rounds-messages [] u h =
      let none_gone : 0 * cfg.upload_batch_size ≡ 0 = omega arith in
      ap (λ (m : ℕ). drop m (messages u.queue)) (sym none_gone)
  rounds-messages (x ∷ xs) u h =
      let n = cfg.upload_batch_size in
      let batch = take_batch n u.queue in
      let u' = (serve cfg x batch u).0 in
      let one = serve-messages x batch u h refl in
      let rest = rounds-messages xs u' (serve-IsValid x batch u h) in
      elim (Bool-cases (send x)) [
        | inl s ↦
            let one_more : n + count send xs * n ≡ suc (count send xs) * n = grind arith in
            let one' : messages u'.queue ≡ drop n (messages u.queue) = one ∙ (rw s) in
            rw s (
              rest
              ∙ ap (drop (count send xs * n)) one'
              ∙ drop-drop (count send xs * n) n (messages u.queue)
              ∙ ap (λ (m : ℕ). drop m (messages u.queue)) one_more)
        | inr s ↦
            let one' : messages u'.queue ≡ messages u.queue = one ∙ (rw s) in
            rw s (rest ∙ ap (drop (count send xs * n)) one')
      ]
