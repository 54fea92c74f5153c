-- ===== src/Poller/Uploader/Rejection.antt =====
-- A batch that the cloud rejects for good does not block the queue: its third rejection in a row
-- parks it.
use itdashboard.Prelude.{
  ℕ, zero, suc, ◌+◌, ◌*◌, ◌≤◌, ◌<◌, ◌≡◌, refl, sym, ap, ◌∙◌, String, Bool, true, false, List, [],
  ◌∷◌, map, arith, take, drop, drop-drop,
}
use itdashboard.Poller.Queue.{entry_id, entry_payload}
use itdashboard.Poller.Queue.Invariant.{IsValid}
use itdashboard.Poller.Queue.Drain.{messages}
use itdashboard.Poller.Uploader.{
  Config, Exchange, Uploader, Pause, Attempts, attempts_of, set_attempts, forget_attempts,
  max_4xx_attempts, send, round,
}
use itdashboard.Poller.Uploader.Rounds.{same_ids_refl, round-IsValid}
use itdashboard.Poller.Uploader.View.{
  View, view, view_settle, view_serve, view_round, round_refines,
}

-- The cloud rejects the content of whatever it is sent: the (ok, permanent, …) of `send`.
abbrev pub Rejects {ℓ} : {P : Type ℓ} → (List P → Exchange) → Type ℓ
Rejects {P = P} post = (ps : List P) → ((send (post ps)).0 ≡ false) × ((send (post ps)).1 ≡ true)

module _ (ids : List ℕ) where
  attempts_of_self : (k : ℕ) → attempts_of ids ((ids, k) ∷ []) ≡ k
  unfolding attempts_of
  attempts_of_self k = rw (same_ids_refl ids)

  set_attempts_self : (m k : ℕ) → set_attempts ids m ((ids, k) ∷ []) ≡ (ids, m) ∷ []
  unfolding set_attempts
  set_attempts_self m k = rw (same_ids_refl ids)

  forget_attempts_self : (k : ℕ) → forget_attempts ids ((ids, k) ∷ []) ≡ []
  unfolding forget_attempts
  forget_attempts_self k = rw (same_ids_refl ids)

drop_of_take_nil {ℓ} : {A : Type ℓ} (n : ℕ) (l : List A) → take n l ≡ [] → drop n l ≡ l
drop_of_take_nil zero l h = refl
drop_of_take_nil (suc n) [] h = refl
drop_of_take_nil (suc n) (x ∷ l) h = cc

module _ {ℓ} {P : Type ℓ} (cfg : Config) where
  rejection_kept :
      (ids : List ℕ) (a : Bool × Bool × String) (v : View P)
      → a.0 ≡ false
      → a.1 ≡ true
      → attempts_of ids v.batch_attempts + 1 < max_4xx_attempts
      → ((view_settle cfg ids a v).0.pending ≡ v.pending)
        × ((view_settle cfg ids a v).0.batch_attempts
            ≡ set_attempts ids (attempts_of ids v.batch_attempts + 1) v.batch_attempts)
  unfolding view_settle
  rejection_kept ids (true, permanent, detail) v e f h = absurd (cc)
  rejection_kept ids (false, false, detail) v e f h = absurd (cc)
  rejection_kept ids (false, true, detail) v e f h = ground arith

  rejection_parks :
      (ids : List ℕ) (a : Bool × Bool × String) (v : View P)
      → a.0 ≡ false
      → a.1 ≡ true
      → max_4xx_attempts ≤ attempts_of ids v.batch_attempts + 1
      → ((view_settle cfg ids a v).0.pending ≡ drop cfg.upload_batch_size v.pending)
        × ((view_settle cfg ids a v).0.batch_attempts
            ≡ forget_attempts ids
                (set_attempts ids (attempts_of ids v.batch_attempts + 1) v.batch_attempts))
  unfolding view_settle
  rejection_parks ids (true, permanent, detail) v e f h = absurd (cc)
  rejection_parks ids (false, false, detail) v e f h = absurd (cc)
  rejection_parks ids (false, true, detail) v e f h = ground arith

  -- `k` rounds in which the cloud behaves as `post`.
  pub after : (List P → Exchange) → ℕ → Uploader P → Uploader P
  after post zero u = u
  after post (suc k) u = after post k (round cfg post u).0

  module _ (post : List P → Exchange) (rejects : Rejects post) where
    abbrev next : View P → View P
    next v = (view_round cfg post v).0

    -- One round on the batch `e ∷ b`, as the two lemmas above put it.
    module _ (e : ℕ × P) (b : List (ℕ × P)) where
      abbrev key : List ℕ
      key = map entry_id (e ∷ b)

      answer : Bool × Bool × String
      answer = send (post (map entry_payload (e ∷ b)))

      next_on :
          (v : View P)
          → take cfg.upload_batch_size v.pending ≡ e ∷ b
          → next v ≡ (view_settle cfg key answer v).0
      unfolding view_round view_serve answer
      next_on v t = ap (λ (l : List (ℕ × P)). (view_serve cfg post l v).0) t

      kept_round :
          (v : View P) (l : Attempts) (k : ℕ)
          → take cfg.upload_batch_size v.pending ≡ e ∷ b
          → v.batch_attempts ≡ l
          → attempts_of key l ≡ k
          → k + 1 < max_4xx_attempts
          → ((next v).pending ≡ v.pending) × ((next v).batch_attempts ≡ set_attempts key (k + 1) l)
      unfolding answer
      kept_round v l k t h a lt =
          let a' : attempts_of key v.batch_attempts ≡ k = ap (attempts_of key) h ∙ a in
          let refused = rejects (map entry_payload (e ∷ b)) in
          let kept = rejection_kept key answer v refused.0 refused.1 (omega arith) in
          (
            ap (λ (w : View P). w.pending) (next_on v t) ∙ kept.0,
            ap (λ (w : View P). w.batch_attempts) (next_on v t)
                ∙ kept.1
                ∙ ap (λ (m : ℕ). set_attempts key (m + 1) v.batch_attempts) a'
                ∙ ap (set_attempts key (k + 1)) h,
          )

      parking_round :
          (v : View P) (l : Attempts)
          → take cfg.upload_batch_size v.pending ≡ e ∷ b
          → v.batch_attempts ≡ l
          → attempts_of key l ≡ 2
          → ((next v).pending ≡ drop cfg.upload_batch_size v.pending)
            × ((next v).batch_attempts ≡ forget_attempts key (set_attempts key 3 l))
      unfolding answer
      parking_round v l t h a =
          let a' : attempts_of key v.batch_attempts ≡ 2 = ap (attempts_of key) h ∙ a in
          let refused = rejects (map entry_payload (e ∷ b)) in
          let parks = rejection_parks key answer v refused.0 refused.1 (omega arith) in
          (
            ap (λ (w : View P). w.pending) (next_on v t) ∙ parks.0,
            ap (λ (w : View P). w.batch_attempts) (next_on v t)
                ∙ parks.1
                ∙ ap (λ (m : ℕ). forget_attempts key (set_attempts key (m + 1) v.batch_attempts)) a'
                ∙ ap (λ (m : Attempts). forget_attempts key (set_attempts key 3 m)) h,
          )

      thrice_on :
          (v : View P)
          → take cfg.upload_batch_size v.pending ≡ e ∷ b
          → v.batch_attempts ≡ []
          → ((next (next (next v))).pending ≡ drop cfg.upload_batch_size v.pending)
            × ((next (next (next v))).batch_attempts ≡ [])
      unfolding attempts_of set_attempts
      thrice_on v t h =
          let n = cfg.upload_batch_size in
          let one = kept_round v [] 0 t h refl (omega arith) in
          let v1 = next v in
          let two =
            kept_round v1 ((key, 1) ∷ []) 1 (ap (take n) one.0 ∙ t) one.1 (attempts_of_self key 1)
              (omega arith) in
          let v2 = next v1 in
          let pending2 = two.0 ∙ one.0 in
          let three =
            parking_round v2 ((key, 2) ∷ []) (ap (take n) pending2 ∙ t)
              (two.1 ∙ set_attempts_self key 2 1) (attempts_of_self key 2) in
          (
            three.0 ∙ ap (drop n) pending2,
            three.1
                ∙ ap (forget_attempts key) (set_attempts_self key 3 2)
                ∙ forget_attempts_self key 3,
          )

    next_idle : (v : View P) → take cfg.upload_batch_size v.pending ≡ [] → next v ≡ v
    unfolding view_round view_serve
    next_idle v t = ap (λ (l : List (ℕ × P)). (view_serve cfg post l v).0) t

    thrice :
        (v : View P)
        → v.batch_attempts ≡ []
        → ((next (next (next v))).pending ≡ drop cfg.upload_batch_size v.pending)
          × ((next (next (next v))).batch_attempts ≡ [])
    thrice v h = go (take cfg.upload_batch_size v.pending) refl
      where
        go :
            (l : List (ℕ × P))
            → take cfg.upload_batch_size v.pending ≡ l
            → ((next (next (next v))).pending ≡ drop cfg.upload_batch_size v.pending)
              × ((next (next (next v))).batch_attempts ≡ [])
        go [] t =
            let still = next_idle v t in
            let all = ap (λ (w : View P). next (next w)) still ∙ ap next still ∙ still in
            (
              ap (λ (w : View P). w.pending) all
                  ∙ sym (drop_of_take_nil cfg.upload_batch_size v.pending t),
              ap (λ (w : View P). w.batch_attempts) all ∙ h,
            )
        go (e ∷ b) t = thrice_on e b v t h

    view-next : (u : Uploader P) → IsValid u.queue → view (round cfg post u).0 ≡ next (view u)
    view-next u h = ap (λ (r : View P × Pause). r.0) (round_refines cfg post u h)

    -- If the cloud rejects for good whatever it is sent and nothing else touches the queue, then
    -- from a valid queue and no counted rejections 3 * k rounds take exactly the first k batches
    -- out of the way.
    pub rejections_drain :
        (k : ℕ) (u : Uploader P)
        → IsValid u.queue
        → u.batch_attempts ≡ []
        → messages (after post (k * 3) u).queue
          ≡ drop (k * cfg.upload_batch_size) (messages u.queue)
    unfolding after
    rejections_drain zero u h e =
        let none_yet : zero * 3 ≡ 0 = omega arith in
        let none_gone : zero * cfg.upload_batch_size ≡ 0 = omega arith in
        ap (λ (m : ℕ). messages (after post m u).queue) none_yet
        ∙ ap (λ (m : ℕ). drop m (messages u.queue)) (sym none_gone)
    rejections_drain (suc k) u h e =
        let n = cfg.upload_batch_size in
        let u1 = (round cfg post u).0 in
        let u2 = (round cfg post u1).0 in
        let u3 = (round cfg post u2).0 in
        let h1 = round-IsValid cfg post u h in
        let h2 = round-IsValid cfg post u1 h1 in
        let seen : view u3 ≡ next (next (next (view u))) =
          view-next u2 h2
          ∙ ap next (view-next u1 h1)
          ∙ ap (λ (w : View P). next (next w)) (view-next u h) in
        let thrice_on_view = thrice (view u) e in
        let pending : messages u3.queue ≡ drop n (messages u.queue) =
          ap (λ (w : View P). w.pending) seen ∙ thrice_on_view.0 in
        let cleared : u3.batch_attempts ≡ [] =
          ap (λ (w : View P). w.batch_attempts) seen ∙ thrice_on_view.1 in
        let three_more : suc k * 3 ≡ suc (suc (suc (k * 3))) = omega arith in
        let one_more : n + k * n ≡ suc k * n = grind arith in
        ap (λ (m : ℕ). messages (after post m u).queue) three_more
        ∙ rejections_drain k u3 (round-IsValid cfg post u2 h2) cleared
        ∙ ap (drop (k * n)) pending
        ∙ drop-drop (k * n) n (messages u.queue)
        ∙ ap (λ (m : ℕ). drop m (messages u.queue)) one_more
