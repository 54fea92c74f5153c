-- ===== src/Poller/Uploader/Rounds.antt =====
-- Rounds of the uploader: what they do to the queue, to the backoff and to the rejection counts.
use itdashboard.Prelude.{
  ℕ, ◌+◌, ◌≤◌, ◌<◌, ◌≡◌, refl, String, Bool, true, false, some, List, [], ◌∷◌, arith, leb, All, max,
  inl, inr, Bool-cases,
}
use itdashboard.Poller.Queue.Invariant.{
  IsValid, ack-IsValid, mark_failed-IsValid, quarantine-IsValid,
}
use itdashboard.Poller.Uploader.{
  Config, Exchange, Uploader, Attempts, same_ids, attempts_of, set_attempts, forget_attempts,
  max_4xx_attempts, rejected_again, settle, serve, round, rounds,
}

pub same_ids_refl : (ids : List ℕ) → same_ids ids ids ≡ true
unfolding same_ids
same_ids_refl [] = refl
same_ids_refl (i ∷ ids) = ground (arith, same_ids_refl ids)

forget_attempts-under :
    (key : List ℕ) (l : Attempts)
    → All (λ (e : List ℕ × ℕ). e.1 < max_4xx_attempts) l
    → All (λ (e : List ℕ × ℕ). e.1 < max_4xx_attempts) (forget_attempts key l)
unfolding forget_attempts
forget_attempts-under key [] h = tt
forget_attempts-under key ((k, m) ∷ rest) h = elim (Bool-cases (same_ids k key)) [
  | inl e ↦ rw e (forget_attempts-under key rest h.1)
  | inr e ↦ rw e (h.0, forget_attempts-under key rest h.1)
]

set_attempts-under :
    (key : List ℕ) (n : ℕ) (l : Attempts)
    → n < max_4xx_attempts
    → All (λ (e : List ℕ × ℕ). e.1 < max_4xx_attempts) l
    → All (λ (e : List ℕ × ℕ). e.1 < max_4xx_attempts) (set_attempts key n l)
unfolding set_attempts
set_attempts-under key n [] lt h = (lt, tt)
set_attempts-under key n ((k, m) ∷ rest) lt h = elim (Bool-cases (same_ids k key)) [
  | inl e ↦ rw e (lt, h.1)
  | inr e ↦ rw e (h.0, set_attempts-under key n rest lt h.1)
]

-- The entry that reached the limit is the one that is forgotten.
forget_set-under :
    (key : List ℕ) (n : ℕ) (l : Attempts)
    → All (λ (e : List ℕ × ℕ). e.1 < max_4xx_attempts) l
    → All (λ (e : List ℕ × ℕ). e.1 < max_4xx_attempts) (forget_attempts key (set_attempts key n l))
unfolding set_attempts forget_attempts
forget_set-under key n [] h = rw (same_ids_refl key) tt
forget_set-under key n ((k, m) ∷ rest) h = elim (Bool-cases (same_ids k key)) [
  | inl e ↦ rw (e, e) (forget_attempts-under key rest h.1)
  | inr e ↦ rw (e, e) (h.0, forget_set-under key n rest h.1)
]

module _ {ℓ} {P : Type ℓ} (cfg : Config) where
  rejected_again-IsValid :
      (ids : List ℕ) (detail : String) (u : Uploader P)
      → IsValid u.queue
      → IsValid (rejected_again cfg ids detail u).0.queue
  unfolding rejected_again
  rejected_again-IsValid ids detail u h =
      elim (Bool-cases (leb max_4xx_attempts (attempts_of ids u.batch_attempts + 1))) [
        | inl e ↦ rw e (quarantine-IsValid ids (some detail) h)
        | inr e ↦ rw e h
      ]

  settle-IsValid :
      (ids : List ℕ) (a : Bool × Bool × String) (u : Uploader P)
      → IsValid u.queue
      → IsValid (settle cfg ids a u).0.queue
  unfolding settle
  settle-IsValid ids (true, permanent, detail) u h = ack-IsValid ids h
  settle-IsValid ids (false, true, detail) u h =
      rejected_again-IsValid ids detail _ (mark_failed-IsValid ids (some detail) h)
  settle-IsValid ids (false, false, detail) u h = mark_failed-IsValid ids (some detail) h

  serve-IsValid :
      (post : List P → Exchange) (batch : List (ℕ × P)) (u : Uploader P)
      → IsValid u.queue
      → IsValid (serve cfg post batch u).0.queue
  unfolding serve
  serve-IsValid post [] u h = h
  serve-IsValid post (e ∷ batch) u h = settle-IsValid _ _ u h

  -- A round keeps the invariant of the queue.
  pub round-IsValid :
      (post : List P → Exchange) (u : Uploader P)
      → IsValid u.queue
      → IsValid (round cfg post u).0.queue
  unfolding round
  round-IsValid post u h = serve-IsValid post _ u h

  -- The backoff is never over the configured retry time and 600 seconds, and every count of
  -- rejections that is kept is under the limit.
  pub record IsPaced (u : Uploader P) : Type 0 where
    pub bounded : u.backoff ≤ max cfg.upload_retry_seconds 600
    pub under_limit : All (λ (e : List ℕ × ℕ). e.1 < max_4xx_attempts) u.batch_attempts

  rejected_again-IsPaced :
      (ids : List ℕ) (detail : String) (u : Uploader P)
      → IsPaced u
      → IsPaced (rejected_again cfg ids detail u).0
  unfolding rejected_again
  rejected_again-IsPaced ids detail u h =
      let n = attempts_of ids u.batch_attempts + 1 in
      elim (Bool-cases (leb max_4xx_attempts n)) [
        | inl e ↦ rw e (record {
          bounded = h.bounded;
          under_limit = forget_set-under ids n u.batch_attempts h.under_limit;
        })
        | inr e ↦ rw e (record {
          bounded = omega arith;
          under_limit = set_attempts-under ids n u.batch_attempts (ground arith) h.under_limit;
        })
      ]

  settle-IsPaced :
      (ids : List ℕ) (a : Bool × Bool × String) (u : Uploader P)
      → IsPaced u
      → IsPaced (settle cfg ids a u).0
  unfolding settle
  settle-IsPaced ids (true, permanent, detail) u h = record {
    bounded = omega arith;
    under_limit = tt;
  }
  settle-IsPaced ids (false, true, detail) u h =
      rejected_again-IsPaced ids detail _
        (record { bounded = h.bounded; under_limit = h.under_limit })
  settle-IsPaced ids (false, false, detail) u h = record {
    bounded = omega arith;
    under_limit = h.under_limit;
  }

  serve-IsPaced :
      (post : List P → Exchange) (batch : List (ℕ × P)) (u : Uploader P)
      → IsPaced u
      → IsPaced (serve cfg post batch u).0
  unfolding serve
  serve-IsPaced post [] u h = h
  serve-IsPaced post (e ∷ batch) u h = settle-IsPaced _ _ u h

  -- Whatever the cloud does, round after round, a valid queue stays valid, the backoff stays at
  -- most the larger of the configured retry time and 600 seconds, and each kept count of
  -- rejections stays under 3, if all this holds at the start.
  pub rounds-IsValid :
      (posts : List (List P → Exchange)) (u : Uploader P)
      → IsValid u.queue
      → IsPaced u
      → IsValid (rounds cfg posts u).queue × IsPaced (rounds cfg posts u)
  unfolding rounds round
  rounds-IsValid [] u h p = (h, p)
  rounds-IsValid (post ∷ posts) u h p =
      rounds-IsValid posts _ (serve-IsValid post _ u h) (serve-IsPaced post _ u p)
