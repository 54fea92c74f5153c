-- ===== src/Poller/Uploader.antt =====
-- poller/uploader.py: `send`, which reads the cloud's answer, and one round of the loop of `run`.
-- What `session.post` does is an argument: it raises, or it answers. The log file that `send` writes
-- is not modelled; `_stop.wait(s)` is the pause that a round asks for.
pub mod Rounds
pub mod View
pub mod Rejection
use itdashboard.Prelude.{
  ℕ, zero, suc, ◌+◌, ◌*◌, min, String, Bool, true, false, not, ◌&&◌, Option, none, some, List, [],
  ◌∷◌, map, leb, ltb, ◌==◌, if◌then◌else◌, length, take,
}
use Prim.Native.String.{◌++◌}
use itdashboard.Text.{left, decimal}
use itdashboard.Poller.Queue.{
  Outbound, entry_id, entry_payload, take_batch, ack, mark_failed, quarantine,
}

abbrev pub max_4xx_attempts : ℕ
max_4xx_attempts = 3

pub record Config : Type 0 where
  pub upload_batch_size : ℕ
  pub upload_retry_seconds : ℕ

pub record Site : Type 0 where
  pub edge_id : String
  pub service_provider : String
  pub property_id : String
  pub property_name : Option String

pub record Envelope {ℓ} (P : Type ℓ) : Type ℓ where
  pub schema_version : String
  pub edge_id : String
  pub service_provider : String
  pub property_id : String
  pub property_name : Option String
  pub messages : List P

abbrev pub envelope {ℓ} : {P : Type ℓ} → Site → List P → Envelope P
envelope cfg payloads = record {
  schema_version = "1.0";
  edge_id = cfg.edge_id;
  service_provider = cfg.service_provider;
  property_id = cfg.property_id;
  property_name = cfg.property_name;
  messages = payloads;
}

-- What `session.post` does. `rejected` is the printed entries of `(response.json() or
-- {}).get("rejected") or []`, and empty where that raises.
pub data Exchange : Type 0 where
  raised : String → Exchange
  answered : ℕ → String → List String → Exchange

-- Python's print of a list whose entries are printed already.
commas : List String → String
commas [] = ""
commas (x ∷ []) = x
commas (x ∷ y ∷ rest) = x ++ ", " ++ commas (y ∷ rest)

-- (ok, permanent, detail)
unfoldable pub send : Exchange → Bool × Bool × String
unfolding left decimal commas
send (raised description) = (false, false, description)
send (answered code text rejected) =
    if leb 200 code && ltb code 300
    then elim rejected [
      | [] ↦ (true, false, "HTTP " ++ decimal code)
      | r ∷ rest ↦ (
        true,
        false,
        "cloud accepted batch but rejected "
            ++ decimal (length (r ∷ rest))
            ++ ": ["
            ++ commas (take 3 (r ∷ rest))
            ++ "]",
      )
    ]
    else (
      false,
      leb 400 code && ltb code 500 && not (code == 429),
      "HTTP " ++ decimal code ++ ": " ++ left 300 text,
    )

-- `_batch_attempts`: how often the batch with these ids was rejected.
abbrev pub Attempts : Type 0
Attempts = List (List ℕ × ℕ)

unfoldable pub same_ids : List ℕ → List ℕ → Bool
same_ids [] [] = true
same_ids [] (j ∷ js) = false
same_ids (i ∷ is) [] = false
same_ids (i ∷ is) (j ∷ js) = i == j && same_ids is js

unfoldable pub attempts_of : List ℕ → Attempts → ℕ
unfolding same_ids
attempts_of key [] = 0
attempts_of key ((k, n) ∷ rest) = if same_ids k key then n else attempts_of key rest

unfoldable pub set_attempts : List ℕ → ℕ → Attempts → Attempts
unfolding same_ids
set_attempts key n [] = (key, n) ∷ []
set_attempts key n ((k, m) ∷ rest) =
    let others = set_attempts key n rest in
    if same_ids k key then (k, n) ∷ rest else (k, m) ∷ others

unfoldable pub forget_attempts : List ℕ → Attempts → Attempts
unfolding same_ids
forget_attempts key [] = []
forget_attempts key ((k, m) ∷ rest) =
    let others = forget_attempts key rest in if same_ids k key then others else (k, m) ∷ others

pub record Uploader {ℓ} (P : Type ℓ) : Type ℓ where
  pub queue : Outbound P
  pub batch_attempts : Attempts
  pub backoff : ℕ

-- What a round does before the next one.
pub data Pause : Type 0 where
  go_on : Pause
  wait : ℕ → Pause

module _ {ℓ} {P : Type ℓ} (cfg : Config) where
  -- The end of the loop's body: wait, and double the backoff up to 600 seconds.
  abbrev pub back_off : Uploader P → Uploader P × Pause
  back_off u = (record u { backoff = min (u.backoff * 2) 600 }, wait u.backoff)

  -- `_batch_attempts[key] = _batch_attempts.get(key, 0) + 1` and what depends on it.
  unfoldable pub rejected_again : List ℕ → String → Uploader P → Uploader P × Pause
  unfolding attempts_of set_attempts forget_attempts
  rejected_again ids detail u =
      let n = attempts_of ids u.batch_attempts + 1 in
      let counted = set_attempts ids n u.batch_attempts in
      if leb max_4xx_attempts n
      then (
        record u {
          queue = quarantine ids (some detail) u.queue;
          batch_attempts = forget_attempts ids counted;
        },
        go_on,
      )
      else back_off (record u { batch_attempts = counted })

  -- What a round does with the answer to a batch.
  unfoldable pub settle : List ℕ → Bool × Bool × String → Uploader P → Uploader P × Pause
  unfolding rejected_again
  settle ids (ok, permanent, detail) u =
      if ok
      then (
        record u {
          queue = ack ids u.queue;
          batch_attempts = [];
          backoff = cfg.upload_retry_seconds;
        },
        go_on,
      )
      else let failed = record u { queue = mark_failed ids (some detail) u.queue } in
        if permanent then rejected_again ids detail failed else back_off failed

  -- The loop's body after `take_batch`; `post` is asked only if there is something to send.
  unfoldable pub serve : (List P → Exchange) → List (ℕ × P) → Uploader P → Uploader P × Pause
  unfolding settle send
  serve post [] u = (u, wait 2)
  serve post (e ∷ batch) u =
      settle (map entry_id (e ∷ batch)) (send (post (map entry_payload (e ∷ batch)))) u

  -- One round of `run`.
  unfoldable pub round : (List P → Exchange) → Uploader P → Uploader P × Pause
  unfolding serve
  round post u = serve post (take_batch cfg.upload_batch_size u.queue) u

  -- Rounds with nothing happening to the queue in between, one for each behaviour of the cloud.
  unfoldable pub rounds : List (List P → Exchange) → Uploader P → Uploader P
  unfolding round
  rounds [] u = u
  rounds (post ∷ posts) u = rounds posts (round post u).0
