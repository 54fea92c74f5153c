-- ===== src/Syslog/Uploader.antt =====
-- syslog/uploader.py: `_send` and the loop of `run`. What `requests.post` does in a round is an
-- argument: it raises, or answers with a status code. The log file is not modelled.
pub mod Rounds
use itdashboard.Prelude.{
  ℕ, ◌*◌, min, String, Bool, true, false, not, ◌&&◌, List, [], ◌∷◌, map, leb, ltb, str_eq,
  if◌then◌else◌, Option, none, some,
}
use itdashboard.Syslog.Queue.{Outbound, entry_id, take_batch, ack, mark_failed}

pub record Config : Type 0 where
  pub upload_batch_size : ℕ
  pub upload_retry_seconds : ℕ

pub data Exchange : Type 0 where
  raised : Exchange
  answered : ℕ → Exchange

-- `_send`, and the handler in `run` that makes an exception a failure.
unfoldable pub send : Exchange → Bool
send raised = false
send (answered code) = leb 200 code && ltb code 300

pub record Uploader {ℓ} (P : Type ℓ) : Type ℓ where
  pub queue : Outbound P
  pub backoff : ℕ

pub data Pause : Type 0 where
  go_on : Pause
  wait : ℕ → Pause

module _ {ℓ} {P : Type ℓ} (cfg : Config) where
  unfoldable pub settle : List ℕ → Bool → Uploader P → Uploader P × Pause
  settle ids true u =
      (record { queue = ack ids u.queue; backoff = cfg.upload_retry_seconds }, go_on)
  settle ids false u = (
    record { queue = mark_failed ids u.queue; backoff = min (u.backoff * 2) 600 },
    wait u.backoff,
  )

  unfoldable pub serve : Exchange → List (ℕ × P) → Uploader P → Uploader P × Pause
  unfolding settle send
  serve exchange [] u = (u, wait 2)
  serve exchange (e ∷ batch) u = settle (map entry_id (e ∷ batch)) (send exchange) u

  -- One round of the loop.
  unfoldable pub round : Exchange → Uploader P → Uploader P × Pause
  unfolding serve
  round exchange u = serve exchange (take_batch cfg.upload_batch_size u.queue) u

  unfoldable pub rounds : List Exchange → Uploader P → Uploader P
  unfolding round
  rounds [] u = u
  rounds (x ∷ xs) u = rounds xs (round x u).0
