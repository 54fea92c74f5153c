-- ===== src/Tests/PollerUploader.antt =====
-- Runs of the poller's uploader, and its theorems at a concrete queue.
use itdashboard.Prelude.{
  ◌*◌, ◌≡◌, refl, String, true, false, Option, some, List, [], ◌∷◌, arith, drop,
}
use itdashboard.Table.{order_by, delete_in, update_in, delete_oldest}
use itdashboard.Poller.Queue.{empty, enqueue_many}
use itdashboard.Poller.Queue.Invariant.{IsValid, empty-IsValid, enqueue_many-IsValid}
use itdashboard.Poller.Queue.Drain.{messages}
use itdashboard.Poller.Uploader.{Config, Exchange, answered, Uploader, send, round, rounds}
use itdashboard.Poller.Uploader.Rounds.{IsPaced, rounds-IsValid}
use itdashboard.Poller.Uploader.View.{view, view_round, round_refines}
use itdashboard.Poller.Uploader.Rejection.{Rejects, after, rejections_drain}

program : Unit {0}
unfolding order_by delete_in update_in delete_oldest enqueue_many round rounds
program = tt

abbrev kind_of : String → Option String
kind_of m = some m

abbrev cfg : Config
cfg = record { upload_batch_size = 1; upload_retry_seconds = 30 }

abbrev uploader : Uploader String
uploader = record {
  queue = enqueue_many kind_of 10 ("periodic" ∷ "transition" ∷ []) empty;
  batch_attempts = [];
  backoff = 30;
}

uploader-queue-IsValid : IsValid uploader.queue
uploader-queue-IsValid =
    enqueue_many-IsValid kind_of 10 ("periodic" ∷ "transition" ∷ []) empty-IsValid

-- The cloud answers 422 to everything.
abbrev refuse : List String → Exchange
refuse ps = answered 422 "bad message" []

send_detail :
    send (answered 200 "" ("a" ∷ "b" ∷ []))
    ≡ (true, false, "cloud accepted batch but rejected 2: [a, b]")
unfolding send
send_detail = refl

send_too_many : send (answered 429 "slow down" []) ≡ (false, false, "HTTP 429: slow down")
unfolding send
send_too_many = refl

round_refines_example :
    (view (round cfg refuse uploader).0, (round cfg refuse uploader).1)
    ≡ view_round cfg refuse (view uploader)
round_refines_example = round_refines cfg refuse uploader uploader-queue-IsValid

rounds-IsValid_example :
    IsValid (rounds cfg (refuse ∷ refuse ∷ []) uploader).queue
    × IsPaced cfg (rounds cfg (refuse ∷ refuse ∷ []) uploader)
rounds-IsValid_example =
    rounds-IsValid cfg (refuse ∷ refuse ∷ []) uploader uploader-queue-IsValid
      (record { bounded = omega arith; under_limit = tt })

refuse-Rejects : Rejects refuse
unfolding send
refuse-Rejects ps = (refl, refl)

rejections_drain_example :
    messages (after cfg refuse (2 * 3) uploader).queue ≡ drop (2 * 1) (messages uploader.queue)
rejections_drain_example =
    rejections_drain cfg refuse refuse-Rejects 2 uploader uploader-queue-IsValid refl
