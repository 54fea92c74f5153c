-- ===== src/Backend/Sse.antt =====
-- `sse_event_stream` of backend/app/routers/stream.py: the frames that a client gets. What Redis and
-- the connection do is a list of turns of the loop; a message is the text of its data, of which
-- `json.loads` makes an object or raises. A message that has no id of its own gets one of the clock
-- when it is delivered. The buffer is that of lib/sse_buffer.py, whose payloads `loads` reads.
pub mod Frames
use itdashboard.Prelude.{
  ℕ, ◌+◌, String, Bool, true, false, not, ◌&&◌, Option, none, some, List, [], ◌∷◌, ◌++◌, leb,
  if◌then◌else◌,
}
use itdashboard.Text.{truthy, concat, decimal}
use itdashboard.Backend.Stream.{
  Message, passes_filter, BufferedEvent, SseReplayBuffer, add, events_since,
}

-- What a client asks for.
pub record Request : Type 0 where
  pub requested_pids : Option (List String)
  pub kind_filter : Option (List String)
  pub min_severity : Option String
  pub last_event_id : Option String

-- A message as it is read: its filtered fields, and its id, if it has one.
pub record Read : Type 0 where
  pub message : Message
  pub event_id : Option String

-- A turn of the loop: nothing came within a second, something that is no message of a channel, or
-- a message, with the clock's milliseconds as its id is made, and its seconds as it is buffered.
pub data Turn : Type 0 where
  idle other : Turn
  got : (raw : String) (millis at : ℕ) → Turn

-- `data.get(key, default)`
abbrev pub or_given : Option String → String → String
or_given none default = default
or_given (some s) default = s

-- `f"evt_{int(time.time() * 1000)}"`
unfoldable pub clock_id : ℕ → String
unfolding concat decimal
clock_id millis = concat ("evt_" ∷ decimal millis ∷ [])

pub data Frame : Type 0 where
  connected keepalive : Frame
  event : String → String → String → Frame

module _ (loads : String → Option Read) (req : Request) where
  abbrev pub passes : Read → Bool
  passes r = passes_filter req.requested_pids req.kind_filter req.min_severity r.message

  abbrev pub buffered : Read → String → ℕ → ℕ → BufferedEvent
  buffered r raw millis at = record {
    event_id = or_given r.event_id (clock_id millis);
    event_kind = or_given r.message.event_kind "message";
    property_id = or_given r.message.property_id "";
    payload = raw;
    at = at;
  }

  -- A payload of the buffer was read when it was added.
  abbrev pub replayed_one : BufferedEvent → Option Read → List Frame → List Frame
  replayed_one e none rest = rest
  replayed_one e (some r) rest =
      if passes r then event e.event_id e.event_kind e.payload ∷ rest else rest

  unfoldable pub replay : List BufferedEvent → List Frame
  unfolding passes_filter
  replay [] = []
  replay (e ∷ rest) = replayed_one e (loads e.payload) (replay rest)

  abbrev pub replay_from : Option String → SseReplayBuffer → List Frame
  replay_from none b = []
  replay_from (some id) b =
      let missed = replay (events_since id b) in if truthy id then missed else []

  -- What a message is to a run of the loop: what follows if it is skipped, and if it is sent.
  abbrev pub delivered :
      Option Read
      → String
      → ℕ
      → List Frame × SseReplayBuffer
      → (Read → List Frame × SseReplayBuffer)
      → List Frame × SseReplayBuffer
  delivered none raw millis skipped next = skipped
  delivered (some r) raw millis skipped next =
      let (frames, b') = next r in
      let id = or_given r.event_id (clock_id millis) in
      let kind = or_given r.message.event_kind "message" in
      if passes r then (event id kind raw ∷ frames, b') else skipped

  -- The loop, from the number of idle turns and the buffer: the frames, and the buffer.
  unfoldable pub turns : ℕ → SseReplayBuffer → List Turn → List Frame × SseReplayBuffer
  unfolding passes_filter add clock_id
  turns n b [] = ([], b)
  turns n b (idle ∷ rest) =
      let (alive, b') = turns 0 b rest in
      let quiet = turns (n + 1) b rest in if leb 15 (n + 1) then (keepalive ∷ alive, b') else quiet
  turns n b (other ∷ rest) = turns n b rest
  turns n b (got raw millis at ∷ rest) =
      delivered (loads raw) raw millis (turns n b rest)
        (λ r. turns 0 (add at (buffered r raw millis at) b) rest)

  unfoldable pub sse_event_stream : SseReplayBuffer → List Turn → List Frame × SseReplayBuffer
  unfolding replay turns events_since
  sse_event_stream b l =
      let (frames, b') = turns 0 b l in (replay_from req.last_event_id b ++ connected ∷ frames, b')
