-- ===== src/Backend/Sse/Frames.antt =====
-- The frames of a stream are the messages that pass, and what its buffer keeps.
use itdashboard.Prelude.{
  ℕ, suc, ◌+◌, ◌*◌, ◌≤◌, ◌≡◌, refl, ap, String, Option, none, some, List, [], ◌∷◌, ◌++◌, arith, leb,
  if◌then◌else◌, inl, inr, Bool-cases,
}
use itdashboard.Backend.Stream.{SseReplayBuffer, BufferedEvent, add}
use itdashboard.Backend.Stream.Replay.{add_all}
use itdashboard.Backend.Sse.{
  delivered, Request, Read, Turn, idle, other, got, Frame, connected, keepalive, event, passes,
  buffered, replay_from, turns, sse_event_stream, or_given, clock_id,
}

-- The events that a client gets, in order.
abbrev pub events_of : List Frame → List (String × String × String)
events_of [] = []
events_of (connected ∷ rest) = events_of rest
events_of (keepalive ∷ rest) = events_of rest
events_of (event id kind data_ ∷ rest) = (id, kind, data_) ∷ events_of rest

abbrev pub keepalives : List Frame → ℕ
keepalives [] = 0
keepalives (keepalive ∷ rest) = suc (keepalives rest)
keepalives (connected ∷ rest) = keepalives rest
keepalives (event id kind data_ ∷ rest) = keepalives rest

abbrev pub idles : List Turn → ℕ
idles [] = 0
idles (idle ∷ rest) = suc (idles rest)
idles (other ∷ rest) = idles rest
idles (got raw millis at ∷ rest) = idles rest

module _ (loads : String → Option Read) (req : Request) where
  abbrev pub and_passing :
      Option Read → String → ℕ → ℕ → List (ℕ × BufferedEvent) → List (ℕ × BufferedEvent)
  and_passing none raw millis at rest = rest
  and_passing (some r) raw millis at rest =
      if passes loads req r then (at, buffered loads req r raw millis at) ∷ rest else rest

  -- The messages that can be read and pass the filter, with their times.
  abbrev pub passing : List Turn → List (ℕ × BufferedEvent)
  passing [] = []
  passing (idle ∷ rest) = passing rest
  passing (other ∷ rest) = passing rest
  passing (got raw millis at ∷ rest) = and_passing (loads raw) raw millis at (passing rest)

  abbrev pub sent : List (ℕ × BufferedEvent) → List (String × String × String)
  sent [] = []
  sent ((at, e) ∷ rest) = (e.event_id, e.event_kind, e.payload) ∷ sent rest

  -- What comes of a list of passing messages.
  abbrev pub Sends :
      ℕ → SseReplayBuffer → List (ℕ × BufferedEvent) → ℕ → List Frame × SseReplayBuffer → Type 0
  Sends n b messages silent r =
      (events_of r.0 ≡ sent messages)
      × (r.1 ≡ add_all messages b)
      × (15 * keepalives r.0 ≤ n + silent)

  -- What a run of the loop makes of its turns, after `n` idle ones.
  abbrev pub Delivers : ℕ → SseReplayBuffer → List Turn → List Frame × SseReplayBuffer → Type 0
  Delivers n b l r = Sends n b (passing l) (idles l) r

  message-Sends :
      (n : ℕ) (b : SseReplayBuffer) (raw : String) (millis at : ℕ)
      (messages : List (ℕ × BufferedEvent)) (silent : ℕ) (o : Option Read)
      (skipped : List Frame × SseReplayBuffer) (next : Read → List Frame × SseReplayBuffer)
      → Sends n b messages silent skipped
      → ((r : Read)
          → Sends 0 (add at (buffered loads req r raw millis at) b) messages silent (next r))
      → Sends n b
          (and_passing o raw millis at messages)
          silent
          (delivered loads req o raw millis skipped next)
  message-Sends n b raw millis at messages silent none skipped next h k = h
  message-Sends n b raw millis at messages silent (some r) skipped next h k =
      elim (Bool-cases (passes loads req r)) [
        | inl p ↦
            let (events, buffer, quiet) = k r in
            rw p (
              ap
                  (◌∷◌ (
                    or_given r.event_id (clock_id millis),
                    or_given r.message.event_kind "message",
                    raw,
                  ))
                  events,
              buffer,
              omega (arith, quiet),
            )
        | inr p ↦ rw p h
      ]

  turns-Delivers :
      (n : ℕ) (b : SseReplayBuffer) (l : List Turn) → Delivers n b l (turns loads req n b l)
  unfolding turns
  turns-Delivers n b [] = (refl, refl, omega arith)
  turns-Delivers n b (idle ∷ rest) =
      let (events, buffer, k) = turns-Delivers 0 b rest in
      let (events', buffer', q) = turns-Delivers (n + 1) b rest in
      elim (Bool-cases (leb 15 (n + 1))) [
        | inl e ↦
            let due : 15 ≤ n + 1 = ground (arith, e) in rw e (events, buffer, omega (arith, k, due))
        | inr e ↦ rw e (events', buffer', omega (arith, q))
      ]
  turns-Delivers n b (other ∷ rest) = turns-Delivers n b rest
  turns-Delivers n b (got raw millis at ∷ rest) =
      message-Sends n b raw millis at (passing rest) (idles rest) (loads raw)
        (turns loads req n b rest)
        (λ r. turns loads req 0 (add at (buffered loads req r raw millis at) b) rest)
        (turns-Delivers n b rest)
        (λ r. turns-Delivers 0 (add at (buffered loads req r raw millis at) b) rest)

  -- A stream sends what is replayed, then that it is connected, and then as events exactly the
  -- messages that can be read and pass the filter, in order, each under its own id, or under one
  -- of the clock as it was delivered if it has none. It adds exactly these to the buffer, and
  -- sends at most one keepalive for every fifteen turns in which nothing came.
  pub sse_event_stream_lem :
      (b : SseReplayBuffer) (l : List Turn)
      → (let r = sse_event_stream loads req b l in
          (frames : List Frame) × (r.0
            ≡ replay_from loads req req.last_event_id b ++ connected ∷ frames)
          × Delivers 0 b l (frames, r.1))
  unfolding sse_event_stream
  sse_event_stream_lem b l = ((turns loads req 0 b l).0, refl, turns-Delivers 0 b l)
