-- ===== src/Tests/Sse.antt =====
-- The frames of a stream that two messages reach, of which one passes, and a tag that is sent back.
use itdashboard.Prelude.{
  ◌≡◌, ◌↔◌, refl, String, false, Option, none, some, List, [], ◌∷◌, ◌++◌, inl,
}
use itdashboard.Backend.Stream.{SseReplayBuffer}
use itdashboard.Backend.Sse.{
  Request, Read, Turn, idle, got, Frame, connected, event, replay_from, sse_event_stream,
}
use itdashboard.Backend.Sse.Frames.{Delivers, sse_event_stream_lem}
use itdashboard.Backend.Http.{Response, get_provider_id, etag_of, dispatch}
use itdashboard.Backend.Http.Cached.{dispatch_lem}

-- A message says its property.
abbrev loads : String → Option Read
loads raw = some (record {
  message = record {
    event_kind = some "alert.opened";
    property_id = some raw;
    severity = some "p1";
  };
  event_id = none;
})

abbrev asked : Request
asked = record {
  requested_pids = some ("hotel" ∷ []);
  kind_filter = none;
  min_severity = none;
  last_event_id = none;
}

abbrev buffer : SseReplayBuffer
buffer = record { events = []; window = 300 }

abbrev happened : List Turn
happened = got "inn" 5000 5 ∷ idle ∷ got "hotel" 7001 7 ∷ got "hotel" 7002 7 ∷ []

stream_test :
    (sse_event_stream loads asked buffer happened).0
    ≡ connected
      ∷ event "evt_7001" "alert.opened" "hotel"
      ∷ event "evt_7002" "alert.opened" "hotel"
      ∷ []
unfolding sse_event_stream
stream_test = refl

-- The client was away while a message came: nobody put it into the buffer, and it is not replayed.
away_test :
    (sse_event_stream loads
      (record asked { last_event_id = some "evt_7002" })
      (sse_event_stream loads asked buffer happened).1
      []).0
    ≡ connected ∷ []
unfolding sse_event_stream
away_test = refl

sse_event_stream_lem_example :
    (let r = sse_event_stream loads asked buffer happened in
      (frames : List Frame) × (r.0 ≡ replay_from loads asked none buffer ++ connected ∷ frames)
      × Delivers loads asked 0 buffer happened (frames, r.1))
sse_event_stream_lem_example = sse_event_stream_lem loads asked buffer happened

abbrev digest : String → String
digest s = s

abbrev answer_of : String → Response
answer_of body = record {
  status_code = 200;
  is_stream = false;
  body = body;
  etag = none;
  cache_control = none;
}

provider_test :
    get_provider_id (some "")
    ≡ inl (record {
      code = "AUTH_REQUIRED";
      message = "X-Provider-Id header is required";
      status_code = 401;
      retryable = false;
    })
unfolding get_provider_id
provider_test = refl

dispatch_lem_example :
    (let first = dispatch digest "GET" "/v1/estate" none (answer_of "a") in
      let again = dispatch digest "GET" "/v1/estate" first.etag (answer_of "b") in
      (first.body ≡ "a")
      × ((again.status_code ≡ 304) ↔ (etag_of digest "a" ≡ etag_of digest "b"))
      × (again.status_code ≡ 200 → again.body ≡ "b"))
dispatch_lem_example =
    dispatch_lem digest "GET" "/v1/estate" (answer_of "a") (answer_of "b") refl refl
