-- ===== src/Client/Sending.antt =====
-- pkg/client/client.go: the end of a stream, the goroutine run and the end of the client. Methods are
-- cut as in Client/Queue.antt.
use opusref.Base.{
  ℕ, ◌+◌, ◌%◌, [], ◌∷◌, Bool, true, false, not, ◌&&◌, ◌||◌, ◌==◌, leb, if◌then◌else◌, Option, none,
  some, has, Result, ok, err, u64_mod,
}
use opusref.Client.Types.{ClientError, stream_inactive, event_stream_end, Outbound, Client}
use opusref.Client.Queue.{fail, release_control}

abbrev pub end_request : Client → Outbound
end_request c = record {
  kind = event_stream_end;
  stream_id = c.stream_id;
  sequence = c.sequence;
  timestamp = c.last_timestamp;
  data_type = 0;
  source_callsign = [];
  payload = [];
}

-- EndStream up to waitMedia: the request to send and the count to wait for.
unfoldable pub end_begin : Client → Client × Result ClientError (Outbound × ℕ)
end_begin c =
    if not c.stream
    then (c, err stream_inactive)
    else (record c { stream = false; ending = true }, ok (end_request c, c.media_accepted))

-- A round of waitMedia, `cancelled` being the error of the context if that is done: `some none` is
-- that it returns nil, `none` that it waits on. A closed `done` lets it return Err(), which is nil
-- after Close; where the context is done too, Go may take either.
unfoldable pub wait_media : Client → ℕ → Option ClientError → Option (Option ClientError)
wait_media c target cancelled =
    if leb target c.media_sent
    then some none
    else if has c.terminal || c.done
    then some c.terminal
    else elim cancelled [ none ↦ none | some e ↦ some (some e) ]

-- The rest of EndStream where waitMedia or acquireControl fails.
unfoldable pub end_refused : Client → Client
end_refused c = record c { ending = false }

-- The rest of EndStream, behind EndFloor.
unfoldable pub end_finish : Client → Client
end_finish c = record (release_control c) { ending = false }

-- run: takes the oldest frame. Where `done` is closed as well, Go may take either, so that this
-- may not happen then.
unfoldable pub run_take : Client → Client
run_take c = elim c.media [
  | [] ↦ c
  | out ∷ rest ↦ if has c.in_flight then c else record c { media = rest; in_flight = some out }
]

-- run: what follows the Send of that frame, with its error. After an error the goroutine is over
-- and the frame stays where it was.
unfoldable pub run_sent : Client → Option ClientError → Client
run_sent c (some e) = fail c e
run_sent c none = elim c.in_flight [
  | none ↦ c
  | some out ↦ record c { in_flight = none; media_sent = (c.media_sent + 1) % u64_mod }
]

unfoldable pub revoke : Client → ℕ → Client × Bool
revoke c stream =
    if not c.stream || not (c.stream_id == stream)
    then (c, false)
    else (record c { stream = false }, true)

-- closeContext up to the calls of the sender: `none` is that another Close is at work already,
-- `some connected` that this one goes on, and tells the server where it is connected.
unfoldable pub close_begin : Client → Client × Option Bool
close_begin c = if c.close_called then (c, none) else (
  record c { close_called = true; connected = false; stream = false },
  some (c.connected && not (has c.terminal)),
)

-- The rest of closeContext, from its call of the sender's Close on, with the errors joined.
unfoldable pub close_finish : Client → Option ClientError → Client
close_finish c result = record c {
  close_result = result;
  done = true;
  close_done = true;
  sender_closes = c.sender_closes + 1;
}

unfoldable pub remote_close : Client → Option ClientError → Client
remote_close c result =
    if c.close_called
    then c
    else close_finish (record c { close_called = true; connected = false; stream = false }) result
