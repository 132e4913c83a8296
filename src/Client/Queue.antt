-- ===== src/Client/Queue.antt =====
-- pkg/client/client.go, the methods, for a sender that has all the optional methods, as the UDP
-- sender has. A method that calls the sender or waits in between is cut there: each function is
-- one stretch of code between two such places, taken as one step, and is given the outcome of the
-- call before it.
use opusref.Base.{
  ℕ, ◌+◌, ◌%◌, List, [], ◌∷◌, ◌++◌, Bool, true, false, not, ◌||◌, ◌==◌, ltb, if◌then◌else◌, length,
  drop, Option, none, some, has, Result, ok, err, ◌>>◌, guard, u32_mod, u64_mod, capacity,
}
use opusref.Client.Types.{
  ClientError, backpressure, application_backpressure, control_backpressure, not_connected,
  stream_inactive, connect_in_progress, source_required, request_active, invalid_audio,
  invalid_data, invalid_capacity, invalid_timeout, address_required, EventKind, event_stream_start,
  event_audio, event_data, event_status, Event, Outbound, Options, defaults, positive_capacities,
  positive_timeouts, Client,
}

abbrev pub fresh : Options → Client
fresh o = record {
  options = o;
  events = [];
  media = [];
  in_flight = none;
  control = [];
  done = false;
  connected = false;
  connecting = false;
  stream = false;
  ending = false;
  requesting = false;
  stream_id = 0;
  sequence = 0;
  last_timestamp = 0;
  media_accepted = 0;
  media_sent = 0;
  terminal = none;
  close_result = none;
  close_called = false;
  close_done = false;
  sender_closes = 0;
}

-- New, with a sender that is not nil.
unfoldable pub new_client : Options → Result ClientError Client
new_client options = do
  let o = defaults options
  guard (positive_capacities o) invalid_capacity
  guard (positive_timeouts o) invalid_timeout
  guard (not (length o.server_address == 0 || length o.node_callsign == 0)) address_required
  ok (fresh o)

unfoldable pub fail : Client → ClientError → Client
fail c reason = record c {
  terminal = if has c.terminal then c.terminal else some reason;
  connected = false;
  stream = false;
  done = true;
  sender_closes = c.sender_closes + 1;
}

unfoldable pub publish : Client → Event → Bool → Client × Option ClientError
publish c event required =
    if ltb (length c.events) (capacity c.options.application_queue_events)
    then (record c { events = c.events ++ (event ∷ []) }, none)
    else if required
    then (fail c application_backpressure, some application_backpressure)
    else (c, none)

-- Whether an event of this kind must reach the application.
unfoldable pub is_required : EventKind → Bool
is_required event_audio = false
is_required event_data = false
is_required _ = true

unfoldable pub publish_event : Client → Event → Client × Option ClientError
publish_event c event = publish c event (is_required event.kind)

-- Connect up to its call of Send, which follows where the result is `some true`; with
-- `some false` there is nothing to do.
unfoldable pub connect_begin : Client → Client × Result ClientError Bool
connect_begin c =
    if c.connected
    then (c, ok false)
    else if c.connecting
    then (c, err connect_in_progress)
    else (record c { connecting = true }, ok true)

abbrev pub connected_event : Event
connected_event = record {
  kind = event_status;
  session_id = 0;
  stream_id = 0;
  sequence = 0;
  timestamp = 0;
  data_type = 0;
  node_callsign = [];
  source_callsign = [];
  payload = [];
  protocol_error_code = 0;
  message = b'c' ∷ b'o' ∷ b'n' ∷ b'n' ∷ b'e' ∷ b'c' ∷ b't' ∷ b'e' ∷ b'd' ∷ [];
}

-- The rest of Connect, with the error of Send.
unfoldable pub connect_finish : Client → Option ClientError → Client × Option ClientError
connect_finish c (some e) = (record c { connecting = false }, some e)
connect_finish c none =
    let (c', e) = publish (record c { connected = true }) connected_event true in
    (record c' { connecting = false }, e)

-- `c.streamID + 1` on uint32, and 1 after the last.
unfoldable pub next_stream : ℕ → ℕ
next_stream stream_id = let next = (stream_id + 1) % u32_mod in if next == 0 then 1 else next

-- requestStream up to its second lock.
unfoldable pub request_begin : Client → List ℕ → Client × Result ClientError Outbound
request_begin c source =
    if not c.connected
    then (c, err not_connected)
    else if length source == 0
    then (c, err source_required)
    else if c.stream || c.requesting || c.ending
    then (c, err request_active)
    else (
      record c { requesting = true },
      ok (record {
        kind = event_stream_start;
        stream_id = next_stream c.stream_id;
        sequence = 0;
        timestamp = 0;
        data_type = 0;
        source_callsign = source;
        payload = [];
      }),
    )

unfoldable pub acquire_control : Client → Outbound → Client × Option ClientError
acquire_control c out =
    if ltb (length c.control) (capacity c.options.control_send_queue_packets)
    then (record c { control = c.control ++ (out ∷ []) }, none)
    else (fail c control_backpressure, some control_backpressure)

unfoldable pub release_control : Client → Client
release_control c = record c { control = drop 1 c.control }

-- The rest of requestStream, with the error of acquireControl.
unfoldable pub request_refused : Client → Client
request_refused c = record c { requesting = false }

-- The rest of requestStream, with the error of RequestFloor.
unfoldable pub request_finish : Client → Outbound → Option ClientError → Client × Option ClientError
request_finish c out (some e) = (record (release_control c) { requesting = false }, some e)
request_finish c out none = (
  record (release_control c) {
    stream_id = out.stream_id;
    sequence = 0;
    last_timestamp = 0;
    stream = true;
    requesting = false;
  },
  none,
)

unfoldable pub enqueue_media : Client → Outbound → Client × Option ClientError
enqueue_media c out =
    if not c.stream
    then (c, some stream_inactive)
    else if ltb (length c.media) (capacity c.options.media_send_queue_frames)
    then (
      record c {
        media = c.media ++ (record out { stream_id = c.stream_id; sequence = c.sequence } ∷ []);
        sequence = (c.sequence + 1) % u32_mod;
        last_timestamp = out.timestamp;
        media_accepted = (c.media_accepted + 1) % u64_mod;
      },
      none,
    )
    else (c, some backpressure)

abbrev pub media_frame : EventKind → ℕ → ℕ → List ℕ → Outbound
media_frame kind timestamp typ payload = record {
  kind = kind;
  stream_id = 0;
  sequence = 0;
  timestamp = timestamp;
  data_type = typ;
  source_callsign = [];
  payload = payload;
}

unfoldable pub send_audio : Client → ℕ → List ℕ → Client × Option ClientError
send_audio c timestamp payload =
    if ltb (length payload) 1 || ltb 1168 (length payload)
    then (c, some invalid_audio)
    else enqueue_media c (media_frame event_audio timestamp 0 payload)

unfoldable pub send_data : Client → ℕ → ℕ → List ℕ → Client × Option ClientError
send_data c timestamp typ payload =
    if typ == 0 || ltb (length payload) 1 || ltb 1160 (length payload)
    then (c, some invalid_data)
    else enqueue_media c (media_frame event_data timestamp typ payload)
