-- ===== src/Client/Examples.antt =====
-- The client's theorems on a client that connects, asks for a stream and speaks.
use opusref.Base.{ℕ, ◌≡◌, ◌≢◌, refl, List, [], ◌∷◌, ◌++◌, none, some, ok, pos, true, ◌+◌, arith}
use opusref.Engine.Types.{Floor}
use opusref.Engine.Ops.{new_floor}
use opusref.Engine.Release.{end_matches}
use opusref.Client.Types.{
  event_stream_start, event_audio, Outbound, Options, defaults, positive_capacities,
  positive_timeouts,
}
use opusref.Client.Queue.{fresh, new_client, request_finish}
use opusref.Client.Sending.{end_request, end_begin}
use opusref.Client.Numbering.{speak, hear, speak-hear}
use opusref.Client.Trace.{
  Call, connect_begun, connect_done, request_begun, control_acquired, request_done, audio_sent,
  take_frame, run, ClientInv, run-new_client-ClientInv,
}
use opusref.Client.Order.{all_accepted, all_taken, run-new_client-media}

-- Two frames fit into the media queue.
abbrev options : Options
options = record {
  server_address = b'h' ∷ [];
  node_callsign = b'N' ∷ [];
  shared_key = [];
  inbound_queue_packets = pos 0;
  application_queue_events = pos 0;
  media_send_queue_frames = pos 2;
  control_send_queue_packets = pos 0;
  connect_timeout = pos 0;
  operation_timeout = pos 0;
}

new_client-options : new_client options ≡ ok (fresh (defaults options))
unfolding new_client defaults positive_capacities positive_timeouts
new_client-options = refl

abbrev start : Outbound
start = record {
  kind = event_stream_start;
  stream_id = 1;
  sequence = 0;
  timestamp = 0;
  data_type = 0;
  source_callsign = b'S' ∷ [];
  payload = [];
}

abbrev frame : ℕ → Outbound
frame timestamp = record start { kind = event_audio; timestamp = timestamp; payload = 7 ∷ [] }

-- The third frame finds the queue full.
abbrev frames : List Outbound
frames = frame 960 ∷ frame 1920 ∷ frame 2880 ∷ []

positive_clock : (i : ℕ) → 4 + i ≢ 0
positive_clock i e = omega arith

speak-hear_example :
    let (c', sent) = speak (request_finish (fresh (defaults options)) start none).0 frames in
    (f : Floor) × (hear (new_floor 3 5 1 (b'S' ∷ [])) (λ i. 4 + i) 0 sent ≡ some f)
    × ((end_begin c').1 ≡ ok (end_request c', c'.media_accepted))
    × (f.stream ≡ (end_request c').stream_id)
    × (end_matches f (end_request c').sequence (end_request c').timestamp ≡ true)
speak-hear_example =
    speak-hear (fresh (defaults options)) start 3 5 (b'S' ∷ []) (λ i. 4 + i) frames positive_clock

abbrev calls : List Call
calls =
    connect_begun
    ∷ connect_done none
    ∷ request_begun (b'S' ∷ [])
    ∷ control_acquired start
    ∷ request_done start none
    ∷ audio_sent 960 (7 ∷ [])
    ∷ audio_sent 1920 (8 ∷ [])
    ∷ take_frame
    ∷ []

run-new_client-ClientInv_example : ClientInv (run (fresh (defaults options)) calls)
run-new_client-ClientInv_example = run-new_client-ClientInv options calls new_client-options

run-new_client-media_example :
    all_accepted (fresh (defaults options)) calls
    ≡ all_taken (fresh (defaults options)) calls ++ (run (fresh (defaults options)) calls).media
run-new_client-media_example = run-new_client-media options calls new_client-options
