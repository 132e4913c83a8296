-- ===== src/Client/Trace.antt =====
-- pkg/client/client.go: the steps of the client's goroutines, in any order. A run is a list of
-- calls; those orders that the program cannot take are among them too.
use opusref.Base.{
  ℕ, ◌+◌, ◌%◌, ◌≤◌, ◌<◌, ◌≡◌, ◌⊎◌, List, [], ◌∷◌, Bool, true, false, Option, none, some, has,
  length, ok, if◌then◌else◌, capacity, u64_mod, arith, length-append, length-drop,
}
use opusref.Client.Types.{
  ClientError, application_backpressure, control_backpressure, Outbound, Event, Options, Client,
}
use opusref.Client.Queue.{
  new_client, connected_event, fail, publish, is_required, publish_event, connect_begin,
  connect_finish, request_begin, request_refused, request_finish, acquire_control, release_control,
  enqueue_media, send_audio, send_data,
}
use opusref.Client.Sending.{
  end_begin, end_refused, end_finish, run_take, run_sent, revoke, close_begin, close_finish,
  remote_close,
}

pub data Call : Type 0 where
  connect_begun request_refusal end_begun end_refusal end_done take_frame close_begun : Call
  connect_done frame_sent close_ended remote_closed : Option ClientError → Call
  request_begun : List ℕ → Call
  request_done : Outbound → Option ClientError → Call
  control_acquired : Outbound → Call
  audio_sent : ℕ → List ℕ → Call
  data_sent : ℕ → ℕ → List ℕ → Call
  event_published : Event → Call
  stream_revoked : ℕ → Call

unfoldable pub step : Client → Call → Client
step c connect_begun = (connect_begin c).0
step c (connect_done e) = (connect_finish c e).0
step c (request_begun source) = (request_begin c source).0
step c (request_done out e) = (request_finish c out e).0
step c request_refusal = request_refused c
step c (control_acquired out) = (acquire_control c out).0
step c (audio_sent timestamp payload) = (send_audio c timestamp payload).0
step c (data_sent timestamp typ payload) = (send_data c timestamp typ payload).0
step c end_begun = (end_begin c).0
step c end_refusal = end_refused c
step c end_done = end_finish c
step c take_frame = run_take c
step c (frame_sent e) = run_sent c e
step c (event_published event) = (publish_event c event).0
step c (stream_revoked stream) = (revoke c stream).0
step c close_begun = (close_begin c).0
step c (close_ended e) = close_finish c e
step c (remote_closed e) = remote_close c e

unfoldable pub run : Client → List Call → Client
run c [] = c
run c (call ∷ calls) = run (step c call) calls

abbrev pub in_flight_count : Option Outbound → ℕ
in_flight_count none = 0
in_flight_count (some out) = 1

-- What holds of a client between two steps: the queues keep within their capacities, each frame
-- that was accepted is sent, in flight or queued, and `done` is closed when and only when the
-- client has failed or a Close is through.
pub record ClientInv (c : Client) : Type 0 where
  pub events_bound : length c.events ≤ capacity c.options.application_queue_events
  pub media_bound : length c.media ≤ capacity c.options.media_send_queue_frames
  pub control_bound : length c.control ≤ capacity c.options.control_send_queue_packets
  pub accepted_fits : c.media_accepted < u64_mod
  pub counts :
      (c.media_sent + in_flight_count c.in_flight + length c.media) % u64_mod ≡ c.media_accepted
  pub terminal_done : has c.terminal ≡ true → c.done ≡ true
  pub close_done_done : c.close_done ≡ true → c.done ≡ true
  pub done_reason : c.done ≡ true → (has c.terminal ≡ true) ⊎ (c.close_done ≡ true)

fail-ClientInv : (c : Client) (reason : ClientError) → ClientInv c → ClientInv (fail c reason)
unfolding fail
fail-ClientInv c reason v = ground (arith, v.counts)

publish-ClientInv :
    (c : Client) (event : Event) (required : Bool)
    → ClientInv c
    → ClientInv (publish c event required).0
unfolding publish
publish-ClientInv c event required v = ground (
  arith,
  v.counts,
  fail-ClientInv c application_backpressure v,
  length-append c.events (event ∷ []),
)

acquire_control-ClientInv :
    (c : Client) (out : Outbound) → ClientInv c → ClientInv (acquire_control c out).0
unfolding acquire_control
acquire_control-ClientInv c out v =
    ground
      (arith, v.counts, fail-ClientInv c control_backpressure v, length-append c.control (out ∷ []))

enqueue_media-ClientInv :
    (c : Client) (out : Outbound) → ClientInv c → ClientInv (enqueue_media c out).0
unfolding enqueue_media
enqueue_media-ClientInv c out v = ground (
  arith,
  v.counts,
  length-append c.media (record out { stream_id = c.stream_id; sequence = c.sequence } ∷ []),
)

connect_finish-ClientInv :
    (c : Client) (e : Option ClientError) → ClientInv c → ClientInv (connect_finish c e).0
unfolding connect_finish
connect_finish-ClientInv c (some e) v = ground (arith, v.counts)
connect_finish-ClientInv c none v =
    let before : ClientInv (record c { connected = true }) = ground (arith, v.counts) in
    let after = publish-ClientInv (record c { connected = true }) connected_event true before in
    ground (arith, after.counts)

request_finish-ClientInv :
    (c : Client) (out : Outbound) (e : Option ClientError)
    → ClientInv c
    → ClientInv (request_finish c out e).0
unfolding request_finish release_control
request_finish-ClientInv c out (some e) v = ground (arith, v.counts, length-drop 1 c.control)
request_finish-ClientInv c out none v = ground (arith, v.counts, length-drop 1 c.control)

run_take-ClientInv : (c : Client) → ClientInv c → ClientInv (run_take c)
unfolding run_take
run_take-ClientInv c v = ground (arith, v.counts)

run_sent-ClientInv : (c : Client) (e : Option ClientError) → ClientInv c → ClientInv (run_sent c e)
unfolding run_sent
run_sent-ClientInv c (some e) v = fail-ClientInv c e v
run_sent-ClientInv c none v = ground (arith, v.counts)

remote_close-ClientInv :
    (c : Client) (e : Option ClientError) → ClientInv c → ClientInv (remote_close c e)
unfolding remote_close close_finish
remote_close-ClientInv c e v = ground (arith, v.counts)

if-ClientInv :
    (test : Bool) (a b : Client × Option ClientError)
    → ClientInv a.0
    → ClientInv b.0
    → ClientInv (if test then a else b).0
if-ClientInv true a b v w = v
if-ClientInv false a b v w = w

-- Every step keeps it.
step-ClientInv : (c : Client) (call : Call) → ClientInv c → ClientInv (step c call)
unfolding step connect_begin request_begin request_refused send_audio send_data end_begin
    end_refused end_finish release_control publish_event revoke close_begin close_finish
step-ClientInv c connect_begun v = ground (arith, v.counts)
step-ClientInv c (connect_done e) v = connect_finish-ClientInv c e v
step-ClientInv c (request_begun source) v = ground (arith, v.counts)
step-ClientInv c (request_done out e) v = request_finish-ClientInv c out e v
step-ClientInv c request_refusal v = ground (arith, v.counts)
step-ClientInv c (control_acquired out) v = acquire_control-ClientInv c out v
step-ClientInv c (audio_sent timestamp payload) v =
    if-ClientInv _ _ _ v (enqueue_media-ClientInv c _ v)
step-ClientInv c (data_sent timestamp typ payload) v =
    if-ClientInv _ _ _ v (enqueue_media-ClientInv c _ v)
step-ClientInv c end_begun v = ground (arith, v.counts)
step-ClientInv c end_refusal v = ground (arith, v.counts)
step-ClientInv c end_done v = ground (arith, v.counts, length-drop 1 c.control)
step-ClientInv c take_frame v = run_take-ClientInv c v
step-ClientInv c (frame_sent e) v = run_sent-ClientInv c e v
step-ClientInv c (event_published event) v = publish-ClientInv c event (is_required event.kind) v
step-ClientInv c (stream_revoked stream) v = ground (arith, v.counts)
step-ClientInv c close_begun v = ground (arith, v.counts)
step-ClientInv c (close_ended e) v = ground (arith, v.counts)
step-ClientInv c (remote_closed e) v = remote_close-ClientInv c e v

run-ClientInv : (c : Client) (calls : List Call) → ClientInv c → ClientInv (run c calls)
unfolding run
run-ClientInv c [] v = v
run-ClientInv c (call ∷ calls) v = run-ClientInv (step c call) calls (step-ClientInv c call v)

pub run-new_client-ClientInv :
    (o : Options) {c : Client} (calls : List Call) → new_client o ≡ ok c → ClientInv (run c calls)
unfolding new_client
run-new_client-ClientInv o {c} calls h = run-ClientInv c calls (ground (arith, h))
