-- ===== src/Client/Order.antt =====
-- pkg/client/client.go: the order in which frames leave the media queue.
use opusref.Base.{
  ◌≡◌, refl, List, [], ◌∷◌, ◌++◌, none, some, has, if◌then◌else◌, ok, arith, append_assoc,
  append-nil, ap, ◌∙◌, sym,
}
use opusref.Client.Types.{ClientError, event_audio, event_data, Outbound, Options, Client}
use opusref.Client.Queue.{
  new_client, fail, publish, publish_event, connect_begin, connect_finish, request_begin,
  request_refused, request_finish, acquire_control, release_control, media_frame, enqueue_media,
  send_audio, send_data,
}
use opusref.Client.Sending.{
  end_begin, end_refused, end_finish, run_take, run_sent, revoke, close_begin, close_finish,
  remote_close,
}
use opusref.Client.Trace.{
  Call, connect_begun, request_refusal, end_begun, end_refusal, end_done, take_frame, close_begun,
  connect_done, frame_sent, close_ended, remote_closed, request_begun, request_done,
  control_acquired, audio_sent, data_sent, event_published, stream_revoked, step, run,
}

-- A frame with the numbers that the client has for it now.
abbrev numbered : Client → Outbound → Outbound
numbered c out = record out { stream_id = c.stream_id; sequence = c.sequence }

-- The frames that the application hands over in a step, where SendAudio or SendData returns nil.
unfoldable pub accepted : Client → Call → List Outbound
accepted c (audio_sent timestamp payload) =
    if has (send_audio c timestamp payload).1
    then []
    else numbered c (media_frame event_audio timestamp 0 payload) ∷ []
accepted c (data_sent timestamp typ payload) =
    if has (send_data c timestamp typ payload).1
    then []
    else numbered c (media_frame event_data timestamp typ payload) ∷ []
accepted c _ = []

-- The frame that run takes to the sender in a step.
unfoldable pub taken : Client → Call → List Outbound
taken c take_frame = elim c.media [
  | [] ↦ []
  | out ∷ rest ↦ if has c.in_flight then [] else out ∷ []
]
taken c _ = []

-- Those of a run.
unfoldable pub all_accepted : Client → List Call → List Outbound
all_accepted c [] = []
all_accepted c (call ∷ calls) = accepted c call ++ all_accepted (step c call) calls

unfoldable pub all_taken : Client → List Call → List Outbound
all_taken c [] = []
all_taken c (call ∷ calls) = taken c call ++ all_taken (step c call) calls

-- `same` where a step leaves the queue alone.
unchanged : {xs ys : List Outbound} → xs ≡ ys → xs ++ [] ≡ [] ++ ys
unchanged e = append-nil _ ∙ e

fail-media : (c : Client) (e : ClientError) → (fail c e).media ≡ c.media
unfolding fail
fail-media c e = refl

step-media :
    (c : Client) (call : Call) → c.media ++ accepted c call ≡ taken c call ++ (step c call).media
unfolding step accepted taken connect_begin connect_finish request_begin request_finish
    request_refused acquire_control release_control enqueue_media send_audio send_data end_begin
    end_refused end_finish run_take run_sent publish_event publish fail revoke close_begin
    close_finish remote_close
step-media c connect_begun = unchanged (ground arith)
step-media c (connect_done none) = unchanged (ground arith)
step-media c (connect_done (some e)) = unchanged refl
step-media c (request_begun source) = unchanged (ground arith)
step-media c (request_done out none) = unchanged refl
step-media c (request_done out (some e)) = unchanged refl
step-media c request_refusal = unchanged refl
step-media c (control_acquired out) = unchanged (ground arith)
step-media c (audio_sent timestamp payload) = ground (arith, append-nil c.media)
step-media c (data_sent timestamp typ payload) = ground (arith, append-nil c.media)
step-media c end_begun = unchanged (ground arith)
step-media c end_refusal = unchanged refl
step-media c end_done = unchanged refl
step-media c take_frame = ground (arith, append-nil c.media)
step-media c (frame_sent none) = unchanged (ground arith)
step-media c (frame_sent (some e)) = unchanged refl
step-media c (event_published event) = unchanged (ground arith)
step-media c (stream_revoked stream) = unchanged (ground arith)
step-media c close_begun = unchanged (ground arith)
step-media c (close_ended e) = unchanged refl
step-media c (remote_closed e) = unchanged (ground arith)

run-media :
    (c : Client) (calls : List Call)
    → c.media ++ all_accepted c calls ≡ all_taken c calls ++ (run c calls).media
unfolding run all_accepted all_taken
run-media c [] = append-nil c.media
run-media c (call ∷ calls) =
    sym (append_assoc c.media (accepted c call) _)
    ∙ ap (λ x. x ++ all_accepted (step c call) calls) (step-media c call)
    ∙ append_assoc (taken c call) _ _
    ∙ ap (◌++◌ (taken c call)) (run-media (step c call) calls)
    ∙ sym (append_assoc (taken c call) _ _)

pub run-new_client-media :
    (o : Options) {c : Client} (calls : List Call)
    → new_client o ≡ ok c
    → all_accepted c calls ≡ all_taken c calls ++ (run c calls).media
unfolding new_client
run-new_client-media o {c} calls h =
    let empty : c.media ≡ [] = ground (arith, h) in
    ap (λ x. x ++ all_accepted c calls) (sym empty) ∙ run-media c calls
