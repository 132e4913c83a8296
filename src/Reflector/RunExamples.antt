-- ===== src/Reflector/RunExamples.antt =====
-- The reflector at work, at concrete packets.
use opusref.Base.{
  ℕ, suc, ◌≡◌, ◌+◌, refl, List, [], ◌∷◌, true, false, some, ok, err, arith, pos, IsBytes, lookup,
  insert, delete, ℕ-Key, inl, length, bytes_equal,
}
use opusref.Wire.Types.{malformed_packet}
use opusref.Wire.Codec.{decode, encode}
use opusref.Wire.Helpers.{find, reflector_id, to_upper, all_ascii, upper_byte}
use opusref.Wire.Tlv.{valid_padded_identifier, content, identifier_char, all_spaces}
use opusref.Engine.Types.{defaults}
use opusref.Engine.Ops.{new_engine}
use opusref.Transport.{Udp, new_udp}
use opusref.Reflector.State.{
  CompletedKey-Key, Peer, NotificationKey-Key, Reflector, ReflectorOptions, Library,
}
use opusref.Reflector.Options.{new_reflector, checked_options, validate_options, options_defaults}
use opusref.Reflector.Runs.{
  handles, ticks, takes_control, begins_drain, round, run, run-RunInv, round-Admitted, Admitted,
  AnyPeer,
}
use opusref.Reflector.Invariant.Replies.{RunInv}
use opusref.Reflector.Handle.{handle}
use opusref.Reflector.Dropped.{handle-Unwanted, malformed}
use opusref.Reflector.Notify.{overload_within, control_overload, draw_tx}
use opusref.Reflector.Admission.{draw_session}
use opusref.Wire.Utf8.{utf8_valid}
use opusref.Reflector.Fuel.{fuel_enough}
use opusref.Wire.Codec.{
  validate_extensions, put_extensions, put_header, all_zero, value_length, value_of, padding_of,
  get_extensions, get_header,
}
use opusref.Wire.Tlv.{valid_value, validate_tlv_value}
use opusref.Wire.TlvType.{known_tlv}
use opusref.Wire.Helpers.{find_extension, callsign, is_space, trim_left, trim_right, trim_space}
use opusref.Wire.Validate.{
  check_number, check_payload, check_sequence, direction_bit, phase_bit, present_extensions,
  has_all, lookup_rule, check_flags, check_extensions, validate,
}
use opusref.Wire.Rules.{rules}
use opusref.Engine.Ops.{add_session}
use opusref.Transport.{enqueue_control}
use opusref.Reflector.Answers.{
  bytes_of, enqueue_raw, transaction_key, insert_tlv, sort_tlvs, sorted, clear_retry,
  fingerprint_of, delivered, transact_new, transact,
}
use opusref.Reflector.Admission.{
  find_or_nil, read_random, challenge_packet, welcome_packet, hello, tag_matches, admit,
  answers_challenge, authenticate,
}
use opusref.Reflector.Packets.{or_nil}
use opusref.Reflector.State.{count_session}
use opusref.Reflector.Handle.{is_valid, handle_packet}
use opusref.Base.{contains}

abbrev pub library : Library
library = record { unicode_upper = λ value. value; hmac_sha256 = λ key message. message }

abbrev pub options : ReflectorOptions
options = record {
  id = b'R' ∷ [];
  display_name = b'R' ∷ [];
  shared_key = [];
  limits = record {
    max_clients = 0;
    max_completed_transactions = 0;
    session_timeout = 0;
    grant_timeout = 0;
    media_timeout = 0;
    transmit_time_limit = 0;
  };
  inbound_queue_packets = pos 0;
  outbound_control_queue_packets = pos 0;
  outbound_media_queue_frames = pos 0;
  max_pending_challenges = pos 0;
  max_pending_notifications = pos 0;
  max_pending_notifications_per_client = pos 0;
  max_completed_transactions_per_session = pos 0;
  max_datagram_bytes = pos 0;
  shutdown_grace = pos 0;
}

abbrev queues : Udp
queues = record {
  inbound = [];
  control = [];
  media = [];
  inbound_capacity = 256;
  control_capacity = 64;
  media_capacity = 256;
  inbound_drops = 0;
  media_drops = 0;
  media_drop_recipients = 0;
  control_failures = 0;
  media_enabled = true;
}

-- 32 bytes for the nonce of a challenge, and 8 for a session ID.
abbrev pub random_bytes : List ℕ
random_bytes =
    9 ∷ 9 ∷ 9 ∷ 9 ∷ 9 ∷ 9 ∷ 9 ∷ 9 ∷ 9 ∷ 9 ∷ 9 ∷ 9 ∷ 9 ∷ 9 ∷ 9 ∷ 9 ∷ 9 ∷ 9 ∷ 9 ∷ 9 ∷ 9 ∷ 9 ∷ 9 ∷ 9
    ∷ 9 ∷ 9 ∷ 9 ∷ 9 ∷ 9 ∷ 9 ∷ 9 ∷ 9 ∷ 0 ∷ 0 ∷ 0 ∷ 0 ∷ 0 ∷ 0 ∷ 0 ∷ 5 ∷ []

abbrev pub fresh : Reflector
fresh = record {
  options = options_defaults options;
  engine = new_engine (defaults options.limits);
  transport = queues;
  challenges = [];
  peers = [];
  transactions = [];
  pending = [];
  random = random_bytes;
}

pub made : new_reflector library options random_bytes ≡ ok fresh
unfolding new_reflector checked_options validate_options options_defaults new_udp defaults
    reflector_id to_upper all_ascii upper_byte valid_padded_identifier content identifier_char
    all_spaces
made = refl

-- A HELLO of N0CALL and the AUTHENTICATE that answers its challenge, without a shared key.
abbrev hello_datagram : List ℕ
hello_datagram =
    79 ∷ 80 ∷ 82 ∷ 70 ∷ 1 ∷ 1 ∷ 0 ∷ 0 ∷ 0 ∷ 96 ∷ 0 ∷ 0 ∷ 0 ∷ 0 ∷ 0 ∷ 0 ∷ 0 ∷ 0 ∷ 0 ∷ 0 ∷ 0 ∷ 0 ∷ 0
    ∷ 0 ∷ 0 ∷ 0 ∷ 0 ∷ 0 ∷ 0 ∷ 0 ∷ 0 ∷ 0 ∷ 128 ∷ 1 ∷ 0 ∷ 8 ∷ 1 ∷ 2 ∷ 3 ∷ 4 ∷ 5 ∷ 6 ∷ 7 ∷ 8 ∷ 128 ∷ 2
    ∷ 0 ∷ 10 ∷ 78 ∷ 48 ∷ 67 ∷ 65 ∷ 76 ∷ 76 ∷ 32 ∷ 32 ∷ 32 ∷ 32 ∷ 0 ∷ 0 ∷ 128 ∷ 6 ∷ 0 ∷ 32 ∷ 7 ∷ 7
    ∷ 7 ∷ 7 ∷ 7 ∷ 7 ∷ 7 ∷ 7 ∷ 7 ∷ 7 ∷ 7 ∷ 7 ∷ 7 ∷ 7 ∷ 7 ∷ 7 ∷ 7 ∷ 7 ∷ 7 ∷ 7 ∷ 7 ∷ 7 ∷ 7 ∷ 7 ∷ 7 ∷ 7
    ∷ 7 ∷ 7 ∷ 7 ∷ 7 ∷ 7 ∷ 7 ∷ []

abbrev authenticate_datagram : List ℕ
authenticate_datagram =
    79 ∷ 80 ∷ 82 ∷ 70 ∷ 1 ∷ 3 ∷ 0 ∷ 0 ∷ 0 ∷ 116 ∷ 0 ∷ 0 ∷ 0 ∷ 0 ∷ 0 ∷ 0 ∷ 0 ∷ 0 ∷ 0 ∷ 0 ∷ 0 ∷ 0 ∷ 0
    ∷ 0 ∷ 0 ∷ 0 ∷ 0 ∷ 0 ∷ 0 ∷ 0 ∷ 0 ∷ 0 ∷ 128 ∷ 1 ∷ 0 ∷ 8 ∷ 1 ∷ 2 ∷ 3 ∷ 4 ∷ 5 ∷ 6 ∷ 7 ∷ 8 ∷ 128 ∷ 6
    ∷ 0 ∷ 32 ∷ 7 ∷ 7 ∷ 7 ∷ 7 ∷ 7 ∷ 7 ∷ 7 ∷ 7 ∷ 7 ∷ 7 ∷ 7 ∷ 7 ∷ 7 ∷ 7 ∷ 7 ∷ 7 ∷ 7 ∷ 7 ∷ 7 ∷ 7 ∷ 7 ∷ 7
    ∷ 7 ∷ 7 ∷ 7 ∷ 7 ∷ 7 ∷ 7 ∷ 7 ∷ 7 ∷ 7 ∷ 7 ∷ 128 ∷ 7 ∷ 0 ∷ 32 ∷ 9 ∷ 9 ∷ 9 ∷ 9 ∷ 9 ∷ 9 ∷ 9 ∷ 9 ∷ 9
    ∷ 9 ∷ 9 ∷ 9 ∷ 9 ∷ 9 ∷ 9 ∷ 9 ∷ 9 ∷ 9 ∷ 9 ∷ 9 ∷ 9 ∷ 9 ∷ 9 ∷ 9 ∷ 9 ∷ 9 ∷ 9 ∷ 9 ∷ 9 ∷ 9 ∷ 9 ∷ 9 ∷ []

abbrev pub here : List ℕ
here = b'a' ∷ []

hello_IsBytes : IsBytes hello_datagram
hello_IsBytes = omega arith

authenticate_IsBytes : IsBytes authenticate_datagram
authenticate_IsBytes = omega arith

run-RunInv_example : RunInv AnyPeer (
    run library fresh (
      (5, handles here hello_datagram)
      ∷ (6, handles here authenticate_datagram)
      ∷ (7, ticks)
      ∷ (8, takes_control)
      ∷ (9, begins_drain)
      ∷ []))
run-RunInv_example =
    run-RunInv library options random_bytes fresh
      ((5, handles here hello_datagram)
        ∷ (6, handles here authenticate_datagram)
        ∷ (7, ticks)
        ∷ (8, takes_control)
        ∷ (9, begins_drain)
        ∷ [])
      made (hello_IsBytes, (authenticate_IsBytes, (tt, (tt, (tt, tt)))))

fuel_enough_example :
    (overload_within (suc 3) 7 fresh 5 ≡ control_overload 7 fresh 5)
    × (draw_tx (length random_bytes + 3) random_bytes []
        ≡ draw_tx (length random_bytes) random_bytes [])
    × (draw_session (length random_bytes + 3) random_bytes fresh.engine 7 here here
        ≡ draw_session (length random_bytes) random_bytes fresh.engine 7 here here)
fuel_enough_example = fuel_enough fresh 7 5 3 here here

abbrev greeted : Reflector
greeted = run library fresh ((5, handles here hello_datagram) ∷ [])

greeted-RunInv : RunInv AnyPeer greeted
greeted-RunInv =
    run-RunInv library options random_bytes fresh ((5, handles here hello_datagram) ∷ []) made
      (hello_IsBytes, tt)

handle-Unwanted_example : handle library greeted 6 here (1 ∷ 2 ∷ 3 ∷ []) ≡ greeted
unfolding decode
handle-Unwanted_example =
    handle-Unwanted library greeted 6 here (1 ∷ 2 ∷ 3 ∷ []) greeted-RunInv
      (inl (malformed malformed_packet unread))
  where
    unread : decode (1 ∷ 2 ∷ 3 ∷ []) ≡ err malformed_packet
    unread = refl

abbrev pub station : Peer
station = record {
  id = 5;
  address = here;
  node = b'N' ∷ b'0' ∷ b'C' ∷ b'A' ∷ b'L' ∷ b'L' ∷ [];
  ready = false;
  notified = false;
  receiving = false;
  connected = 6;
  last = 6;
}

joined :
    lookup 5 (round library greeted (6, handles here authenticate_datagram)).peers ≡ some station
unfolding validate_extensions put_extensions put_header encode all_zero value_length value_of
    padding_of get_extensions get_header decode identifier_char all_spaces content
    valid_padded_identifier valid_value validate_tlv_value known_tlv find_extension find all_ascii
    upper_byte to_upper callsign reflector_id is_space trim_left trim_right trim_space check_number
    check_payload check_sequence direction_bit phase_bit present_extensions has_all lookup_rule
    check_flags check_extensions validate rules new_engine add_session defaults enqueue_control
    bytes_of enqueue_raw transaction_key insert_tlv sort_tlvs sorted clear_retry fingerprint_of
    delivered transact_new transact find_or_nil read_random challenge_packet welcome_packet hello
    tag_matches draw_session admit answers_challenge authenticate or_nil count_session is_valid
    handle_packet handle round run options_defaults bytes_equal contains lookup insert delete
    utf8_valid
joined = refl

round-Admitted_example :
    Admitted library greeted (6, handles here authenticate_datagram) 5 station.address station.node
round-Admitted_example =
    round-Admitted library greeted (6, handles here authenticate_datagram) 5 station
      authenticate_IsBytes greeted-RunInv joined
