-- ===== src/Client/RequestExamples.antt =====
-- A request of the UDP client at concrete packets.
use opusref.Base.{
  arith, ℕ, ◌==◌, ◌≡◌, ◌≤◌, refl, All, [], ◌∷◌, true, false, none, ok, if◌then◌else◌, contains,
  bytes_equal, length, lookup, insert,
}
use opusref.Wire.Types.{Packet, flag_response}
use opusref.Wire.PacketType
use opusref.Wire.TlvType
use opusref.Wire.TlvType.{known_tlv}
use opusref.Wire.Tlv.{
  valid_value, validate_tlv_value, valid_padded_identifier, content, identifier_char, all_spaces,
}
use opusref.Wire.Codec.{
  validate_extensions, put_extensions, put_header, encode, all_zero, value_length, value_of,
  padding_of, get_extensions, get_header, decode,
}
use opusref.Wire.Rules.{rules}
use opusref.Wire.Validate.{
  check_number, check_payload, check_sequence, direction_bit, phase_bit, present_extensions,
  has_all, lookup_rule, check_flags, check_extensions, validate,
}
use opusref.Wire.Helpers.{
  find, find_extension, uint64_tlv, uint32_tlv, callsign, to_upper, all_ascii, upper_byte,
}
use opusref.Reflector.Packets.{header}
use opusref.Reflector.Answers.{bytes_of}
use opusref.Reflector.Duplicates.{retried}
use opusref.Reflector.Ticker.{set_retry}
use opusref.Client.Receiving.{RequestKey-Key}
use opusref.Client.Processing.{receive, receive_packet, answer_request, published_to}
use opusref.Client.Types.{event_status, Outbound}
use opusref.Client.Packets.{keepalive_packet, request_packet}
use opusref.Client.Sender.{sender_request_floor}
use opusref.Client.Granted.{sender_request_floor-IsReply}
use opusref.Client.Requests.{
  Attempt, takes, turn, turns, request_key, responses_of, conclude, attempts, request,
}
use opusref.Client.Replies.{IsReply}
use opusref.Client.Asking.{SameRequest, request-IsReply}
use opusref.Client.UdpExamples.{receiver}

-- The answer of session 5 to a KEEPALIVE, and one to another transaction.
abbrev keepalive_answer : ℕ → Packet
keepalive_answer tx = record {
  header = header PacketType.keepalive flag_response 5 0;
  extensions = uint64_tlv TlvType.transaction_id tx ∷ [];
  payload = [];
}

-- The first attempt gets only the answer to another transaction.
abbrev during : ℕ → Attempt
during attempt = record {
  writes = true;
  rounds = takes 3 (bytes_of (keepalive_answer (if attempt == 0 then 76 else 77))) ∷ [];
  is_cancelled = false;
}

abbrev answer : Packet
answer = record (keepalive_answer 77) {
  header = record (header PacketType.keepalive flag_response 5 0) { header_length = 44 };
}

answered_request :
    (request during (PacketType.keepalive ∷ []) receiver (keepalive_packet 5 77)).result ≡ ok answer
unfolding request attempts encode validate_extensions keepalive_packet uint64_tlv contains
    validate_tlv_value valid_value decode bytes_equal get_extensions get_header known_tlv all_zero
    value_of value_length padding_of put_extensions put_header bytes_of turns turn receive validate
    rules lookup_rule direction_bit phase_bit check_flags check_number check_payload check_sequence
    check_extensions present_extensions has_all find find_extension answer_request lookup insert
    responses_of conclude retried set_retry published_to receive_packet
answered_request = refl

request-IsReply_example :
    (let asked = request during (PacketType.keepalive ∷ []) receiver (keepalive_packet 5 77) in
      IsReply 5 (request_key (keepalive_packet 5 77)) (PacketType.keepalive ∷ []) answer
      × All (SameRequest (keepalive_packet 5 77)) asked.written
      × (length asked.written ≤ 4)
      × (lookup (request_key (keepalive_packet 5 77)) asked.receiver.pending ≡ none))
request-IsReply_example =
    request-IsReply during (PacketType.keepalive ∷ []) receiver (keepalive_packet 5 77)
      answered_request

-- The floor for stream 9, asked for by "N0CALL", and the answer.
abbrev asked_floor : Outbound
asked_floor = record {
  kind = event_status;
  stream_id = 9;
  sequence = 0;
  timestamp = 0;
  data_type = 0;
  source_callsign = b'N' ∷ b'0' ∷ b'C' ∷ b'A' ∷ b'L' ∷ b'L' ∷ [];
  payload = [];
}

abbrev grants : ℕ → Attempt
grants attempt = record {
  writes = true;
  rounds =
      takes 3 (
        bytes_of (record {
          header = header PacketType.stream_grant flag_response 5 9;
          extensions =
              uint64_tlv TlvType.transaction_id 77
              ∷ uint32_tlv TlvType.transmit_time_limit 180
              ∷ [];
          payload = [];
        }))
      ∷ [];
  is_cancelled = false;
}

granted_request : (sender_request_floor (λ value. value) grants receiver 77 asked_floor).1 ≡ none
unfolding sender_request_floor request_packet callsign to_upper all_ascii upper_byte
    valid_padded_identifier content identifier_char all_spaces uint32_tlv request attempts encode
    validate_extensions keepalive_packet uint64_tlv contains validate_tlv_value valid_value decode
    bytes_equal get_extensions get_header known_tlv all_zero value_of value_length padding_of
    put_extensions put_header bytes_of turns turn receive validate rules lookup_rule direction_bit
    phase_bit check_flags check_number check_payload check_sequence check_extensions
    present_extensions has_all find find_extension answer_request lookup insert responses_of
    conclude retried set_retry published_to receive_packet
granted_request = refl

sender_request_floor-IsReply_example :
    (p : Packet) × (reply : Packet) × (request_packet (λ value. value) 5 77 asked_floor ≡ ok p)
    × ((request grants (PacketType.stream_grant ∷ PacketType.stream_busy ∷ []) receiver p).result
        ≡ ok reply)
    × IsReply 5 (record { tx = 77; stream = 9 }) (PacketType.stream_grant ∷ []) reply
sender_request_floor-IsReply_example =
    sender_request_floor-IsReply (λ value. value) grants receiver 77 asked_floor (omega arith)
      granted_request
