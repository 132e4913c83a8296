-- ===== src/Reflector/Delivered.antt =====
-- pkg/server/reflector.go against pkg/wire: the reflector's packets are encoded, and the client's
-- Validate accepts them.
use opusref.Base.{
  ℕ, ◌+◌, ◌++◌, put16, put32, ◌≤◌, ◌≡◌, ◌≢◌, refl, List, [], ◌∷◌, true, length, ok, err, contains,
  arith,
}
use opusref.Wire.Types.{Packet, malformed_packet, version1, reserved_flags, base_header_size}
use opusref.Wire.TlvType
use opusref.Wire.TlvType.{known_tlv}
use opusref.Wire.Tlv.{valid_value, validate_tlv_value, valid_padded_identifier}
use opusref.Wire.Codec.{validate_extensions, put_header, put_extensions, encode}
use opusref.Wire.Rules.{ValidationContext, server_to_client, ready, rules}
use opusref.Wire.Validate.{
  check_number, check_payload, check_sequence, direction_bit, phase_bit, present_extensions,
  has_all, lookup_rule, check_flags, check_extensions, validate,
}
use opusref.Wire.Helpers.{uint64_tlv, uint32_tlv, uint16_tlv, trim_space}
use opusref.Wire.Helpers.Names.{callsign-trim_space}
use opusref.Engine.Types.{EndReason, StreamEnd}
use opusref.Reflector.Packets.{
  end_reason, revoke_packet, limit_seconds, or_nil, start_packet, response_header, grant_packet,
  busy_packet,
}

-- How a ready client validates what the reflector sends it.
abbrev pub to_client : ValidationContext
to_client = record { direction = server_to_client; phase = ready }

-- Encode takes the packet and a ready client's Validate accepts it.
abbrev pub IsDelivered : Packet → Type 0
IsDelivered p = ((bytes : List ℕ) × (encode p ≡ ok bytes)) × (validate p to_client ≡ ok tt)

revoke-validate :
    (end : StreamEnd) (tx : ℕ)
    → end.session_id ≢ 0
    → end.stream_id ≢ 0
    → validate (revoke_packet end tx) to_client ≡ ok tt
unfolding revoke_packet validate rules lookup_rule direction_bit phase_bit check_flags check_number
    check_payload check_sequence check_extensions present_extensions has_all contains known_tlv
    uint64_tlv uint16_tlv
revoke-validate end tx session stream = ground arith

end_reason-le : (reason : EndReason) → end_reason reason ≤ 5
unfolding end_reason
end_reason-le reason = ground arith

encode-accepted :
    (p : Packet) (n : ℕ)
    → validate_extensions p.extensions [] ≡ ok n
    → n + length p.payload ≤ 1168
    → p.header.version ≡ version1
    → reserved_flags p.header.flags ≡ 0
    → (bytes : List ℕ) × (encode p ≡ ok bytes)
unfolding encode
encode-accepted p n h size version flags = (
  put_header p.header (base_header_size + n) (length p.payload)
      ++ (put_extensions p.extensions ++ p.payload),
  ground (arith, h, size, version, flags),
)

end_reason-valid :
    (reason : EndReason) → validate_tlv_value TlvType.end_reason (put16 (end_reason reason)) ≡ ok tt
unfolding validate_tlv_value valid_value
end_reason-valid reason = ground (arith, end_reason-le reason)

limit_seconds-valid :
    (limit : ℕ)
    → limit_seconds limit ≢ 0
    → valid_value TlvType.transmit_time_limit (put32 (limit_seconds limit)) ≡ true
unfolding valid_value limit_seconds
limit_seconds-valid limit h = ground (arith, h)

start-extensions :
    (tx seconds : ℕ) (node source : List ℕ)
    → valid_padded_identifier node 10 ≡ true
    → valid_padded_identifier source 10 ≡ true
    → valid_value TlvType.transmit_time_limit (put32 seconds) ≡ true
    → validate_extensions
        (uint64_tlv TlvType.transaction_id tx
          ∷ record { typ = TlvType.node_callsign; value = node }
          ∷ record { typ = TlvType.source_callsign; value = source }
          ∷ uint32_tlv TlvType.transmit_time_limit seconds
          ∷ [])
        []
      ≡ ok 52
unfolding validate_extensions validate_tlv_value valid_value valid_padded_identifier uint64_tlv
    uint32_tlv contains known_tlv
start-extensions tx seconds node source h k m = ground (arith, h, k, m)

grant-extensions :
    (tx : List ℕ) (seconds : ℕ)
    → length tx ≡ 8
    → valid_value TlvType.transmit_time_limit (put32 seconds) ≡ true
    → validate_extensions
        (record { typ = TlvType.transaction_id; value = tx }
          ∷ uint32_tlv TlvType.transmit_time_limit seconds
          ∷ [])
        []
      ≡ ok 20
unfolding validate_extensions validate_tlv_value valid_value uint32_tlv contains known_tlv
grant-extensions tx seconds h m = ground (arith, h, m)

revoke-encode :
    (end : StreamEnd) (tx : ℕ) → (bytes : List ℕ) × (encode (revoke_packet end tx) ≡ ok bytes)
unfolding revoke_packet
revoke-encode end tx =
    encode-accepted (revoke_packet end tx) 20
      (unfold validate_extensions validate_tlv_value valid_value uint64_tlv uint16_tlv contains
          known_tlv in
        ground (arith, end_reason-le end.reason))
      (omega arith) refl refl

start-encode :
    (unicode_upper : List ℕ → List ℕ) (session stream : ℕ) (node source : List ℕ) (limit tx : ℕ)
    → valid_padded_identifier node 10 ≡ true
    → valid_padded_identifier source 10 ≡ true
    → limit_seconds limit ≢ 0
    → (bytes : List ℕ) × (encode
          (start_packet unicode_upper session stream (trim_space node) (trim_space source) limit tx)
        ≡ ok bytes)
unfolding start_packet
start-encode unicode_upper session stream node source limit tx h k m =
    encode-accepted
      (start_packet unicode_upper session stream (trim_space node) (trim_space source) limit tx) 52
      (rw (callsign-trim_space unicode_upper node h, callsign-trim_space unicode_upper source k)
        (unfold or_nil in
          start-extensions tx (limit_seconds limit) node source h k (limit_seconds-valid limit m)))
      (omega arith) refl refl

start-validate :
    (unicode_upper : List ℕ → List ℕ) (session stream : ℕ) (node source : List ℕ) (limit tx : ℕ)
    → session ≢ 0
    → stream ≢ 0
    → validate (start_packet unicode_upper session stream node source limit tx) to_client ≡ ok tt
unfolding start_packet validate rules lookup_rule direction_bit phase_bit check_flags check_number
    check_payload check_sequence check_extensions present_extensions has_all contains known_tlv
    uint64_tlv uint32_tlv
start-validate unicode_upper session stream node source limit tx h k = ground arith

grant-validate :
    (peer : ℕ) (request : Packet) (tx : List ℕ) (limit : ℕ)
    → peer ≢ 0
    → request.header.stream_id ≢ 0
    → request.header.sequence ≡ 0
    → request.header.timestamp ≡ 0
    → validate (grant_packet peer request tx limit) to_client ≡ ok tt
unfolding grant_packet response_header validate rules lookup_rule direction_bit phase_bit
    check_flags check_number check_payload check_sequence check_extensions present_extensions
    has_all contains known_tlv uint32_tlv
grant-validate peer request tx limit h k m n = ground arith

busy-validate :
    (peer : ℕ) (request : Packet) (tx : List ℕ)
    → peer ≢ 0
    → request.header.stream_id ≢ 0
    → request.header.sequence ≡ 0
    → request.header.timestamp ≡ 0
    → validate (busy_packet peer request tx) to_client ≡ ok tt
unfolding busy_packet response_header validate rules lookup_rule direction_bit phase_bit check_flags
    check_number check_payload check_sequence check_extensions present_extensions has_all contains
    known_tlv
busy-validate peer request tx h k m n = ground arith

grant-encode :
    (peer : ℕ) (request : Packet) (tx : List ℕ) (limit : ℕ)
    → length tx ≡ 8
    → limit_seconds limit ≢ 0
    → (bytes : List ℕ) × (encode (grant_packet peer request tx limit) ≡ ok bytes)
unfolding grant_packet response_header
grant-encode peer request tx limit h m =
    encode-accepted (grant_packet peer request tx limit) 20
      (grant-extensions tx (limit_seconds limit) h (limit_seconds-valid limit m)) (omega arith) refl
      refl

-- With a limit of no whole second, Encode takes neither a STREAM_GRANT nor a STREAM_START.
pub grant-encode_refused :
    (peer : ℕ) (request : Packet) (tx : List ℕ) (limit : ℕ)
    → limit_seconds limit ≡ 0
    → encode (grant_packet peer request tx limit) ≡ err malformed_packet
unfolding grant_packet response_header encode validate_extensions validate_tlv_value valid_value
    uint32_tlv contains known_tlv
grant-encode_refused peer request tx limit m = ground (arith, m)

pub start-encode_refused :
    (unicode_upper : List ℕ → List ℕ) (session stream : ℕ) (node source : List ℕ) (limit tx : ℕ)
    → limit_seconds limit ≡ 0
    → encode (start_packet unicode_upper session stream node source limit tx) ≡ err malformed_packet
unfolding start_packet encode validate_extensions validate_tlv_value valid_value uint64_tlv
    uint32_tlv contains known_tlv
start-encode_refused unicode_upper session stream node source limit tx m = ground (arith, m)

-- The STREAM_REVOKE for the end of a stream with nonzero IDs is encoded, whatever its reason and
-- transaction ID, and a ready client's Validate accepts it.
revoke_packet-IsDelivered :
    (end : StreamEnd) (tx : ℕ)
    → end.session_id ≢ 0
    → end.stream_id ≢ 0
    → IsDelivered (revoke_packet end tx)
revoke_packet-IsDelivered end tx h k = (revoke-encode end tx, revoke-validate end tx h k)

-- The STREAM_START for a stream with nonzero IDs is encoded and accepted by a ready client's
-- Validate, if the node and the source are callsigns from the wire, trimmed as the reflector keeps
-- them, and the transmit time limit is not zero in whole seconds on 32 bits. What ToUpper does to
-- strings that are not ASCII does not matter.
pub start_packet-IsDelivered :
    (unicode_upper : List ℕ → List ℕ) (session stream : ℕ) (node source : List ℕ) (limit tx : ℕ)
    → session ≢ 0
    → stream ≢ 0
    → valid_padded_identifier node 10 ≡ true
    → valid_padded_identifier source 10 ≡ true
    → limit_seconds limit ≢ 0
    → IsDelivered
        (start_packet unicode_upper session stream (trim_space node) (trim_space source) limit tx)
start_packet-IsDelivered unicode_upper session stream node source limit tx h k m n seconds = (
  start-encode unicode_upper session stream node source limit tx m n seconds,
  start-validate unicode_upper session stream (trim_space node) (trim_space source) limit tx h k,
)

-- The STREAM_GRANT that answers a STREAM_REQUEST with a nonzero stream, no sequence and no
-- timestamp, of a session that is not 0 and with a transaction ID of 8 bytes, is encoded and
-- accepted by a ready client's Validate, if the transmit time limit is not zero in whole seconds on
-- 32 bits.
pub grant_packet-IsDelivered :
    (peer : ℕ) (request : Packet) (tx : List ℕ) (limit : ℕ)
    → peer ≢ 0
    → request.header.stream_id ≢ 0
    → request.header.sequence ≡ 0
    → request.header.timestamp ≡ 0
    → length tx ≡ 8
    → limit_seconds limit ≢ 0
    → IsDelivered (grant_packet peer request tx limit)
grant_packet-IsDelivered peer request tx limit h k m n size seconds =
    (grant-encode peer request tx limit size seconds, grant-validate peer request tx limit h k m n)
