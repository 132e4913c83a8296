-- ===== src/Wire/Examples.antt =====
-- The theorems of pkg/wire on a KEEPALIVE request, byte by byte, an AUDIO packet and a callsign.
use opusref.Base.{ℕ, ◌≡◌, ◌≢◌, refl, List, [], ◌∷◌, ok, err, arith, contains, bytes_equal}
use opusref.Base.{Memᴰ, some, true, length}
use opusref.Wire.Types.{Packet, PacketFits, out_of_fuel}
use opusref.Wire.PacketType
use opusref.Wire.TlvType
use opusref.Wire.TlvType.{known_tlv}
use opusref.Wire.Tlv.{
  all_spaces, content, identifier_char, valid_padded_identifier, valid_value, validate_tlv_value,
}
use opusref.Wire.Codec.{
  validate_extensions, put_extensions, put_header, encode, all_zero, value_length, value_of,
  padding_of, get_extensions, get_header, decode,
}
use opusref.Wire.Codec.RoundTrip.{sent, decode-encode}
use opusref.Wire.Codec.Canonical.{encode-decode}
use opusref.Wire.Rules.{ValidationContext, client_to_server, ready, rules}
use opusref.Wire.Validate.{
  check_number, check_payload, check_sequence, direction_bit, phase_bit, present_extensions,
  has_all, lookup_rule, check_flags, check_extensions, validate,
}
use opusref.Wire.Validate.Accepted.{validate-media, validate-decode}
use opusref.Wire.Helpers.{find, callsign, trim_space}
use opusref.Wire.Helpers.Names.{callsign-trim_space}
use opusref.Wire.Helpers.Found.{find-Mem}
use opusref.Wire.Codec.Fuel.{decode-ne-out_of_fuel}

abbrev keepalive_tx : List ℕ
keepalive_tx = 1 ∷ 2 ∷ 3 ∷ 4 ∷ 5 ∷ 6 ∷ 7 ∷ 8 ∷ []

abbrev keepalive_request : Packet
keepalive_request = record {
  header = record {
    version = 1;
    typ = PacketType.keepalive;
    flags = 0;
    header_length = 0;
    payload_length = 0;
    session_id = 0x0102;
    stream_id = 0;
    sequence = 0;
    timestamp = 0;
  };
  extensions = record { typ = TlvType.transaction_id; value = keepalive_tx } ∷ [];
  payload = [];
}

abbrev keepalive_datagram : List ℕ
keepalive_datagram =
    0x4f ∷ 0x50 ∷ 0x52 ∷ 0x46 ∷ 1 ∷ 5 ∷ 0 ∷ 0 ∷ 0 ∷ 44 ∷ 0 ∷ 0 ∷ 0 ∷ 0 ∷ 0 ∷ 0 ∷ 0 ∷ 0 ∷ 1 ∷ 2 ∷ 0
    ∷ 0 ∷ 0 ∷ 0 ∷ 0 ∷ 0 ∷ 0 ∷ 0 ∷ 0 ∷ 0 ∷ 0 ∷ 0 ∷ 0 ∷ 1 ∷ 0 ∷ 8 ∷ 1 ∷ 2 ∷ 3 ∷ 4 ∷ 5 ∷ 6 ∷ 7 ∷ 8 ∷ []

encode_keepalive : encode keepalive_request ≡ ok keepalive_datagram
unfolding encode validate_extensions put_extensions put_header contains known_tlv validate_tlv_value
    valid_value
encode_keepalive = refl

decode_keepalive : decode keepalive_datagram ≡ ok (sent keepalive_request)
unfolding decode bytes_equal get_extensions get_header contains known_tlv validate_tlv_value
    valid_value all_zero value_of value_length padding_of put_extensions
decode_keepalive = refl

keepalive_fits : PacketFits keepalive_request
keepalive_fits = omega arith

decode-encode_example : decode keepalive_datagram ≡ ok (sent keepalive_request)
decode-encode_example = decode-encode keepalive_request keepalive_fits encode_keepalive

encode-decode_example : encode (sent keepalive_request) ≡ ok keepalive_datagram
encode-decode_example = encode-decode keepalive_datagram (omega arith) decode_keepalive

decode-ne-out_of_fuel_example : decode keepalive_datagram ≢ err out_of_fuel
decode-ne-out_of_fuel_example = decode-ne-out_of_fuel keepalive_datagram

abbrev from_ready_client : ValidationContext
from_ready_client = record { direction = client_to_server; phase = ready }

valid_keepalive : validate (sent keepalive_request) from_ready_client ≡ ok tt
unfolding validate rules lookup_rule direction_bit phase_bit check_flags check_number check_payload
    check_sequence check_extensions present_extensions has_all contains known_tlv put_extensions
valid_keepalive = refl

validate-decode_example :
    (tx : List ℕ) × (find (sent keepalive_request) TlvType.transaction_id ≡ some tx)
    × (length tx ≡ 8)
validate-decode_example =
    validate-decode keepalive_datagram (sent keepalive_request) from_ready_client (omega arith)
      decode_keepalive valid_keepalive refl

abbrev audio_packet : Packet
audio_packet = record {
  header = record keepalive_request.header { typ = PacketType.audio; stream_id = 9 };
  extensions = [];
  payload = 0xf8 ∷ [];
}

valid_audio : validate audio_packet from_ready_client ≡ ok tt
unfolding validate rules lookup_rule direction_bit phase_bit check_flags check_number check_payload
    check_sequence check_extensions present_extensions has_all contains known_tlv
valid_audio = refl

validate-media_example :
    (from_ready_client.phase ≡ ready)
    × (audio_packet.header.flags ≡ 0)
    × (audio_packet.header.session_id ≢ 0)
    × (audio_packet.header.stream_id ≢ 0)
    × (audio_packet.payload ≢ [])
validate-media_example = validate-media audio_packet from_ready_client valid_audio refl

find-Mem_example : find (sent keepalive_request) TlvType.transaction_id ≡ some keepalive_tx
find-Mem_example =
    find-Mem keepalive_datagram (omega arith) decode_keepalive
      (record { typ = TlvType.transaction_id; value = keepalive_tx }) (Memᴰ.head refl)

-- "N0CALL" in its ten bytes.
abbrev padded_callsign : List ℕ
padded_callsign = b'N' ∷ b'0' ∷ b'C' ∷ b'A' ∷ b'L' ∷ b'L' ∷ b' ' ∷ b' ' ∷ b' ' ∷ b' ' ∷ []

valid_callsign : valid_padded_identifier padded_callsign 10 ≡ true
unfolding valid_padded_identifier content all_spaces identifier_char
valid_callsign = refl

callsign-trim_space_example :
    callsign (λ value. value) (trim_space padded_callsign) ≡ ok padded_callsign
callsign-trim_space_example = callsign-trim_space (λ value. value) padded_callsign valid_callsign
