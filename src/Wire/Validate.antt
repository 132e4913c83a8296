-- ===== src/Wire/Validate.antt =====
-- pkg/wire/validate.go: the stateless rules of the packet matrix. The proofs are below.
pub mod Matrix
pub mod Accepted
use opusref.Base.{
  ℕ, List, [], ◌∷◌, ◌++◌, Bool, true, false, not, ◌&&◌, ◌||◌, ◌==◌, leb, ltb, if◌then◌else◌, length,
  bit_and, bit_or, Option, none, some, contains, Result, ok, err, ◌>>=◌, ◌>>◌, guard,
}
use opusref.Wire.Types.{Tlv, Packet, version1, reserved_flags, has_response, has_retry}
use opusref.Wire.PacketType
use opusref.Wire.TlvType
use opusref.Wire.TlvType.{base_type, known_tlv}
use opusref.Wire.Rules.{
  Direction, client_to_server, server_to_client, unknown_direction, AdmissionPhase, pre_admission,
  connected, ready, unknown_phase, ValidationContext, malformed, unsupported_version,
  invalid_session, invalid_stream, unsupported_type, version_field, type_field, direction_field,
  phase_field, flags_field, session_id_field, stream_id_field, sequence_field, payload_field,
  extensions_field, ValidationError, invalid, NumberRule, zero_number, nonzero_number, any_number,
  PayloadRule, empty_payload, nonempty_payload, PacketRule, dir_c, dir_s, phase_pre,
  phase_connected, phase_ready, rules,
}

-- Whether checkNumber returns nil.
unfoldable pub check_number : NumberRule → ℕ → Bool
check_number zero_number value = value == 0
check_number nonzero_number value = not (value == 0)
check_number any_number value = true

unfoldable pub check_payload : PayloadRule → List ℕ → Bool
check_payload empty_payload payload = length payload == 0
check_payload nonempty_payload payload = not (length payload == 0)

-- The sequence and timestamp must be 0 where the rule's sequence is "zero".
unfoldable pub check_sequence : NumberRule → ℕ → ℕ → Bool
check_sequence zero_number sequence timestamp = sequence == 0 && timestamp == 0
check_sequence nonzero_number sequence timestamp = true
check_sequence any_number sequence timestamp = true

unfoldable pub direction_bit : Direction → Result ValidationError ℕ
direction_bit client_to_server = ok dir_c
direction_bit server_to_client = ok dir_s
direction_bit unknown_direction = err (invalid malformed direction_field)

unfoldable pub phase_bit : AdmissionPhase → Result ValidationError ℕ
phase_bit pre_admission = ok phase_pre
phase_bit connected = ok phase_connected
phase_bit ready = ok phase_ready
phase_bit unknown_phase = err (invalid malformed phase_field)

-- The loop over the extensions: a known one must be allowed. The result is `present`.
unfoldable pub present_extensions : List ℕ → List Tlv → Result ValidationError (List ℕ)
present_extensions allowed [] = ok []
present_extensions allowed (tlv ∷ rest) = do
  let base = base_type tlv.typ
  guard (not (known_tlv base && not (contains allowed base))) (invalid malformed extensions_field)
  present ← present_extensions allowed rest
  ok (base ∷ present)

-- The loop over `required`.
unfoldable pub has_all : List ℕ → List ℕ → Bool
has_all [] present = true
has_all (typ ∷ rest) present = contains present typ && has_all rest present

unfoldable pub lookup_rule : ℕ → Result ValidationError PacketRule
lookup_rule typ = elim (rules typ) [
  | none ↦ err (invalid unsupported_type type_field)
  | some r ↦ ok r
]

-- The tests of the flags, in their order: those of every packet, of media, of STREAM_START and
-- STREAM_REVOKE, and of STREAM_END.
unfoldable pub check_flags : PacketRule → ℕ → ℕ → ℕ → Bool
check_flags r typ flags direction =
    let response = has_response flags in
    not (
      not (reserved_flags flags == 0)
      || (response && has_retry flags)
      || (response && not r.response)
      || (not response && not r.request))
    && not ((typ == PacketType.audio || typ == PacketType.media_data) && not (flags == 0))
    && not (
        (typ == PacketType.stream_start || typ == PacketType.stream_revoke)
        && not (if direction == dir_c then response else not response))
    && not (
        typ == PacketType.stream_end && not (if direction == dir_s then response else not response))

unfoldable pub check_extensions : PacketRule → Bool → List Tlv → Result ValidationError (Unit {0})
check_extensions r response extensions = do
  let required = if response then r.response_required else r.request_required
  present ← present_extensions (required ++ r.optional) extensions
  guard (has_all required present) (invalid malformed extensions_field)

unfoldable pub validate : Packet → ValidationContext → Result ValidationError (Unit {0})
validate p c = do
  guard (p.header.version == version1) (invalid unsupported_version version_field)
  r ← lookup_rule p.header.typ
  direction ← direction_bit c.direction
  phase ← phase_bit c.phase
  guard (not (bit_and r.directions direction == 0)) (invalid unsupported_type direction_field)
  guard (not (bit_and r.phases phase == 0)) (invalid invalid_session phase_field)
  guard (check_flags r p.header.typ p.header.flags direction) (invalid malformed flags_field)
  guard (check_number r.session p.header.session_id) (invalid invalid_session session_id_field)
  guard (check_number r.stream p.header.stream_id) (invalid invalid_stream stream_id_field)
  guard (check_sequence r.sequence p.header.sequence p.header.timestamp)
      (invalid malformed sequence_field)
  guard (check_payload r.payload p.payload) (invalid malformed payload_field)
  check_extensions r (has_response p.header.flags) p.extensions
