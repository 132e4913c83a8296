-- ===== src/Wire/Rules.antt =====
-- pkg/wire/validate.go: the packet matrix, a rule for each packet type.
use opusref.Base.{
  ℕ, List, [], ◌∷◌, Bool, true, false, ◌==◌, if◌then◌else◌, bit_or, Option, none, some,
}
use opusref.Wire.PacketType
use opusref.Wire.TlvType
use opusref.Wire.TlvType.{base_type, known_tlv}

-- A Direction and an AdmissionPhase are uint8, of which three and four values have no name: the
-- two errors that Validate has for them are `malformed` with the fields "direction" and "phase".
pub data Direction : Type 0 where
  client_to_server server_to_client unknown_direction : Direction

pub data AdmissionPhase : Type 0 where
  pre_admission connected ready unknown_phase : AdmissionPhase

pub record ValidationContext : Type 0 where
  pub direction : Direction
  pub phase : AdmissionPhase

pub data Reason : Type 0 where
  malformed unsupported_version invalid_session invalid_stream unsupported_type : Reason
  limit_exceeded transaction_conflict : Reason

-- The field that a ValidationError names.
pub data Field : Type 0 where
  version_field type_field direction_field phase_field flags_field session_id_field : Field
  stream_id_field sequence_field payload_field extensions_field : Field

pub record ValidationError : Type 0 where
  pub reason : Reason
  pub field : Field

abbrev pub invalid : Reason → Field → ValidationError
invalid reason field = record { reason = reason; field = field }

-- The strings "zero", "nonzero" and "any" of a rule; "empty" and "nonempty".
pub data NumberRule : Type 0 where
  zero_number nonzero_number any_number : NumberRule

pub data PayloadRule : Type 0 where
  empty_payload nonempty_payload : PayloadRule

pub record PacketRule : Type 0 where
  pub directions : ℕ
  pub phases : ℕ
  pub request : Bool
  pub response : Bool
  pub session : NumberRule
  pub stream : NumberRule
  pub sequence : NumberRule
  pub payload : PayloadRule
  pub request_required : List ℕ
  pub response_required : List ℕ
  pub optional : List ℕ

abbrev pub dir_c : ℕ
dir_c = 1

abbrev pub dir_s : ℕ
dir_s = 2

abbrev pub phase_pre : ℕ
phase_pre = 1

abbrev pub phase_connected : ℕ
phase_connected = 2

abbrev pub phase_ready : ℕ
phase_ready = 4

-- A row of the table, its fields in the order of packetRule.
abbrev rule :
    ℕ
    → ℕ
    → Bool
    → Bool
    → NumberRule
    → NumberRule
    → NumberRule
    → PayloadRule
    → List ℕ
    → List ℕ
    → List ℕ
    → Option PacketRule
rule directions phases request response session stream sequence payload requires answers optional =
    some (record {
      directions = directions;
      phases = phases;
      request = request;
      response = response;
      session = session;
      stream = stream;
      sequence = sequence;
      payload = payload;
      request_required = requires;
      response_required = answers;
      optional = optional;
    })

abbrev tx_only : List ℕ
tx_only = TlvType.transaction_id ∷ []

unfoldable pub rules : ℕ → Option PacketRule
rules typ =
    if typ == PacketType.hello
    then rule dir_c phase_pre true false zero_number zero_number zero_number empty_payload
        (TlvType.transaction_id ∷ TlvType.node_callsign ∷ TlvType.client_nonce ∷ []) [] []
    else if typ == PacketType.challenge
    then rule dir_s phase_pre false true zero_number zero_number zero_number empty_payload []
        (TlvType.transaction_id ∷ TlvType.server_nonce ∷ TlvType.reflector_id ∷ TlvType.display_name
          ∷ [])
        []
    else if typ == PacketType.authenticate
    then rule dir_c phase_pre true false zero_number zero_number zero_number empty_payload
        (TlvType.transaction_id ∷ TlvType.client_nonce ∷ TlvType.server_nonce ∷ []) []
        (TlvType.authentication_tag ∷ [])
    else if typ == PacketType.welcome
    then rule dir_s (bit_or phase_pre phase_connected) false true nonzero_number zero_number
        zero_number empty_payload []
        (TlvType.transaction_id ∷ TlvType.reflector_id ∷ TlvType.display_name ∷ []) []
    else if typ == PacketType.keepalive
    then rule (bit_or dir_c dir_s) (bit_or phase_connected phase_ready) true true nonzero_number
        zero_number zero_number empty_payload tx_only tx_only []
    else if typ == PacketType.disconnect
    then rule (bit_or dir_c dir_s) (bit_or phase_connected phase_ready) true true nonzero_number
        zero_number zero_number empty_payload tx_only tx_only []
    else if typ == PacketType.error
    then rule (bit_or dir_c dir_s) (bit_or (bit_or phase_pre phase_connected) phase_ready) false
        true any_number any_number zero_number empty_payload [] (TlvType.error_code ∷ [])
        (TlvType.transaction_id ∷ TlvType.error_text ∷ [])
    else if typ == PacketType.stream_request
    then rule dir_c phase_ready true false nonzero_number nonzero_number zero_number empty_payload
        (TlvType.transaction_id ∷ TlvType.source_callsign ∷ []) [] []
    else if typ == PacketType.stream_grant
    then rule dir_s phase_ready false true nonzero_number nonzero_number zero_number empty_payload
        [] (TlvType.transaction_id ∷ TlvType.transmit_time_limit ∷ []) []
    else if typ == PacketType.stream_busy
    then rule dir_s phase_ready false true nonzero_number nonzero_number zero_number empty_payload
        [] tx_only []
    else if typ == PacketType.stream_start
    then rule (bit_or dir_c dir_s) phase_ready true true nonzero_number nonzero_number zero_number
        empty_payload
        (TlvType.transaction_id ∷ TlvType.node_callsign ∷ TlvType.source_callsign
          ∷ TlvType.transmit_time_limit ∷ [])
        tx_only []
    else if typ == PacketType.stream_end
    then rule (bit_or dir_c dir_s) phase_ready true true nonzero_number nonzero_number any_number
        empty_payload tx_only (TlvType.transaction_id ∷ TlvType.end_reason ∷ []) []
    else if typ == PacketType.stream_revoke
    then rule (bit_or dir_c dir_s) phase_ready true true nonzero_number nonzero_number any_number
        empty_payload (TlvType.transaction_id ∷ TlvType.end_reason ∷ []) tx_only []
    else if typ == PacketType.audio
    then rule (bit_or dir_c dir_s) phase_ready true false nonzero_number nonzero_number any_number
        nonempty_payload [] [] []
    else if typ == PacketType.media_data
    then rule (bit_or dir_c dir_s) phase_ready true false nonzero_number nonzero_number any_number
        nonempty_payload (TlvType.data_type ∷ []) [] []
    else none
