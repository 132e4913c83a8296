-- ===== src/Wire/Tlv.antt =====
-- pkg/wire/codec.go: the size of an extension on the wire and the checks on its value.
use opusref.Base.{
  ℕ, ◌+◌, ◌*◌, ◌/◌, List, [], ◌∷◌, Bool, true, false, not, ◌&&◌, ◌||◌, ◌==◌, leb, ltb,
  if◌then◌else◌, length, be16, be32, guard, Result,
}
use opusref.Wire.Types.{Error, malformed_packet, callsign_size}
use opusref.Wire.TlvType
use opusref.Wire.Utf8.{utf8_valid}

-- `(4 + valueLength + 3) &^ 3` clears the two low bits.
abbrev pub aligned_tlv_size : ℕ → ℕ
aligned_tlv_size value_length = (4 + value_length + 3) / 4 * 4

-- One character of a callsign: A-Z, 0-9, / or -.
unfoldable pub identifier_char : ℕ → Bool
identifier_char c =
    (leb b'A' c && leb c b'Z') || (leb b'0' c && leb c b'9') || c == b'/' || c == b'-'

-- `for _, char := range value[contentLength:]`.
unfoldable pub all_spaces : List ℕ → Bool
all_spaces [] = true
all_spaces (c ∷ cs) = c == b' ' && all_spaces cs

-- The loop over the content: at the first space it goes over to the loop over the padding, which
-- starts at that space. `seen` says whether a character stands before it: contentLength is not 0.
unfoldable pub content : Bool → List ℕ → Bool
content seen [] = true
content seen (c ∷ cs) =
    let rest = content true cs in
    if c == b' ' then seen && all_spaces (c ∷ cs) else identifier_char c && rest

unfoldable pub valid_padded_identifier : List ℕ → ℕ → Bool
valid_padded_identifier value size = length value == size && ltb 0 size && content false value

-- The switch of validateTLVValue: whether `value` suits the type. An unknown type takes anything.
unfoldable pub valid_value : ℕ → List ℕ → Bool
valid_value type_id value =
    if type_id == TlvType.transaction_id
    then length value == 8
    else if type_id == TlvType.node_callsign
    then valid_padded_identifier value callsign_size
    else if type_id == TlvType.source_callsign
    then valid_padded_identifier value callsign_size
    else if type_id == TlvType.reflector_id
    then valid_padded_identifier value 16
    else if type_id == TlvType.display_name
    then leb 1 (length value) && leb (length value) 64 && utf8_valid value
    else if type_id == TlvType.client_nonce
    then length value == 32
    else if type_id == TlvType.server_nonce
    then length value == 32
    else if type_id == TlvType.authentication_tag
    then length value == 32
    else if type_id == TlvType.data_type
    then length value == 2 && not (be16 value == 0)
    else if type_id == TlvType.error_code
    then length value == 2 && leb 1 (be16 value) && leb (be16 value) 8
    else if type_id == TlvType.error_text
    then leb 1 (length value) && leb (length value) 128 && utf8_valid value
    else if type_id == TlvType.transmit_time_limit
    then length value == 4 && not (be32 value == 0)
    else if type_id == TlvType.end_reason
    then length value == 2 && leb (be16 value) 5
    else true

unfoldable pub validate_tlv_value : ℕ → List ℕ → Result Error (Unit {0})
validate_tlv_value type_id value = guard (valid_value type_id value) malformed_packet
