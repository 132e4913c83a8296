-- ===== src/Wire/TlvType.antt =====
-- pkg/wire/wire.go, the header extension types and their critical bit. A TLVType is a uint16.
use opusref.Base.{ℕ, ◌%◌, Bool, leb, ◌&&◌}

abbrev pub critical_mask : ℕ
critical_mask = 0x8000

abbrev pub transaction_id : ℕ
transaction_id = 0x0001

abbrev pub node_callsign : ℕ
node_callsign = 0x0002

abbrev pub source_callsign : ℕ
source_callsign = 0x0003

abbrev pub reflector_id : ℕ
reflector_id = 0x0004

abbrev pub display_name : ℕ
display_name = 0x0005

abbrev pub client_nonce : ℕ
client_nonce = 0x0006

abbrev pub server_nonce : ℕ
server_nonce = 0x0007

abbrev pub authentication_tag : ℕ
authentication_tag = 0x0008

abbrev pub data_type : ℕ
data_type = 0x0009

abbrev pub error_code : ℕ
error_code = 0x000a

abbrev pub error_text : ℕ
error_text = 0x000b

abbrev pub transmit_time_limit : ℕ
transmit_time_limit = 0x000c

abbrev pub end_reason : ℕ
end_reason = 0x000d

-- `typeID &^ TLVCriticalMask` clears bit 15 of 16.
abbrev pub base_type : ℕ → ℕ
base_type type_id = type_id % critical_mask

-- `typeID & TLVCriticalMask != 0` on 16 bits.
abbrev pub is_critical : ℕ → Bool
is_critical type_id = leb critical_mask type_id

-- `knownTLV`.
unfoldable pub known_tlv : ℕ → Bool
known_tlv type_id = leb transaction_id type_id && leb type_id end_reason
