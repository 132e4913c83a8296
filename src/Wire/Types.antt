-- ===== src/Wire/Types.antt =====
-- pkg/wire/wire.go and the types of codec.go. Integers of w bits are numbers below 2 ^ w: the
-- ranges are the record `HeaderFits` and the predicate `PacketFits`, which hold of every Go value.
use opusref.Base.{
  ℕ, ◌<◌, ◌/◌, ◌%◌, ◌*◌, List, [], ◌∷◌, Bool, ◌==◌, All, IsBytes, u8_mod, u16_mod, u32_mod,
}
use opusref.Base.{u64_mod}

abbrev pub version1 : ℕ
version1 = 1

abbrev pub base_header_size : ℕ
base_header_size = 32

abbrev pub max_datagram_size : ℕ
max_datagram_size = 1200

abbrev pub callsign_size : ℕ
callsign_size = 10

-- "OPRF".
abbrev pub magic : List ℕ
magic = b'O' ∷ b'P' ∷ b'R' ∷ b'F' ∷ []

-- A Header; `typ` is its Type.
pub record Header : Type 0 where
  pub version : ℕ
  pub typ : ℕ
  pub flags : ℕ
  pub header_length : ℕ
  pub payload_length : ℕ
  pub session_id : ℕ
  pub stream_id : ℕ
  pub sequence : ℕ
  pub timestamp : ℕ

pub record Tlv : Type 0 where
  pub typ : ℕ
  pub value : List ℕ

pub record Packet : Type 0 where
  pub header : Header
  pub extensions : List Tlv
  pub payload : List ℕ

-- The two sentinel errors of codec.go; the texts that wrap them are left out. `out_of_fuel` is no
-- Go value: it would say that the extension loop was given too few rounds.
pub data Error : Type 0 where
  malformed_packet unsupported_version out_of_fuel : Error

pub record HeaderFits (h : Header) : Type 0 where
  pub version_fits : h.version < u8_mod
  pub typ_fits : h.typ < u8_mod
  pub flags_fits : h.flags < u16_mod
  pub session_fits : h.session_id < u64_mod
  pub stream_fits : h.stream_id < u32_mod
  pub sequence_fits : h.sequence < u32_mod
  pub timestamp_fits : h.timestamp < u32_mod

abbrev pub TlvFits : Tlv → Type 0
TlvFits t = (t.typ < u16_mod) × IsBytes t.value

pub record PacketFits (p : Packet) : Type 0 where
  pub header_fits : HeaderFits p.header
  pub extensions_fit : All TlvFits p.extensions
  pub payload_fits : IsBytes p.payload

-- FlagResponse is bit 0, FlagRetry bit 1, and FlagReservedMask 0xfffc the rest of the 16.
abbrev pub flag_response : ℕ
flag_response = 1

abbrev pub flag_retry : ℕ
flag_retry = 2

-- `flags & FlagResponse != 0`.
abbrev pub has_response : ℕ → Bool
has_response flags = flags % 2 == 1

-- `flags & FlagRetry != 0`.
abbrev pub has_retry : ℕ → Bool
has_retry flags = flags / 2 % 2 == 1

-- `flags & FlagReservedMask`.
abbrev pub reserved_flags : ℕ → ℕ
reserved_flags flags = flags / 4 * 4
