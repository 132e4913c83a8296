-- ===== src/Wire/Codec.antt =====
-- pkg/wire/codec.go: Encode and Decode. The proofs are in the modules below.
pub mod Reads
pub mod Rounds
pub mod Decoded
pub mod Fuel
pub mod HeaderBytes
pub mod RoundTrip
pub mod Canonical
use opusref.Base.{
  ℕ, zero, suc, ◌+◌, ◌-◌, ◌%◌, List, [], ◌∷◌, ◌++◌, Bool, true, false, not, ◌&&◌, ◌||◌, ◌==◌, leb,
  ltb, length, drop, slice, get_or, replicate, be16, be32, be64, put16, put32, put64, bytes_equal,
  contains, Result, ok, err, ◌>>=◌, ◌>>◌, guard,
}
use opusref.Wire.Types.{
  Header, Tlv, Packet, Error, malformed_packet, unsupported_version, out_of_fuel, version1, magic,
  base_header_size, max_datagram_size, reserved_flags,
}
use opusref.Wire.TlvType.{base_type, is_critical, known_tlv}
use opusref.Wire.Tlv.{aligned_tlv_size, validate_tlv_value}

-- The loop of validateExtensions: `seen` is the map of base types met so far. The result is the
-- size of all extensions on the wire.
unfoldable pub validate_extensions : List Tlv → List ℕ → Result Error ℕ
validate_extensions [] seen = ok 0
validate_extensions (extension ∷ rest) seen = do
  let base = base_type extension.typ
  guard (leb (length extension.value) 65535) malformed_packet
  guard (not (contains seen base)) malformed_packet
  guard (not (is_critical extension.typ && not (known_tlv base))) malformed_packet
  validate_tlv_value base extension.value
  total ← validate_extensions rest (base ∷ seen)
  ok (aligned_tlv_size (length extension.value) + total)

-- The bytes that Encode's loop over the extensions leaves: `data` starts out as zeros, and those
-- behind a value are its padding.
unfoldable pub put_extensions : List Tlv → List ℕ
put_extensions [] = []
put_extensions (extension ∷ rest) =
    let size = length extension.value in
    put16 extension.typ
    ++ (put16 size
        ++ (extension.value
            ++ (replicate (aligned_tlv_size size - (4 + size)) 0 ++ put_extensions rest)))

-- The first 32 bytes.
unfoldable pub put_header : Header → ℕ → ℕ → List ℕ
put_header h header_length payload_length =
    magic
    ++ (h.version
        ∷ h.typ
        ∷ (put16 h.flags
            ++ (put16 header_length
                ++ (put16 payload_length
                    ++ (put64 h.session_id
                        ++ (put32 h.stream_id ++ (put32 h.sequence ++ put32 h.timestamp)))))))

unfoldable pub encode : Packet → Result Error (List ℕ)
encode packet = do
  extension_length ← validate_extensions packet.extensions []
  let header_length = base_header_size + extension_length
  let total_length = header_length + length packet.payload
  guard (leb total_length max_datagram_size && leb (length packet.payload) 65535) malformed_packet
  guard (packet.header.version == version1) unsupported_version
  guard (reserved_flags packet.header.flags == 0) malformed_packet
  ok (
      put_header packet.header header_length (length packet.payload)
      ++ (put_extensions packet.extensions ++ packet.payload))

-- `for _, padding := range …`.
unfoldable pub all_zero : List ℕ → Bool
all_zero [] = true
all_zero (b ∷ bs) = b == 0 && all_zero bs

-- Of `rest`, the bytes data[offset:headerLength]: the value's length, and data[valueEnd:offset+tlvSize].
unfoldable pub value_length : List ℕ → ℕ
value_length rest = be16 (drop 2 rest)

unfoldable pub value_of : List ℕ → List ℕ
value_of rest = slice rest 4 (4 + value_length rest)

unfoldable pub padding_of : List ℕ → List ℕ
padding_of rest = slice rest (4 + value_length rest) (aligned_tlv_size (value_length rest))

-- The loop of Decode over the extensions. It goes on while offset < headerLength, which is that
-- `rest` is not empty; headerLength - offset is its length. Each round takes four bytes at least.
unfoldable pub get_extensions : ℕ → List ℕ → List ℕ → Result Error (List Tlv)
get_extensions fuel [] seen = ok []
get_extensions zero (b ∷ bs) seen = err out_of_fuel
get_extensions (suc fuel) (b ∷ bs) seen = do
  let rest = b ∷ bs
  guard (leb 4 (length rest)) malformed_packet
  let type_id = be16 rest
  let base = base_type type_id
  let size = aligned_tlv_size (value_length rest)
  guard (leb size (length rest)) malformed_packet
  guard (not (contains seen base)) malformed_packet
  guard (not (is_critical type_id && not (known_tlv base))) malformed_packet
  guard (all_zero (padding_of rest)) malformed_packet
  validate_tlv_value base (value_of rest)
  more ← get_extensions fuel (drop size rest) (base ∷ seen)
  ok (record { typ = type_id; value = value_of rest } ∷ more)

-- The Header literal of Decode.
unfoldable pub get_header : List ℕ → Header
get_header datagram = record {
  version = get_or datagram 4 0;
  typ = get_or datagram 5 0;
  flags = be16 (slice datagram 6 8);
  header_length = be16 (slice datagram 8 10);
  payload_length = be16 (slice datagram 10 12);
  session_id = be64 (slice datagram 12 20);
  stream_id = be32 (slice datagram 20 24);
  sequence = be32 (slice datagram 24 28);
  timestamp = be32 (slice datagram 28 32);
}

-- `size` rounds are enough for the extensions of a datagram of `size` bytes.
unfoldable pub decode : List ℕ → Result Error Packet
decode datagram = do
  let size = length datagram
  guard (leb base_header_size size && leb size max_datagram_size) malformed_packet
  guard (bytes_equal (slice datagram 0 4) magic) malformed_packet
  guard (get_or datagram 4 0 == version1) unsupported_version
  let header_length = be16 (slice datagram 8 10)
  let payload_length = be16 (slice datagram 10 12)
  guard (leb base_header_size header_length && header_length % 4 == 0 && leb header_length size)
      malformed_packet
  guard (header_length + payload_length == size) malformed_packet
  guard (reserved_flags (be16 (slice datagram 6 8)) == 0) malformed_packet
  extensions ← get_extensions size (slice datagram base_header_size header_length) []
  ok (record {
    header = get_header datagram;
    extensions = extensions;
    payload = drop header_length datagram;
  })
