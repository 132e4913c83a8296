-- ===== src/Wire/Codec/Canonical.antt =====
-- pkg/wire/codec.go: Encode after Decode.
use opusref.Base.{
  ℕ, ◌+◌, ◌-◌, ◌≡◌, sym, ap, ap₂, ◌∙◌, subst, List, [], ◌++◌, true, ◌&&◌, ◌==◌, leb, ==_iff, length,
  drop, slice, IsByte, IsBytes, ok, arith, length-slice, length-drop, slice-append-drop, All-drop,
  slice-IsBytes,
}
use opusref.Wire.Types.{
  HeaderFits, Packet, PacketFits, version1, base_header_size, max_datagram_size, reserved_flags,
}
use opusref.Wire.Codec.{put_extensions, put_header, encode, decode}
use opusref.Wire.Codec.Decoded.{IsDatagram, decode-IsDatagram}
use opusref.Wire.Codec.Rounds.{PutsBack, get_extensions-PutsBack}
use opusref.Wire.Codec.HeaderBytes.{put_header-get_header, get_header-HeaderFits}

module _ (d : List ℕ) {p : Packet} (bytes : IsBytes d) (v : IsDatagram d p) where
  back : PutsBack p.extensions (slice d base_header_size p.header.header_length) []
  back = get_extensions-PutsBack (length d) _ [] (slice-IsBytes d bytes _ _) v.extensions

  length-extensions :
      length (slice d base_header_size p.header.header_length)
      ≡ p.header.header_length - base_header_size
  length-extensions = length-slice d _ _ v.head (omega arith)

  length-payload : length p.payload ≡ p.header.payload_length
  length-payload = omega (arith, ap length v.payload, length-drop p.header.header_length d)

  tail : put_extensions p.extensions ++ p.payload ≡ drop 32 d
  tail =
      ap₂ (λ x y. x ++ y) back.puts (sym v.payload)
      ∙ slice-append-drop d base_header_size p.header.header_length v.head

  whole : put_header p.header p.header.header_length p.header.payload_length ++ drop 32 d ≡ d
  whole =
      subst (λ h. put_header h h.header_length h.payload_length ++ drop 32 d ≡ d) v.header
        (put_header-get_header d bytes v.long v.opens)

  encode_datagram : encode p ≡ ok d
  unfolding encode
  encode_datagram =
      rw (back.accepts, length-extensions, length-payload, hl, total, version, flags)
        (ap ok (
          ap (◌++◌ (put_header p.header p.header.header_length p.header.payload_length)) tail
          ∙ whole))
    where
      hl : base_header_size + (p.header.header_length - base_header_size) ≡ p.header.header_length
      hl = omega arith

      total :
          (leb (p.header.header_length + p.header.payload_length) max_datagram_size
            && leb p.header.payload_length 65535)
          ≡ true
      total = ground arith

      version : (p.header.version == version1) ≡ true
      version = (==_iff _ _).1 v.version

      flags : (reserved_flags p.header.flags == 0) ≡ true
      flags = (==_iff _ _).1 v.no_reserved

  datagram_fits : PacketFits p
  datagram_fits = record {
    header_fits = subst HeaderFits v.header (get_header-HeaderFits d bytes);
    extensions_fit = back.fits;
    payload_fits = subst IsBytes v.payload (All-drop IsByte _ d bytes);
  }

-- A datagram that Decode accepts is the one that Encode makes of the packet: nothing of it is
-- lost, and no other bytes are read as the same packet.
pub encode-decode : (d : List ℕ) {p : Packet} → IsBytes d → decode d ≡ ok p → encode p ≡ ok d
encode-decode d bytes h = encode_datagram d bytes (decode-IsDatagram d h)

-- What Decode gives for a slice of bytes is a Go value: every field of the header is within its width,
-- every extension type within 16 bits, and every value and the payload are bytes.
pub decode-PacketFits : (d : List ℕ) {p : Packet} → IsBytes d → decode d ≡ ok p → PacketFits p
decode-PacketFits d bytes h = datagram_fits d bytes (decode-IsDatagram d h)
