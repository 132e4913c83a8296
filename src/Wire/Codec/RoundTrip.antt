-- ===== src/Wire/Codec/RoundTrip.antt =====
-- pkg/wire/codec.go: Decode after Encode.
use opusref.Base.{
  ℕ, ◌+◌, ◌-◌, ◌≤◌, ◌<◌, ◌≡◌, refl, ap, ◌∙◌, subst, List, [], ◌++◌, true, ◌==◌, leb→le, ==_iff,
  length, take, drop, slice, be16, ok, guard-eq-ok, get_or, be32, be64, be32-put32, be64-put64,
  &&-true, >>=-eq-ok, arith, length-append, take-append, drop-append, drop-add, u16_mod,
}
use opusref.Wire.Types.{
  Header, HeaderFits, Packet, PacketFits, version1, magic, base_header_size, max_datagram_size,
  reserved_flags,
}
use opusref.Wire.Codec.{validate_extensions, put_extensions, put_header, get_header, encode, decode}
use opusref.Wire.Codec.Decoded.{IsDatagram, IsDatagram-decode}
use opusref.Wire.Codec.Reads.{
  validate_extensions_aligned, length-put_extensions, get_extensions-put_extensions,
}

-- The packet that a decoder sees: Encode fills in the two lengths.
abbrev pub sent : Packet → Packet
sent p = record p {
  header = record p.header {
    header_length = base_header_size + length (put_extensions p.extensions);
    payload_length = length p.payload;
  };
}

-- What a successful Encode has found.
pub record IsEncoding (p : Packet) (datagram : List ℕ) : Type 0 where
  pub size : ℕ
  pub checked : validate_extensions p.extensions [] ≡ ok size
  pub total_short : base_header_size + size + length p.payload ≤ max_datagram_size
  pub version : p.header.version ≡ version1
  pub no_reserved : (reserved_flags p.header.flags == 0) ≡ true
  pub bytes :
      put_header p.header (base_header_size + size) (length p.payload)
        ++ (put_extensions p.extensions ++ p.payload)
      ≡ datagram

pub encode-IsEncoding :
    (p : Packet) {datagram : List ℕ} → encode p ≡ ok datagram → IsEncoding p datagram
unfolding encode
encode-IsEncoding p h =
    let (size, checked, h1) = >>=-eq-ok _ _ h in
    let (total, h2) = guard-eq-ok _ _ _ h1 in
    let (version, h3) = guard-eq-ok _ _ _ h2 in
    let (flags, h4) = guard-eq-ok _ _ _ h3 in
    record {
      size = size;
      checked = checked;
      total_short = leb→le _ _ (&&-true _ _ total).0;
      version = (==_iff _ _).0 version;
      no_reserved = flags;
      bytes = cc;
    }

module _ (h : Header) (header_length payload_length : ℕ) (tail : List ℕ) where
  abbrev datagram_of : List ℕ
  datagram_of = put_header h header_length payload_length ++ tail

  length-datagram : length datagram_of ≡ 32 + length tail
  unfolding put_header
  length-datagram = omega arith

  drop-header : drop 32 datagram_of ≡ tail
  unfolding put_header
  drop-header = refl

  magic-head : slice datagram_of 0 4 ≡ magic
  unfolding put_header
  magic-head = refl

  version-head : get_or datagram_of 4 0 ≡ h.version
  unfolding put_header
  version-head = refl

module _ (h : Header) (header_length payload_length : ℕ) (tail : List ℕ) (fits : HeaderFits h)
    (header_fits : header_length < u16_mod) (payload_fits : payload_length < u16_mod) where
  abbrev d : List ℕ
  d = datagram_of h header_length payload_length tail

  flags-head : be16 (slice d 6 8) ≡ h.flags
  unfolding put_header
  flags-head = omega arith

  header_length-head : be16 (slice d 8 10) ≡ header_length
  unfolding put_header
  header_length-head = omega arith

  payload_length-head : be16 (slice d 10 12) ≡ payload_length
  unfolding put_header
  payload_length-head = omega arith

  session-head : be64 (slice d 12 20) ≡ h.session_id
  unfolding put_header
  session-head = omega (arith, be64-put64 h.session_id)

  stream-head : be32 (slice d 20 24) ≡ h.stream_id
  unfolding put_header
  stream-head = omega (arith, be32-put32 h.stream_id)

  sequence-head : be32 (slice d 24 28) ≡ h.sequence
  unfolding put_header
  sequence-head = omega (arith, be32-put32 h.sequence)

  timestamp-head : be32 (slice d 28 32) ≡ h.timestamp
  unfolding put_header
  timestamp-head = omega (arith, be32-put32 h.timestamp)

  get_header-put_header :
      get_header d ≡ record h { header_length = header_length; payload_length = payload_length }
  unfolding get_header put_header
  get_header-put_header = λ i. record {
    version = version-head h header_length payload_length tail i;
    typ = h.typ;
    flags = flags-head i;
    header_length = header_length-head i;
    payload_length = payload_length-head i;
    session_id = session-head i;
    stream_id = stream-head i;
    sequence = sequence-head i;
    timestamp = timestamp-head i;
  }

encode-IsDatagram :
    (p : Packet) {d : List ℕ} → PacketFits p → IsEncoding p d → IsDatagram d (sent p)
encode-IsDatagram p {d} fits e =
    subst (λ d. IsDatagram d (sent p)) e.bytes
      (record {
        long = omega (arith, len);
        short = omega (arith, len);
        opens = magic-head p.header hl pl tail;
        version = e.version;
        head = omega (arith, size);
        aligned = omega (arith, size, validate_extensions_aligned p.extensions [] e.checked);
        exact = omega (arith, size, len);
        no_reserved = (==_iff _ _).0 e.no_reserved;
        header = rw size (
            get_header-put_header p.header hl pl tail fits.header_fits (omega arith) (omega arith));
        extensions =
            rw (drop-header p.header hl pl tail, take_extensions)
              (get_extensions-put_extensions p.extensions [] _ fits.extensions_fit e.checked
                (omega (arith, len)));
        payload =
            drop-add 32 (length (put_extensions p.extensions)) _
            ∙ ap (drop _) (drop-header p.header hl pl tail)
            ∙ drop-append _ (put_extensions p.extensions) p.payload refl;
      })
  where
    hl : ℕ
    hl = base_header_size + e.size

    pl : ℕ
    pl = length p.payload

    tail : List ℕ
    tail = put_extensions p.extensions ++ p.payload

    size : length (put_extensions p.extensions) ≡ e.size
    size = length-put_extensions p.extensions [] fits.extensions_fit e.checked

    len : length (put_header p.header hl pl ++ tail) ≡ hl + pl
    len = omega (
      arith,
      length-datagram p.header hl pl tail,
      length-append (put_extensions p.extensions) p.payload,
      size,
    )

    take_extensions :
        take (base_header_size + length (put_extensions p.extensions) - base_header_size) tail
        ≡ put_extensions p.extensions
    take_extensions = take-append _ (put_extensions p.extensions) p.payload (omega arith)

-- What Encode puts, Decode reads back: the same packet, with the two lengths of its header set to
-- the lengths of its parts. So every datagram that Encode makes is accepted.
pub decode-encode :
    (p : Packet) {datagram : List ℕ}
    → PacketFits p
    → encode p ≡ ok datagram
    → decode datagram ≡ ok (sent p)
decode-encode p {datagram} fits h =
    IsDatagram-decode datagram (encode-IsDatagram p fits (encode-IsEncoding p h))
