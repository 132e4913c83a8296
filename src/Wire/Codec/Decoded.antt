-- ===== src/Wire/Codec/Decoded.antt =====
-- pkg/wire/codec.go: what Decode has found when it succeeds, and that it succeeds then.
use opusref.Base.{
  ℕ, ◌+◌, ◌%◌, ◌≤◌, ◌≡◌, refl, ap, subst, List, [], true, ◌&&◌, ◌==◌, leb, leb→le, ==_iff, length,
  drop, slice, be16, ok, guard-eq-ok, ok-injective, get_or, bytes_equal, bytes_equal_refl, &&-true,
  bytes_equal→eq, >>=-eq-ok, arith,
}
use opusref.Wire.Types.{
  Packet, malformed_packet, unsupported_version, version1, magic, base_header_size,
  max_datagram_size, reserved_flags,
}
use opusref.Wire.Codec.{get_extensions, get_header, decode}

pub record IsDatagram (d : List ℕ) (p : Packet) : Type 0 where
  pub long : base_header_size ≤ length d
  pub short : length d ≤ max_datagram_size
  pub opens : slice d 0 4 ≡ magic
  pub version : p.header.version ≡ version1
  pub head : base_header_size ≤ p.header.header_length
  pub aligned : p.header.header_length % 4 ≡ 0
  pub exact : p.header.header_length + p.header.payload_length ≡ length d
  pub no_reserved : reserved_flags p.header.flags ≡ 0
  pub header : get_header d ≡ p.header
  pub extensions :
      get_extensions (length d) (slice d base_header_size p.header.header_length) []
      ≡ ok p.extensions
  pub payload : drop p.header.header_length d ≡ p.payload

pub decode-IsDatagram : (d : List ℕ) {p : Packet} → decode d ≡ ok p → IsDatagram d p
unfolding decode get_header
decode-IsDatagram d h =
    let hl = be16 (slice d 8 10) in
    let pl = be16 (slice d 10 12) in
    let (size, h1) =
      guard-eq-ok (leb base_header_size (length d) && leb (length d) max_datagram_size)
        malformed_packet _ h in
    let (opens, h2) = guard-eq-ok (bytes_equal (slice d 0 4) magic) malformed_packet _ h1 in
    let (version, h3) = guard-eq-ok (get_or d 4 0 == version1) unsupported_version _ h2 in
    let (head, h4) =
      guard-eq-ok (leb base_header_size hl && hl % 4 == 0 && leb hl (length d)) malformed_packet _
        h3 in
    let (exact, h5) = guard-eq-ok (hl + pl == length d) malformed_packet _ h4 in
    let (flags, h6) =
      guard-eq-ok (reserved_flags (be16 (slice d 6 8)) == 0) malformed_packet _ h5 in
    let (xs, got, h7) =
      >>=-eq-ok (get_extensions (length d) (slice d base_header_size hl) [])
        (λ xs. ok (record { header = get_header d; extensions = xs; payload = drop hl d })) h6 in
    let (long, short) = &&-true _ _ size in
    let (first, _) = &&-true _ _ head in
    let (head, aligned) = &&-true _ _ first in
    subst (IsDatagram d) (ok-injective h7) (record {
      long = leb→le _ _ long;
      short = leb→le _ _ short;
      opens = bytes_equal→eq _ _ opens;
      version = (==_iff _ _).0 version;
      head = leb→le _ _ head;
      aligned = (==_iff _ _).0 aligned;
      exact = (==_iff _ _).0 exact;
      no_reserved = (==_iff _ _).0 flags;
      header = refl;
      extensions = got;
      payload = refl;
    })

pub IsDatagram-decode : (d : List ℕ) {p : Packet} → IsDatagram d p → decode d ≡ ok p
unfolding decode
IsDatagram-decode d {p} v =
    let hl : be16 (slice d 8 10) ≡ p.header.header_length =
      unfold get_header in ap (λ h. h.header_length) v.header in
    let pl : be16 (slice d 10 12) ≡ p.header.payload_length =
      unfold get_header in ap (λ h. h.payload_length) v.header in
    let version : get_or d 4 0 ≡ p.header.version =
      unfold get_header in ap (λ h. h.version) v.header in
    let flags : be16 (slice d 6 8) ≡ p.header.flags =
      unfold get_header in ap (λ h. h.flags) v.header in
    let t1 : (leb base_header_size (length d) && leb (length d) max_datagram_size) ≡ true =
      ground arith in
    let t2 : bytes_equal (slice d 0 4) magic ≡ true = rw v.opens (bytes_equal_refl magic) in
    let t3 : (get_or d 4 0 == version1) ≡ true = rw (version, v.version) in
    let t4 : (leb base_header_size (be16 (slice d 8 10))
          && be16 (slice d 8 10) % 4 == 0
          && leb (be16 (slice d 8 10)) (length d))
        ≡ true =
      rw hl (ground arith) in
    let t5 : (be16 (slice d 8 10) + be16 (slice d 10 12) == length d) ≡ true =
      rw (hl, pl) (ground arith) in
    let t6 : (reserved_flags (be16 (slice d 6 8)) == 0) ≡ true = rw (flags, v.no_reserved) in
    rw (t1, t2, t3, t4, t5, t6, hl, v.extensions, v.header, v.payload)
