-- ===== src/Wire/Validate/Accepted.antt =====
-- pkg/wire/validate.go: what the reflector and the client rely on after Validate.
use opusref.Base.{
  ℕ, ◌≡◌, ◌≢◌, ◌⊎◌, refl, List, [], ◌∷◌, ◌++◌, Bool, true, false, not, ◌&&◌, ◌||◌, ◌==◌,
  if◌then◌else◌, bit_and, length, some, has, ok, contains, arith, >>=-eq-ok, guard-eq-ok, ==_iff,
  ap,
}
use opusref.Wire.Types.{Tlv, Packet, has_response}
use opusref.Wire.PacketType
use opusref.Wire.TlvType
use opusref.Wire.TlvType.{base_type, known_tlv}
use opusref.Wire.Rules.{
  AdmissionPhase, pre_admission, connected, ready, unknown_phase, ValidationContext, PacketRule,
  rules, invalid, malformed, extensions_field,
}
use opusref.Base.{IsBytes, Option-cases, inl, inr}
use opusref.Wire.Tlv.{valid_value}
use opusref.Wire.Codec.{decode}
use opusref.Wire.Helpers.Found.{find-decode}
use opusref.Wire.Helpers.{find_extension, find}
use opusref.Wire.Validate.{
  check_number, check_payload, phase_bit, present_extensions, has_all, check_flags,
  check_extensions, validate,
}
use opusref.Wire.Validate.Matrix.{validate-IsValid}

-- The rows of AUDIO and DATA.
media_row :
    (typ : ℕ) (r : PacketRule)
    → rules typ ≡ some r
    → (typ == PacketType.audio || typ == PacketType.media_data) ≡ true
    → (r.phases ≡ 4)
      × (r.request ≡ true)
      × (r.response ≡ false)
      × ((n : ℕ) → check_number r.session n ≡ not (n == 0))
      × ((n : ℕ) → check_number r.stream n ≡ not (n == 0))
      × ((payload : List ℕ) → check_payload r.payload payload ≡ not (length payload == 0))
unfolding rules check_number check_payload
media_row typ r h k = ground arith

-- Every row but those of ERROR, AUDIO and DATA asks for a transaction ID, of the requests and of
-- the responses that it has.
transaction_row :
    (typ : ℕ) (r : PacketRule)
    → rules typ ≡ some r
    → (typ == PacketType.error || typ == PacketType.audio || typ == PacketType.media_data) ≡ false
    → ((r.request ≡ false) ⊎ (contains r.request_required TlvType.transaction_id ≡ true))
      × ((r.response ≡ false) ⊎ (contains r.response_required TlvType.transaction_id ≡ true))
unfolding rules contains
transaction_row typ r h k = ground arith

ready_phase :
    (phase : AdmissionPhase) {n : ℕ}
    → phase_bit phase ≡ ok n
    → not (bit_and 4 n == 0) ≡ true
    → phase ≡ ready
unfolding phase_bit
ready_phase pre_admission h k = ground (arith, h, k)
ready_phase connected h k = ground arith
ready_phase ready h k = refl
ready_phase unknown_phase h k = ground arith

-- An AUDIO or DATA packet that Validate accepts belongs to a ready session: it is no response and
-- no retry, names a session and a stream, and carries a payload.
pub validate-media :
    (p : Packet) (c : ValidationContext)
    → validate p c ≡ ok tt
    → (p.header.typ == PacketType.audio || p.header.typ == PacketType.media_data) ≡ true
    → (c.phase ≡ ready)
      × (p.header.flags ≡ 0)
      × (p.header.session_id ≢ 0)
      × (p.header.stream_id ≢ 0)
      × (p.payload ≢ [])
unfolding check_flags
validate-media p c h media =
    let v = validate-IsValid p c h in
    let (phases, request, response, session, stream, payload) = media_row _ _ v.row media in
    (
      ready_phase c.phase v.stage (ground (arith, v.staged, phases)),
      ground (arith, v.flags, media),
      ground (arith, v.session, session p.header.session_id),
      ground (arith, v.stream, stream p.header.stream_id),
      λ e. absurd (ground (arith, v.payload, payload p.payload, ap length e)),
    )

present-find :
    (allowed : List ℕ) (xs : List Tlv) (typ : ℕ) {present : List ℕ}
    → present_extensions allowed xs ≡ ok present
    → contains present typ ≡ true
    → has (find_extension xs typ) ≡ true
unfolding present_extensions contains find_extension
present-find allowed [] typ h k = ground arith
present-find allowed (tlv ∷ rest) typ h k =
    let (_, h1) =
      guard-eq-ok
        (not (known_tlv (base_type tlv.typ) && not (contains allowed (base_type tlv.typ))))
        (invalid malformed extensions_field) _ h in
    let (present, more, e) = >>=-eq-ok (present_extensions allowed rest) _ h1 in
    ground (arith, present-find allowed rest typ {present = present} more)

has_all-contains :
    (required present : List ℕ) (typ : ℕ)
    → has_all required present ≡ true
    → contains required typ ≡ true
    → contains present typ ≡ true
unfolding has_all contains
has_all-contains [] present typ h k = ground arith
has_all-contains (x ∷ rest) present typ h k =
    ground (arith, ==_iff x typ, has_all-contains rest present typ)

required-find :
    (r : PacketRule) (response : Bool) (xs : List Tlv) (typ : ℕ)
    → check_extensions r response xs ≡ ok tt
    → contains (if response then r.response_required else r.request_required) typ ≡ true
    → has (find_extension xs typ) ≡ true
unfolding check_extensions
required-find r response xs typ h k =
    let required = if response then r.response_required else r.request_required in
    let (present, h1, h2) = >>=-eq-ok (present_extensions (required ++ r.optional) xs) _ h in
    present-find _ xs typ h1 (has_all-contains required present typ (ground (arith, h2)) k)

-- Every packet that Validate accepts, but an ERROR and media, carries a transaction ID.
pub validate-transaction :
    (p : Packet) (c : ValidationContext)
    → validate p c ≡ ok tt
    → (p.header.typ == PacketType.error
        || p.header.typ == PacketType.audio
        || p.header.typ == PacketType.media_data)
      ≡ false
    → has (find p TlvType.transaction_id) ≡ true
unfolding check_flags find
validate-transaction p c h k =
    let v = validate-IsValid p c h in
    let (request, response) = transaction_row _ _ v.row k in
    required-find v.rule (has_response p.header.flags) p.extensions TlvType.transaction_id
      v.extensions (ground (arith, v.flags, request, response))

-- Of a datagram that Decode and Validate accept, and that is no ERROR, AUDIO or DATA, Find gives a
-- transaction ID of eight bytes: the reflector reads a uint64 off it without looking again.
pub validate-decode :
    (datagram : List ℕ) (p : Packet) (c : ValidationContext)
    → IsBytes datagram
    → decode datagram ≡ ok p
    → validate p c ≡ ok tt
    → (p.header.typ == PacketType.error
        || p.header.typ == PacketType.audio
        || p.header.typ == PacketType.media_data)
      ≡ false
    → (tx : List ℕ) × (find p TlvType.transaction_id ≡ some tx) × (length tx ≡ 8)
unfolding valid_value
validate-decode datagram p c bytes h valid k = elim (Option-cases (find p TlvType.transaction_id)) [
  | inl none_found ↦ absurd (ground (arith, validate-transaction p c valid k, none_found))
  | inr (tx, found) ↦
      (tx, found, ground (arith, find-decode datagram bytes h TlvType.transaction_id found))
]
