-- ===== src/Client/Granted.antt =====
-- pkg/client/udp.go: RequestFloor takes nothing but a STREAM_GRANT for a success.
use opusref.Base.{
  ℕ, ◌≡◌, ◌<◌, ◌==◌, List, [], ◌∷◌, true, false, none, Result-cases, inl, inr, ok, contains, be64,
  put64, be64-put64, u64_mod, arith, subst, ap, ◌∙◌,
}
use opusref.Wire.Types.{Packet}
use opusref.Wire.PacketType
use opusref.Wire.TlvType
use opusref.Wire.Helpers.{find, find_extension, uint64_tlv, callsign}
use opusref.Reflector.Packets.{tlv}
use opusref.Client.Types.{Outbound}
use opusref.Client.Receiving.{Receiver}
use opusref.Client.Packets.{control_packet, request_packet}
use opusref.Client.Requests.{Attempt, request_key, request}
use opusref.Client.Replies.{IsReply}
use opusref.Client.Asking.{request-IsReply}
use opusref.Client.Sender.{sender_request_floor}

abbrev pub floor_answers : List ℕ
floor_answers = PacketType.stream_grant ∷ PacketType.stream_busy ∷ []

drawn : (tx : ℕ) → tx < u64_mod → be64 (put64 tx) ≡ tx
drawn tx fits = ground (arith, be64-put64 tx, fits)

request_packet-key :
    (unicode_upper : List ℕ → List ℕ) (session tx : ℕ) (out : Outbound) {p : Packet}
    → tx < u64_mod
    → request_packet unicode_upper session tx out ≡ ok p
    → request_key p ≡ record { tx = tx; stream = out.stream_id }
unfolding request_packet find find_extension uint64_tlv
request_packet-key unicode_upper session tx out {p} fits h =
    elim (Result-cases (callsign unicode_upper out.source_callsign)) [
      | inl (e, known) ↦ ground (arith, h, known)
      | inr (source, known) ↦
          let made : control_packet PacketType.stream_request session out.stream_id
                (uint64_tlv TlvType.transaction_id tx ∷ tlv TlvType.source_callsign source ∷ [])
              ≡ p =
            ground (arith, h, known) in
          subst (λ q. request_key q ≡ record { tx = tx; stream = out.stream_id }) made
            (ap (λ id. record { tx = id; stream = out.stream_id }) (drawn tx fits))
    ]

answered_floor :
    (unicode_upper : List ℕ → List ℕ) (during : ℕ → Attempt) (s : Receiver) (tx : ℕ)
    (out : Outbound)
    → (sender_request_floor unicode_upper during s tx out).1 ≡ none
    → (p : Packet) × (reply : Packet) × (request_packet unicode_upper s.session tx out ≡ ok p)
      × ((request during floor_answers s p).result ≡ ok reply)
      × ((reply.header.typ == PacketType.stream_busy) ≡ false)
unfolding sender_request_floor
answered_floor unicode_upper during s tx out h =
    elim (Result-cases (request_packet unicode_upper s.session tx out)) [
      | inl (e, made) ↦ ground (arith, h, made)
      | inr (p, made) ↦ elim (Result-cases (request during floor_answers s p).result) [
        | inl (e, got) ↦ ground (arith, h, made, got)
        | inr (reply, got) ↦ (p, reply, made, got, ground (arith, h, made, got))
      ]
    ]

granted_only :
    (typ : ℕ)
    → contains floor_answers typ ≡ true
    → (typ == PacketType.stream_busy) ≡ false
    → contains (PacketType.stream_grant ∷ []) typ ≡ true
unfolding contains
granted_only typ h k = ground arith

-- When RequestFloor returns no error, the reflector has granted the floor: the client has received a
-- STREAM_GRANT, not a STREAM_BUSY and no other packet, in its own session, for the stream that it asks
-- for and with the transaction ID that it drew. This is so whatever else arrives meanwhile.
pub sender_request_floor-IsReply :
    (unicode_upper : List ℕ → List ℕ) (during : ℕ → Attempt) (s : Receiver) (tx : ℕ)
    (out : Outbound)
    → tx < u64_mod
    → (sender_request_floor unicode_upper during s tx out).1 ≡ none
    → (p : Packet) × (reply : Packet) × (request_packet unicode_upper s.session tx out ≡ ok p)
      × ((request during floor_answers s p).result ≡ ok reply)
      × IsReply s.session
          (record { tx = tx; stream = out.stream_id })
          (PacketType.stream_grant ∷ [])
          reply
sender_request_floor-IsReply unicode_upper during s tx out fits h =
    let (p, reply, made, got, granted) = answered_floor unicode_upper during s tx out h in
    let (answer, _, _, _) = request-IsReply during floor_answers s p got in
    let key = request_packet-key unicode_upper s.session tx out fits made in
    (
      p,
      reply,
      made,
      got,
      record {
        wanted = granted_only reply.header.typ answer.wanted granted;
        session_id = answer.session_id;
        stream_id = answer.stream_id ∙ ap (λ k. k.stream) key;
        tx = answer.tx ∙ ap (λ k. k.tx) key;
      },
    )
