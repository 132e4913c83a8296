-- ===== src/Client/Packets.antt =====
-- pkg/client/udp.go: the packets that the UDP client makes: of the handshake, of its requests and of
-- its media. `tx` is what nextTx has drawn.
use opusref.Base.{
  ℕ, List, [], ◌∷◌, ◌++◌, ◌==◌, if◌then◌else◌, length, Option, none, some, Result, ok, err,
}
use opusref.Wire.Types.{Tlv, Packet}
use opusref.Wire.PacketType
use opusref.Wire.TlvType
use opusref.Wire.Helpers.{find, uint16_tlv, uint64_tlv, callsign, IdentifierError}
use opusref.Client.Types.{EventKind, event_audio, event_data, Outbound}
use opusref.Reflector.Packets.{tlv, header}

abbrev pub control_packet : ℕ → ℕ → ℕ → List Tlv → Packet
control_packet typ session stream extensions = record {
  header = header typ 0 session stream;
  extensions = extensions;
  payload = [];
}

-- handshake: the HELLO, with the callsign in its ten bytes.
unfoldable pub hello_packet : ℕ → List ℕ → List ℕ → Packet
hello_packet tx node nonce = control_packet PacketType.hello 0 0 (
    uint64_tlv TlvType.transaction_id tx
    ∷ tlv TlvType.node_callsign node
    ∷ tlv TlvType.client_nonce nonce
    ∷ [])

-- `value, _ := wire.Find(challenge, typ)`.
abbrev pub challenge_value : Packet → ℕ → List ℕ
challenge_value challenge typ = elim (find challenge typ) [ none ↦ [] | some value ↦ value ]

-- What handshake writes to the HMAC, "OPRF-AUTH-V1" first.
unfoldable pub authenticated_bytes : List ℕ → List ℕ → Packet → List ℕ
authenticated_bytes node nonce challenge =
    (b'O' ∷ b'P' ∷ b'R' ∷ b'F' ∷ b'-' ∷ b'A' ∷ b'U' ∷ b'T' ∷ b'H' ∷ b'-' ∷ b'V' ∷ b'1' ∷ [])
    ++ (node
        ++ (nonce
            ++ (challenge_value challenge TlvType.server_nonce
                ++ challenge_value challenge TlvType.reflector_id)))

-- handshake: the AUTHENTICATE that answers a challenge. `hmac` is HMAC-SHA-256 of a key and a message.
unfoldable pub authenticate_packet :
    (List ℕ → List ℕ → List ℕ) → List ℕ → ℕ → List ℕ → List ℕ → Packet → Packet
authenticate_packet hmac shared_key tx node nonce challenge =
    control_packet PacketType.authenticate 0 0 (
      uint64_tlv TlvType.transaction_id tx
      ∷ tlv TlvType.client_nonce nonce
      ∷ tlv TlvType.server_nonce (challenge_value challenge TlvType.server_nonce)
      ∷ (if length shared_key == 0
          then []
          else tlv TlvType.authentication_tag
              (hmac shared_key (authenticated_bytes node nonce challenge))
            ∷ []))

-- The KEEPALIVE of handshake and of Send, and the DISCONNECT of Disconnect.
unfoldable pub keepalive_packet : ℕ → ℕ → Packet
keepalive_packet session tx =
    control_packet PacketType.keepalive session 0 (uint64_tlv TlvType.transaction_id tx ∷ [])

unfoldable pub disconnect_packet : ℕ → ℕ → Packet
disconnect_packet session tx =
    control_packet PacketType.disconnect session 0 (uint64_tlv TlvType.transaction_id tx ∷ [])

-- RequestFloor.
unfoldable pub request_packet : (List ℕ → List ℕ) → ℕ → ℕ → Outbound → Result IdentifierError Packet
request_packet unicode_upper session tx out = elim (callsign unicode_upper out.source_callsign) [
  | err e ↦ err e
  | ok source ↦ ok (
      control_packet PacketType.stream_request session out.stream_id
        (uint64_tlv TlvType.transaction_id tx ∷ tlv TlvType.source_callsign source ∷ []))
]

-- EndFloor.
unfoldable pub end_packet : ℕ → ℕ → Outbound → Packet
end_packet session tx out = record {
  header = record (header PacketType.stream_end 0 session out.stream_id) {
    sequence = out.sequence;
    timestamp = out.timestamp;
  };
  extensions = uint64_tlv TlvType.transaction_id tx ∷ [];
  payload = [];
}

-- Send, for the two kinds of media.
unfoldable pub media_packet : ℕ → Outbound → Option Packet
media_packet session out = media_of out.kind
  where
    packet : ℕ → List Tlv → Packet
    packet typ extensions = record {
      header = record (header typ 0 session out.stream_id) {
        sequence = out.sequence;
        timestamp = out.timestamp;
      };
      extensions = extensions;
      payload = out.payload;
    }

    media_of : EventKind → Option Packet
    media_of event_audio = some (packet PacketType.audio [])
    media_of event_data =
        some (packet PacketType.media_data (uint16_tlv TlvType.data_type out.data_type ∷ []))
    media_of _ = none
