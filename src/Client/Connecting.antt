-- ===== src/Client/Connecting.antt =====
-- pkg/client/udp.go: `exchange` and `handshake`, before the read loop runs. What each attempt reads
-- from the socket is given.
use opusref.Base.{
  ℕ, ◌+◌, List, [], ◌∷◌, Bool, not, ◌&&◌, ◌==◌, if◌then◌else◌, be64, Option, none, some, Result, ok,
  err,
}
use opusref.Wire.Types.{Packet}
use opusref.Wire.PacketType
use opusref.Wire.TlvType
use opusref.Wire.Codec.{encode, decode}
use opusref.Wire.Helpers.{find, callsign, IdentifierError}
use opusref.Wire.Rules.{server_to_client, connected, pre_admission}
use opusref.Wire.Validate.{validate}
use opusref.Reflector.Duplicates.{retried}
use opusref.Client.Requests.{RequestError, unwritten, cancelled, timed_out, request_waits}
use opusref.Client.Packets.{hello_packet, authenticate_packet, keepalive_packet}

-- What happens in an attempt: whether the socket takes the datagram, which datagrams it reads until
-- the deadline, and whether the context is done then.
pub record Exchange : Type 0 where
  pub writes : Bool
  pub datagrams : List (List ℕ)
  pub is_cancelled : Bool

-- Whether exchange takes a datagram for the answer. Decode refuses one of more than MaxDatagramSize
-- bytes itself.
unfoldable pub reply_of : ℕ → ℕ → ℕ → List ℕ → Option Packet
reply_of session want tx bytes =
    let phase = if want == PacketType.keepalive then connected else pre_admission in
    elim (decode bytes) [
      | err e ↦ none
      | ok reply ↦ elim (validate reply (record { direction = server_to_client; phase = phase })) [
        | err e ↦ none
        | ok _ ↦
            if not (reply.header.typ == want)
            then none
            else if want == PacketType.keepalive && not (reply.header.session_id == session)
            then none
            else elim (find reply TlvType.transaction_id) [
              | none ↦ none
              | some raw ↦ if be64 raw == tx then some reply else none
            ]
      ]
    ]

-- The loop over what is read.
unfoldable pub first_reply : ℕ → ℕ → ℕ → List (List ℕ) → Option Packet
first_reply session want tx [] = none
first_reply session want tx (bytes ∷ rest) =
    let later = first_reply session want tx rest in
    elim (reply_of session want tx bytes) [ none ↦ later | some reply ↦ some reply ]

-- The loop over the waits: what it returns, and the packets that it has written.
unfoldable pub exchange_attempts :
    (ℕ → Exchange) → ℕ → ℕ → ℕ → List ℕ → ℕ → Packet → Result RequestError Packet × List Packet
exchange_attempts during session want tx [] attempt p = (err timed_out, [])
exchange_attempts during session want tx (wait ∷ waits) attempt p =
    let sent = if attempt == 0 then p else retried p in
    let (result, written) = exchange_attempts during session want tx waits (attempt + 1) sent in
    elim (encode sent) [
      | err e ↦ (err unwritten, [])
      | ok bytes ↦
          if not (during attempt).writes
          then (err unwritten, [])
          else elim (first_reply session want tx (during attempt).datagrams) [
            | some reply ↦ (ok reply, sent ∷ [])
            | none ↦
                if (during attempt).is_cancelled
                then (err cancelled, sent ∷ [])
                else (result, sent ∷ written)
          ]
    ]

unfoldable pub exchange :
    (ℕ → Exchange) → ℕ → Packet → ℕ → ℕ → Result RequestError Packet × List Packet
exchange during session p want tx = exchange_attempts during session want tx request_waits 0 p

-- Where handshake ends with an error: at the callsign, or in one of its exchanges.
pub data HandshakeError : Type 0 where
  bad_callsign : IdentifierError → HandshakeError
  not_challenged not_welcomed not_kept : RequestError → HandshakeError

-- handshake, with the callsign, the shared key, the nonce, and the two transaction IDs. The session
-- that it leaves stands beside the error, since a KEEPALIVE without answer leaves it set.
unfoldable pub handshake :
    (List ℕ → List ℕ)
    → (List ℕ → List ℕ → List ℕ)
    → (ℕ → Exchange)
    → (ℕ → Exchange)
    → (ℕ → Exchange)
    → List ℕ
    → List ℕ
    → List ℕ
    → ℕ
    → ℕ
    → Result HandshakeError ℕ × ℕ
handshake unicode_upper hmac challenging welcoming keeping name shared_key nonce tx keep_tx =
    elim (callsign unicode_upper name) [
      | err e ↦ (err (bad_callsign e), 0)
      | ok node ↦
          elim (exchange challenging 0 (hello_packet tx node nonce) PacketType.challenge tx).0 [
            | err e ↦ (err (not_challenged e), 0)
            | ok challenge ↦
                elim (exchange welcoming 0
                  (authenticate_packet hmac shared_key tx node nonce challenge) PacketType.welcome
                  tx).0 [
                    | err e ↦ (err (not_welcomed e), 0)
                    | ok welcome ↦
                        let session = welcome.header.session_id in
                        elim (exchange keeping session (keepalive_packet session keep_tx)
                          PacketType.keepalive keep_tx).0 [
                            | err e ↦ (err (not_kept e), session)
                            | ok _ ↦ (ok session, session)
                          ]
                  ]
          ]
    ]
