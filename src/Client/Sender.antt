-- ===== src/Client/Sender.antt =====
-- pkg/client/udp.go: what the QueueClient calls of its sender: Send, RequestFloor, EndFloor and Disconnect
-- in a session. `tx` is what nextTx has drawn, `during` what happens in the attempts of a request.
use opusref.Base.{
  ℕ, List, [], ◌∷◌, Bool, ◌||◌, ◌==◌, if◌then◌else◌, Option, none, some, Result, ok, err,
}
use opusref.Wire.Types.{Packet}
use opusref.Wire.PacketType
use opusref.Wire.Codec.{encode}
use opusref.Wire.Helpers.{IdentifierError}
use opusref.Client.Types.{event_busy, Event, Outbound}
use opusref.Client.Receiving.{Receiver, event_of}
use opusref.Client.Processing.{published_to}
use opusref.Client.Packets.{
  keepalive_packet, disconnect_packet, request_packet, end_packet, media_packet,
}
use opusref.Client.Requests.{RequestError, unwritten, Attempt, request}

-- The errors of the sender. `not_sendable` is "unsupported outbound event", `floor_held` ErrBusy.
pub data SenderError : Type 0 where
  refused : RequestError → SenderError
  bad_source : IdentifierError → SenderError
  not_sendable floor_held : SenderError

-- An error of request, if there is one.
unfoldable pub error_of : Result RequestError Packet → Option SenderError
error_of (ok reply) = none
error_of (err e) = some (refused e)

-- Send of AUDIO and DATA: what it writes. `takes_it` is whether the socket takes the datagram.
unfoldable pub sender_send : Receiver → Bool → Outbound → Option (List ℕ) × Option SenderError
sender_send s takes_it out = elim (media_packet s.session out) [
  | none ↦ (none, some not_sendable)
  | some p ↦ elim (encode p) [
    | err e ↦ (none, some (refused unwritten))
    | ok bytes ↦ if takes_it then (some bytes, none) else (none, some (refused unwritten))
  ]
]

-- Send of a status event in a session.
unfoldable pub sender_keepalive : (ℕ → Attempt) → Receiver → ℕ → Receiver × Option SenderError
sender_keepalive during s tx =
    let asked = request during (PacketType.keepalive ∷ []) s (keepalive_packet s.session tx) in
    (asked.receiver, error_of asked.result)

-- "reflector floor is busy".
abbrev floor_is_busy : List ℕ
floor_is_busy =
    b'r' ∷ b'e' ∷ b'f' ∷ b'l' ∷ b'e' ∷ b'c' ∷ b't' ∷ b'o' ∷ b'r' ∷ b' ' ∷ b'f' ∷ b'l' ∷ b'o' ∷ b'o'
    ∷ b'r' ∷ b' ' ∷ b'i' ∷ b's' ∷ b' ' ∷ b'b' ∷ b'u' ∷ b's' ∷ b'y' ∷ []

-- The event of a STREAM_BUSY.
abbrev pub busy_event : Packet → Event
busy_event reply = record (event_of event_busy reply) {
  sequence = 0;
  timestamp = 0;
  payload = [];
  message = floor_is_busy;
}

-- RequestFloor.
unfoldable pub sender_request_floor :
    (List ℕ → List ℕ) → (ℕ → Attempt) → Receiver → ℕ → Outbound → Receiver × Option SenderError
sender_request_floor unicode_upper during s tx out =
    elim (request_packet unicode_upper s.session tx out) [
      | err e ↦ (s, some (bad_source e))
      | ok p ↦
          let asked = request during (PacketType.stream_grant ∷ PacketType.stream_busy ∷ []) s p in
          elim asked.result [
            | err e ↦ (asked.receiver, some (refused e))
            | ok reply ↦
                if reply.header.typ == PacketType.stream_busy
                then (published_to asked.receiver (some (busy_event reply)), some floor_held)
                else (asked.receiver, none)
          ]
    ]

-- EndFloor.
unfoldable pub sender_end_floor :
    (ℕ → Attempt) → Receiver → ℕ → Outbound → Receiver × Option SenderError
sender_end_floor during s tx out =
    let asked = request during (PacketType.stream_end ∷ []) s (end_packet s.session tx out) in
    (asked.receiver, error_of asked.result)

-- Disconnect, where `closed` is whether Close has been called.
unfoldable pub sender_disconnect :
    (ℕ → Attempt) → Bool → Receiver → ℕ → Receiver × Option SenderError
sender_disconnect during closed s tx =
    let asked = request during (PacketType.disconnect ∷ []) s (disconnect_packet s.session tx) in
    if s.session == 0 || closed then (s, none) else (asked.receiver, error_of asked.result)
