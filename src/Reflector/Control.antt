-- ===== src/Reflector/Control.antt =====
-- pkg/server/reflector.go: the requests of an admitted client, its acknowledgements and its media.
use opusref.Base.{
  ℕ, List, [], ◌∷◌, Bool, true, false, not, ◌&&◌, ◌==◌, if◌then◌else◌, length, be64, Option, none,
  some, ok, err, lookup, delete, ℕ-Key,
}
use opusref.Wire.Types.{Tlv, Packet}
use opusref.Wire.PacketType
use opusref.Wire.TlvType
use opusref.Wire.Helpers.{find, uint16_tlv, trim_space}
use opusref.Engine.Types.{
  floor_granted, floor_busy, floor_rejected, end_normal, Fanout, FloorSnapshot,
}
use opusref.Engine.Ops as EngineOps
use opusref.Engine.Release as EngineRelease
use opusref.Engine.Transactions.{floor_snapshot}
use opusref.Transport.{media_audio, media_data, enqueue_media}
use opusref.Reflector.State.{
  Peer, NotificationKey, NotificationKey-Key, Reflector, Library, update_peer, keys,
}
use opusref.Reflector.Packets.{tlv, response_header, grant_packet, busy_packet}
use opusref.Reflector.Notify.{disconnect_peer, control_overload, notify_end, notify_start}
use opusref.Reflector.Answers.{error_response, error_invalid_stream}
use opusref.Reflector.Admission.{find_or_nil}

-- The loop over the listeners of a new stream.
unfoldable pub notify_listeners : Library → Reflector → ℕ → ℕ → FloorSnapshot → List ℕ → Reflector
notify_listeners lib r now owner floor [] = r
notify_listeners lib r now owner floor (id ∷ ids) =
    let notified : Reflector = elim (lookup id r.peers) [
      | none ↦ r
      | some listener ↦
          if not (listener.id == owner) && listener.ready
          then notify_start lib r now id floor
          else r
    ] in
    notify_listeners lib notified now owner floor ids

-- The answer `base` with `ext`, of the request's own type.
abbrev pub answer_packet : ℕ → Packet → List Tlv → Packet
answer_packet id request extensions = record {
  header = response_header request.header.typ id request;
  extensions = extensions;
  payload = [];
}

unfoldable pub control_keepalive : Reflector → ℕ → ℕ → Packet → Reflector × Option Packet
control_keepalive r now id p =
    let ready = λ (q : Peer). record q { ready = true } in
    (
      record r {
        peers = update_peer id ready r.peers;
        engine = (EngineOps.set_ready r.engine now id).0;
      },
      some (
          answer_packet id p
            (tlv TlvType.transaction_id (find_or_nil p TlvType.transaction_id) ∷ [])),
    )

unfoldable pub control_disconnect : Reflector → ℕ → ℕ → Packet → Reflector × Option Packet
control_disconnect r now id p =
    let (r', end) = disconnect_peer r now id in
    (
      elim end [ none ↦ r' | some e ↦ notify_end (control_overload now) r' now e ],
      some (
          answer_packet id p
            (tlv TlvType.transaction_id (find_or_nil p TlvType.transaction_id) ∷ [])),
    )

unfoldable pub control_request : Library → Reflector → ℕ → ℕ → Packet → Reflector × Option Packet
control_request lib r now id p =
    let tx = find_or_nil p TlvType.transaction_id in
    let source = trim_space (find_or_nil p TlvType.source_callsign) in
    let (engine, result) = EngineOps.request_floor r.engine now id p.header.stream_id source in
    let r' = record r { engine = engine } in
    elim result [
      | floor_granted ↦ (
        notify_listeners lib r' now id (floor_snapshot engine now) (keys r'.peers),
        some (grant_packet id p tx engine.limits.transmit_time_limit),
      )
      | floor_busy ↦ (r', some (busy_packet id p tx))
      | floor_rejected ↦ (r', some (busy_packet id p tx))
    ]

unfoldable pub control_end : Reflector → ℕ → ℕ → Packet → Reflector × Option Packet
control_end r now id p =
    let tx = find_or_nil p TlvType.transaction_id in
    let (engine, result) =
      EngineRelease.end_floor r.engine now id p.header.stream_id p.header.sequence
        p.header.timestamp end_normal in
    let r' = record r { engine = engine } in
    let answer =
      answer_packet id p (tlv TlvType.transaction_id tx ∷ uint16_tlv TlvType.end_reason 0 ∷ []) in
    elim result [
      | err e ↦ (r, some (error_response p error_invalid_stream))
      | ok none ↦ (r', some answer)
      | ok (some end) ↦ (notify_end (control_overload now) r' now end, some answer)
    ]

-- control, for the peer with this ID.
unfoldable pub control : Library → ℕ → ℕ → Reflector → Packet → Reflector × Option Packet
control lib now id r p =
    if p.header.typ == PacketType.keepalive
    then control_keepalive r now id p
    else if p.header.typ == PacketType.disconnect
    then control_disconnect r now id p
    else if p.header.typ == PacketType.stream_request
    then control_request lib r now id p
    else if p.header.typ == PacketType.stream_end
    then control_end r now id p
    else (
      r,
      some (
          answer_packet id p
            (tlv TlvType.transaction_id (find_or_nil p TlvType.transaction_id) ∷ [])),
    )

-- Whether an acknowledgement has the stream, sequence and timestamp of what it acknowledges.
unfoldable pub acknowledges : Packet → Packet → Bool
acknowledges p sent =
    p.header.stream_id == sent.header.stream_id
    && p.header.sequence == sent.header.sequence
    && p.header.timestamp == sent.header.timestamp

-- What an acknowledgement of this type changes, besides the entry that it deletes.
unfoldable pub acknowledged : Reflector → ℕ → ℕ → ℕ → Reflector
acknowledged r now id typ =
    let receiving = λ (q : Peer). record q { receiving = true } in
    let released = λ (q : Peer). record q { notified = false; receiving = false } in
    if typ == PacketType.stream_start
    then record r { peers = update_peer id receiving r.peers }
    else if typ == PacketType.stream_revoke
    then record r { peers = update_peer id released r.peers }
    else if typ == PacketType.disconnect
    then (disconnect_peer r now id).0
    else r

unfoldable pub ack : ℕ → ℕ → Reflector → Packet → Reflector × Bool
ack now id r p = elim (find p TlvType.transaction_id) [
  | none ↦ (r, false)
  | some raw ↦
      if not (length raw == 8)
      then (r, false)
      else let key : NotificationKey = record {
        listener = id;
        typ = p.header.typ;
        tx = be64 raw;
      } in
        elim (lookup key r.pending) [
          | none ↦ (r, false)
          | some n ↦ if not (acknowledges p n.packet) then (r, false) else (
            acknowledged (record r { pending = delete key r.pending }) now id p.header.typ,
            true,
          )
        ]
]

-- The addresses of the listeners that receive the stream.
unfoldable pub recipients : List Fanout → List (ℕ × Peer) → List (List ℕ)
recipients [] peers = []
recipients (effect ∷ effects) peers =
    let more = recipients effects peers in
    elim (lookup effect.session_id peers) [
      | none ↦ more
      | some listener ↦ if listener.receiving then listener.address ∷ more else more
    ]

-- media, for the peer with this ID; `raw` is the datagram as it came.
unfoldable pub media : ℕ → ℕ → Reflector → Packet → List ℕ → Reflector × Bool
media now id r p raw = elim (lookup id r.peers) [
  | none ↦ (r, false)
  | some owner ↦
      let (engine, result) =
        EngineOps.media r.engine now owner.id owner.address p.header.stream_id p.header.sequence
          p.header.timestamp p.payload in
      elim result [
        | err e ↦ (r, false)
        | ok effects ↦
            let r' = record r { engine = engine } in
            let to = recipients effects r.peers in
            let kind = if p.header.typ == PacketType.media_data then media_data else media_audio in
            if length to == 0
            then (r', true)
            else let transport =
                (enqueue_media r'.transport
                  (record { contents = raw; recipients = to; kind = kind })).0 in
              (record r' { transport = transport }, true)
      ]
]
