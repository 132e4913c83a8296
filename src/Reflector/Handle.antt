-- ===== src/Reflector/Handle.antt =====
-- pkg/server/reflector.go: a datagram that comes in, the ticker, and the reflector that is made and
-- drained. Each call makes one reading of the clock here.
use opusref.Base.{
  ℕ, List, [], ◌∷◌, Bool, true, false, not, ◌&&◌, ◌||◌, ◌==◌, ltb, if◌then◌else◌, length, be64,
  none, some, ok, err, lookup, has, ℕ-Key, Bytes-Key, bytes_equal, capacity,
}
use opusref.Wire.Types.{Packet, flag_response}
use opusref.Wire.PacketType
use opusref.Wire.TlvType
use opusref.Wire.Codec.{decode}
use opusref.Wire.Rules.{AdmissionPhase, client_to_server, pre_admission, connected, ready}
use opusref.Wire.Validate.{validate}
use opusref.Wire.Helpers.{find, uint64_tlv}
use opusref.Engine.Ops.{touch}
use opusref.Engine.Release.{begin_shutdown}
use opusref.Transport.{disable_media}
use opusref.Reflector.State.{
  Peer, CompletedKey-Key, NotificationKey-Key, Reflector, Library, update_peer,
}
use opusref.Reflector.Packets.{header}
use opusref.Reflector.Notify.{
  disconnect_peer, transaction_id, start_notification, notify_end, control_overload,
}
use opusref.Reflector.Answers.{
  transaction_key, sorted, fingerprint_of, enqueue_raw, replay_overload, transact,
}
use opusref.Reflector.Admission.{hello, authenticate}
use opusref.Reflector.Control.{control, ack, media}

-- Whether Validate returns nil for a client's packet in this phase.
unfoldable pub is_valid : Packet → AdmissionPhase → Bool
is_valid p phase = elim (validate p (record { direction = client_to_server; phase = phase })) [
  | ok _ ↦ true
  | err _ ↦ false
]

-- replayDisconnect: the peer of a DISCONNECT that is sent again is gone already.
unfoldable pub replay_disconnect : Reflector → ℕ → List ℕ → Packet → Reflector × Bool
replay_disconnect r now address p =
    if not (is_valid p ready) then (r, false) else elim (find p TlvType.transaction_id) [
      | none ↦ (r, false)
      | some tx ↦ elim (lookup (transaction_key address p (be64 tx)) r.transactions) [
        | none ↦ (r, false)
        | some old ↦
            if not (bytes_equal old.address address)
              || length (fingerprint_of (sorted p)) == 0
              || not (bytes_equal old.fingerprint (fingerprint_of (sorted p)))
            then (r, false)
            else let (r', queued) = enqueue_raw r address old.response in
              if queued then (r', true) else (replay_overload r' now address old.response, false)
      ]
    ]

-- The switch of handle, for a packet of this peer that Validate has accepted.
unfoldable pub dispatch : Library → Reflector → ℕ → List ℕ → ℕ → Packet → List ℕ → Reflector × Bool
dispatch lib r now address id p raw =
    if p.header.typ == PacketType.keepalive
      || p.header.typ == PacketType.disconnect
      || p.header.typ == PacketType.stream_request
      || p.header.typ == PacketType.stream_end
    then transact lib r now address p (control lib now id)
    else if p.header.typ == PacketType.stream_start || p.header.typ == PacketType.stream_revoke
    then ack now id r p
    else if p.header.typ == PacketType.audio || p.header.typ == PacketType.media_data
    then media now id r p raw
    else (r, false)

-- `if accepted && r.peers[peer.id] != nil { … }`.
unfoldable pub refresh : Reflector × Bool → ℕ → List ℕ → ℕ → Reflector
refresh (r, accepted) now address id =
    let active = λ (q : Peer). record q { last = now } in
    if accepted && has (lookup id r.peers)
    then record r {
      peers = update_peer id active r.peers;
      engine = (touch r.engine now id address).0;
    }
    else r

-- handle, for a packet of an admitted client.
unfoldable pub handle_admitted : Library → Reflector → ℕ → List ℕ → Packet → List ℕ → Reflector
handle_admitted lib r now address p raw = elim (lookup p.header.session_id r.peers) [
  | none ↦ r
  | some peer ↦
      if not (bytes_equal peer.address address)
      then r
      else if not (is_valid p (if peer.ready then ready else connected))
      then r
      else refresh (dispatch lib r now address peer.id p raw) now address peer.id
]

unfoldable pub handle_packet : Library → Reflector → ℕ → List ℕ → Packet → List ℕ → Reflector
handle_packet lib r now address p raw =
    if p.header.typ == PacketType.hello
    then if is_valid p pre_admission
      then (transact lib r now address p (hello lib now address)).0
      else r
    else if p.header.typ == PacketType.authenticate
    then if is_valid p pre_admission
      then (transact lib r now address p (authenticate lib now address)).0
      else r
    else if p.header.typ == PacketType.disconnect
    then (let (r', replayed) = replay_disconnect r now address p in
        if replayed then r' else handle_admitted lib r' now address p raw)
    else handle_admitted lib r now address p raw

unfoldable pub handle : Library → Reflector → ℕ → List ℕ → List ℕ → Reflector
handle lib r now address datagram =
    if ltb (capacity r.options.max_datagram_bytes) (length datagram)
    then r
    else elim (decode datagram) [ err e ↦ r | ok p ↦ handle_packet lib r now address p datagram ]

-- handleDrain.
unfoldable pub handle_drain : Library → Reflector → ℕ → List ℕ → List ℕ → Reflector
handle_drain lib r now address datagram =
    if ltb (capacity r.options.max_datagram_bytes) (length datagram)
    then r
    else elim (decode datagram) [
      | err e ↦ r
      | ok p ↦ elim (lookup p.header.session_id r.peers) [
        | none ↦ r
        | some peer ↦
            if not (bytes_equal peer.address address)
            then r
            else if not (is_valid p ready)
            then r
            else if (p.header.typ == PacketType.stream_revoke
                  || p.header.typ == PacketType.disconnect)
                && p.header.flags == flag_response
            then (ack now peer.id r p).0
            else if p.header.typ == PacketType.disconnect
            then (transact lib r now address p (control lib now peer.id)).0
            else r
      ]
    ]

-- drain up to its first wait: no more media, and the end of the stream is notified.
unfoldable pub drain_begin : Reflector → ℕ → Reflector
drain_begin r now =
    let (engine, end) = begin_shutdown r.engine now in
    let r' = record r { engine = engine; transport = (disable_media r.transport).0 } in
    elim end [ none ↦ r' | some e ↦ notify_end (control_overload now) r' now e ]

-- drain after that wait: every peer is told.
unfoldable pub drain_peer : Reflector → ℕ → ℕ → Reflector
drain_peer r now id = elim (lookup id r.peers) [
  | none ↦ r
  | some p ↦
      let (r', tx) = transaction_id r in
      start_notification (control_overload now) r' now id (record {
        header = header PacketType.disconnect 0 p.id 0;
        extensions = uint64_tlv TlvType.transaction_id tx ∷ [];
        payload = [];
      })
]

unfoldable pub drain_peers : Reflector → ℕ → List ℕ → Reflector
drain_peers r now [] = r
drain_peers r now (id ∷ ids) = drain_peers (drain_peer r now id) now ids

-- drain after its second wait: whoever is left is disconnected.
unfoldable pub drain_finish : Reflector → ℕ → List ℕ → Reflector
drain_finish r now [] = r
drain_finish r now (id ∷ ids) =
    let (r', end) = disconnect_peer r now id in
    drain_finish (elim end [ none ↦ r' | some e ↦ notify_end (control_overload now) r' now e ]) now
      ids
