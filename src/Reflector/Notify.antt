-- ===== src/Reflector/Notify.antt =====
-- pkg/server/reflector.go: what is sent on the control queue, the notifications that wait for an
-- acknowledgement, and the peers that are dropped because they do not keep up.
use opusref.Base.{
  ℕ, zero, suc, ◌+◌, List, [], ◌∷◌, Bool, true, false, not, ◌&&◌, ◌||◌, ◌==◌, leb, ltb,
  if◌then◌else◌, length, take, drop, be64, Option, none, some, ok, err, lookup, insert, delete,
  ℕ-Key, capacity,
}
use opusref.Wire.Types.{Packet}
use opusref.Wire.PacketType
use opusref.Wire.TlvType
use opusref.Wire.Codec.{encode}
use opusref.Wire.Helpers.{find}
use opusref.Engine.Types.{
  EndReason, end_normal, end_owner_disconnect, end_grant_timeout, end_media_inactivity,
  end_transmit_time_limit, end_server_shutdown, StreamEnd, FloorSnapshot,
}
use opusref.Engine.Release as EngineRelease
use opusref.Transport.{enqueue_control}
use opusref.Reflector.State.{
  Peer, NotificationKey, NotificationKey-Key, Notification, Reflector, Library, update_peer, keys,
  peer_at, drop_listener, drop_type, count_listener, has_tx,
}
use opusref.Reflector.Packets.{revoke_packet, start_packet}

-- disconnectPeer; a pointer that is not in the map is an ID that is not.
unfoldable pub disconnect_peer : Reflector → ℕ → ℕ → Reflector × Option StreamEnd
disconnect_peer r now id = elim (lookup id r.peers) [
  | none ↦ (r, none)
  | some p ↦
      let (engine, end) = EngineRelease.disconnect r.engine now id in
      (record r { engine = engine; peers = delete id r.peers }, end)
]

-- The loop of transactionID: eight random bytes at a time. `fuel` is the number of bytes that the
-- reader has, which no run of the loop uses up: each round takes eight.
unfoldable pub draw_tx : ℕ → List ℕ → List (NotificationKey × Notification) → List ℕ × ℕ
draw_tx zero random pending = (random, 0)
draw_tx (suc fuel) random pending =
    let again = draw_tx fuel (drop 8 random) pending in
    let id = be64 (take 8 random) in
    if ltb (length random) 8
    then ([], 0)
    else if id == 0 || has_tx id pending
    then again
    else (drop 8 random, id)

unfoldable pub transaction_id : Reflector → Reflector × ℕ
transaction_id r =
    let (random, tx) = draw_tx (length r.random) r.random r.pending in
    (record r { random = random }, tx)

-- `end.Reason == EndNormal`.
unfoldable pub is_normal : EndReason → Bool
is_normal end_normal = true
is_normal end_owner_disconnect = false
is_normal end_grant_timeout = false
is_normal end_media_inactivity = false
is_normal end_transmit_time_limit = false
is_normal end_server_shutdown = false

-- The methods below call controlOverload where a queue or a table is full, and it may call them.
-- `overload r id` stands for that call.
module _ (overload : Reflector → ℕ → Reflector) where
  unfoldable pub send_control : Reflector → List ℕ → Packet → Reflector × Bool
  send_control r address p = elim (encode p) [
    | err e ↦ (r, false)
    | ok bytes ↦
        let (transport, queued) =
          enqueue_control r.transport (record { address = address; contents = bytes }) in
        let r' = record r { transport = transport } in
        if queued then (r', true) else elim (peer_at address r'.peers) [
          | none ↦ (r', false)
          | some id ↦ (overload r' id, false)
        ]
  ]

  -- What startNotification registers, and then sends.
  unfoldable pub register : Reflector → ℕ → Peer → NotificationKey → Packet → Reflector
  register r now listener key p =
      let pending =
        insert key (record { packet = p; attempt = 1; next = now + 500_000_000 }) r.pending in
      let receiving = λ (q : Peer). record q { receiving = true } in
      let peers =
        if p.header.typ == PacketType.stream_start
        then update_peer key.listener receiving r.peers
        else r.peers in
      (send_control (record r { pending = pending; peers = peers }) listener.address p).0

  -- A listener that is no peer any more gets nothing: each caller has just found it in the map.
  unfoldable pub start_notification : Reflector → ℕ → ℕ → Packet → Reflector
  start_notification r now id p = elim (lookup id r.peers) [
    | none ↦ r
    | some listener ↦
        if leb (capacity r.options.max_pending_notifications) (length r.pending)
        then overload r id
        else if leb (capacity r.options.max_pending_notifications_per_client)
            (count_listener id r.pending)
        then overload r id
        else elim (find p TlvType.transaction_id) [
          | none ↦ overload r id
          | some raw ↦
              if not (length raw == 8)
              then overload r id
              else register r now listener
                  (record { listener = id; typ = p.header.typ; tx = be64 raw }) p
        ]
  ]

  -- A round of notifyEnd's loop over the peers. Go does not visit a peer that has been deleted
  -- before its turn.
  unfoldable pub notify_end_peer : Reflector → ℕ → StreamEnd → ℕ → Reflector
  notify_end_peer r now end id = elim (lookup id r.peers) [
    | none ↦ r
    | some listener ↦
        if id == end.session_id && is_normal end.reason
        then r
        else if not (id == end.session_id) && not listener.notified
        then r
        else let (r', tx) = transaction_id r in
          let silent = λ (q : Peer). record q { receiving = false } in
          start_notification (record r' { peers = update_peer id silent r'.peers }) now id
            (revoke_packet end tx)
  ]

  unfoldable pub notify_end_peers : Reflector → ℕ → StreamEnd → List ℕ → Reflector
  notify_end_peers r now end [] = r
  notify_end_peers r now end (id ∷ ids) =
      notify_end_peers (notify_end_peer r now end id) now end ids

  unfoldable pub notify_end : Reflector → ℕ → StreamEnd → Reflector
  notify_end r now end =
      let r' = record r { pending = drop_type PacketType.stream_start r.pending } in
      notify_end_peers r' now end (keys r'.peers)

-- controlOverload. It calls notifyEnd where the peer held the floor, which calls it again for
-- listeners that are full as well: they hold no floor, since it has just been released. `fuel` is
-- how many times the floor may be released, and one is enough.
unfoldable pub overload_within : ℕ → ℕ → Reflector → ℕ → Reflector
overload_within zero now r id =
    let (r', end) = disconnect_peer r now id in record r' { pending = drop_listener id r'.pending }
overload_within (suc fuel) now r id =
    let inner = overload_within fuel now in
    let (r', end) = disconnect_peer r now id in
    let dropped = record r' { pending = drop_listener id r'.pending } in
    elim end [ none ↦ dropped | some e ↦ notify_end inner dropped now e ]

unfoldable pub control_overload : ℕ → Reflector → ℕ → Reflector
control_overload now r id = overload_within 1 now r id

-- notifyStart; `floor` is the engine's snapshot.
unfoldable pub notify_start : Library → Reflector → ℕ → ℕ → FloorSnapshot → Reflector
notify_start lib r now id floor = elim (lookup floor.session_id r.peers) [
  | none ↦ r
  | some owner ↦
      let (r', tx) = transaction_id r in
      let notified = λ (q : Peer). record q { notified = true } in
      start_notification (control_overload now)
        (record r' { peers = update_peer id notified r'.peers }) now id
        (start_packet lib.unicode_upper floor.session_id floor.stream_id owner.node
          floor.source_callsign r'.engine.limits.transmit_time_limit tx)
]
