-- ===== src/Reflector/Retries.antt =====
-- pkg/server/reflector.go: what becomes of a notification that nobody acknowledges, and of packets
-- that the reflector does not accept.
use opusref.Base.{
  ok, ◌++◌, true, ap, ◌∙◌, refl, ◌+◌, ◌*◌, ℕ, suc, ◌<◌, ◌≤◌, ◌≡◌, List, [], ◌∷◌, false, ◌==◌,
  length, none, some, lookup, insert, lookup-insert, lookup-delete, ℕ-Key, arith, Option-cases,
  Result-cases, inl, inr, length-append,
}
use opusref.Wire.Types.{Packet, has_retry}
use opusref.Wire.PacketType
use opusref.Wire.Codec.{encode}
use opusref.Engine.Types.{second}
use opusref.Transport.{Datagram, enqueue_control}
use opusref.Reflector.State.{
  Peer, NotificationKey, NotificationKey-Key, Notification, Reflector, update_peer,
}
use opusref.Reflector.Notify.{send_control, control_overload}
use opusref.Reflector.Ticker.{set_retry, retry, next_attempt, retry_pending}
use opusref.Reflector.Invariant.Tables.{lookup-update_peer, changed}

-- What sendControl does while the control queue has room.
send_control_room :
    (over : Reflector → ℕ → Reflector) (r : Reflector) (address : List ℕ) (p : Packet)
    → length r.transport.control < r.transport.control_capacity
    → (let r' = (send_control over r address p).0 in
        (r'.pending ≡ r.pending)
        × (r'.transport.control_capacity ≡ r.transport.control_capacity)
        × (length r'.transport.control ≤ suc (length r.transport.control))
        × (r'.peers ≡ r.peers)
        × ((bytes : List ℕ)
            → encode p ≡ ok bytes
            → r'.transport.control
              ≡ r.transport.control ++ (record { address = address; contents = bytes } ∷ [])))
unfolding send_control enqueue_control
send_control_room over r address p room = elim (Result-cases (encode p)) [
  | inl (e, k) ↦ ground (arith, k, room)
  | inr (bytes, k) ↦ ground (
    arith,
    k,
    room,
    length-append r.transport.control (record { address = address; contents = bytes } ∷ []),
  )
]

-- What a round that is due does: it counts the attempt, and queues the packet for the listener.
record Again (r r' : Reflector) (now : ℕ) (key : NotificationKey) (n : Notification) (room : ℕ)
    : Type 0 where
  counted : lookup key r'.pending ≡ some (retry n now)
  room_left : length r'.transport.control + room ≤ r'.transport.control_capacity
  same_peers : r'.peers ≡ r.peers
  queued :
      (p : Peer) (bytes : List ℕ)
      → lookup key.listener r.peers ≡ some p
      → encode (retry n now).packet ≡ ok bytes
      → r'.transport.control
        ≡ r.transport.control ++ (record { address = p.address; contents = bytes } ∷ [])

retry_pending-Again :
    (r : Reflector) (now : ℕ) (key : NotificationKey) (n : Notification) (room : ℕ)
    → n.attempt < 4
    → lookup key r.pending ≡ some n
    → n.next ≤ now
    → length r.transport.control + suc room ≤ r.transport.control_capacity
    → Again r (retry_pending r now key) now key n room
unfolding retry_pending
retry_pending-Again r now key n room early there due fits =
    let r' : Reflector = record r { pending = insert key (retry n now) r.pending } in
    let again = lookup-insert key key (retry n now) r.pending in
    let same = NotificationKey-Key.same_iff key key in
    elim (Option-cases (lookup key.listener r.peers)) [
      | inl e ↦ record {
        counted = ground (arith, e, early, there, due, fits, again, same);
        room_left = ground (arith, e, early, there, due, fits);
        same_peers = ground (arith, e, early, there, due);
        queued = λ p bytes found _. ground (arith, e, found);
      }
      | inr (p, e) ↦
          let (pending, size, longer, peers, queue) =
            send_control_room (control_overload now) r' p.address (retry n now).packet
              (ground (arith, fits)) in
          record {
            counted = ground (arith, e, early, there, due, again, same, pending);
            room_left = ground (arith, e, early, there, due, fits, size, longer);
            same_peers = ground (arith, e, early, there, due, peers);
            queued = λ p' bytes found encoded.
                ground (arith, e, early, there, due, found, queue bytes encoded);
          }
    ]

-- A round that comes too early changes nothing.
retry_pending-early :
    (r : Reflector) (key : NotificationKey) (n : Notification)
    → lookup key r.pending ≡ some n
    → (t : ℕ) → t < n.next
    → retry_pending r t key ≡ r
unfolding retry_pending
retry_pending-early r key n there t early = ground (arith, there, early)

-- A round that is due after the last attempt gives a notification up.
retry_pending-last :
    (r : Reflector) (now : ℕ) (key : NotificationKey) (n : Notification)
    → 4 ≤ n.attempt
    → lookup key r.pending ≡ some n
    → n.next ≤ now
    → (let r' = retry_pending r now key in
        (lookup key r'.pending ≡ none)
        × (r'.transport ≡ r.transport)
        × ((p : Peer)
            → key.typ ≡ PacketType.stream_start
            → lookup key.listener r'.peers ≡ some p
            → p.receiving ≡ false))
unfolding retry_pending
retry_pending-last r now key n late there due = (
  ground (
    arith,
    late,
    there,
    due,
    lookup-delete key key r.pending,
    NotificationKey-Key.same_iff key key,
  ),
  ground (arith, late, there, due),
  λ p start found. elim (Option-cases (lookup key.listener r.peers)) [
    | inl e ↦ ground (arith, late, there, due, start, found, e, silent)
    | inr (q, e) ↦ ground (arith, late, there, due, start, found, e, silent)
  ],
)
  where
    silent :
        lookup key.listener (update_peer key.listener (λ q. record q { receiving = false }) r.peers)
        ≡ changed
            (key.listener == key.listener)
            (λ q. record q { receiving = false })
            (lookup key.listener r.peers)
    silent =
        lookup-update_peer key.listener key.listener (λ q. record q { receiving = false }) r.peers

set_retry-set_retry : (flags : ℕ) → set_retry (set_retry flags) ≡ set_retry flags
unfolding set_retry
set_retry-set_retry flags = ground arith

set_retry-has_retry : (flags : ℕ) → has_retry (set_retry flags) ≡ true
unfolding set_retry
set_retry-has_retry flags = ground arith

-- Each attempt after the second sends the same packet again.
packet-retry : (n : Notification) (t u : ℕ) → (retry (retry n t) u).packet ≡ (retry n t).packet
unfolding retry
packet-retry n t u = rw (set_retry-set_retry n.packet.header.flags) refl

pub retry_pending-ends :
    (r : Reflector) (key : NotificationKey) (n : Notification) (p : Peer) (bytes : List ℕ)
    (t1 t2 t3 t4 : ℕ)
    → n.attempt ≡ 1
    → lookup key r.pending ≡ some n
    → lookup key.listener r.peers ≡ some p
    → encode (record n.packet {
      header = record n.packet.header { flags = set_retry n.packet.header.flags };
    })
      ≡ ok bytes
    → (n.next ≤ t1) × (t1 + second ≤ t2) × (t2 + 2 * second ≤ t3) × (t3 ≤ t4)
    → length r.transport.control + 3 ≤ r.transport.control_capacity
    → (let second_try = retry_pending r t1 key in
        let third_try = retry_pending second_try t2 key in
        let fourth_try = retry_pending third_try t3 key in
        let end = retry_pending fourth_try t4 key in
        let sent : Datagram = record { address = p.address; contents = bytes } in
        ((t : ℕ) → t < n.next → retry_pending r t key ≡ r)
        × (has_retry (set_retry n.packet.header.flags) ≡ true)
        × (second_try.transport.control ≡ r.transport.control ++ (sent ∷ []))
        × (third_try.transport.control ≡ second_try.transport.control ++ (sent ∷ []))
        × (fourth_try.transport.control ≡ third_try.transport.control ++ (sent ∷ []))
        × (lookup key fourth_try.pending ≡ some (retry (retry (retry n t1) t2) t3))
        × (lookup key end.pending ≡ none)
        × (end.transport ≡ fourth_try.transport)
        × ((q : Peer)
            → key.typ ≡ PacketType.stream_start
            → lookup key.listener end.peers ≡ some q
            → q.receiving ≡ false))
unfolding retry next_attempt
retry_pending-ends r key n p bytes t1 t2 t3 t4 first there listens encoded
      (due, later, latest, last) room =
    let n2 = retry n t1 in
    let n3 = retry n2 t2 in
    let n4 = retry n3 t3 in
    let r2 = retry_pending r t1 key in
    let r3 = retry_pending r2 t2 key in
    let r4 = retry_pending r3 t3 key in
    let a2 =
      retry_pending-Again r t1 key n 2 (ground (arith, first)) there due (ground (arith, room)) in
    let a3 =
      retry_pending-Again r2 t2 key n2 1 (ground (arith, first)) a2.counted
        (ground (arith, first, later)) (ground (arith, a2.room_left)) in
    let a4 =
      retry_pending-Again r3 t3 key n3 0 (ground (arith, first)) a3.counted
        (ground (arith, first, latest)) (ground (arith, a3.room_left)) in
    let listens2 = ap (lookup key.listener) a2.same_peers ∙ listens in
    let listens3 = ap (lookup key.listener) a3.same_peers ∙ listens2 in
    let (gone, quiet, silent) =
      retry_pending-last r4 t4 key n4 (ground (arith, first)) a4.counted
        (ground (arith, first, last)) in
    (
      retry_pending-early r key n there,
      set_retry-has_retry n.packet.header.flags,
      a2.queued p bytes listens encoded,
      a3.queued p bytes listens2 (ap encode (packet-retry n t1 t2) ∙ encoded),
      a4.queued p bytes listens3
          (ap encode (packet-retry n2 t2 t3 ∙ packet-retry n t1 t2) ∙ encoded),
      a4.counted,
      gone,
      quiet,
      silent,
    )
