-- ===== src/Reflector/Fuel.antt =====
-- pkg/server/reflector.go: the fuel of controlOverload and of the loops that draw random IDs is enough.
use opusref.Base.{
  Result-cases, ap, ◌∙◌, ℕ, zero, suc, ◌+◌, ◌≤◌, ◌≡◌, refl, List, [], ◌∷◌, true, false, ◌==◌,
  if◌then◌else◌, length, drop, be64, none, some, lookup, insert, ℕ-Key, arith, Option-cases, inl,
  inr, length-drop,
}
use opusref.Wire.Types.{Packet}
use opusref.Wire.PacketType
use opusref.Wire.TlvType
use opusref.Wire.Codec.{encode}
use opusref.Wire.Helpers.{find}
use opusref.Engine.Types.{StreamEnd, Engine}
use opusref.Engine.Release as EngineRelease
use opusref.Engine.Release.{release_locked}
use opusref.Transport.{enqueue_control}
use opusref.Reflector.State.{
  Peer, NotificationKey, NotificationKey-Key, Notification, Reflector, update_peer, keys, peer_at,
  drop_listener,
}
use opusref.Reflector.Packets.{revoke_packet}
use opusref.Reflector.Notify.{
  disconnect_peer, draw_tx, transaction_id, send_control, register, start_notification,
  notify_end_peer, notify_end_peers, notify_end, overload_within, control_overload,
}
use opusref.Reflector.Admission.{draw_session}

abbrev Floorless : Reflector → Type 0
Floorless r = r.engine.floor ≡ none

disconnect_peer-Floorless :
    (r : Reflector) (now id : ℕ)
    → Floorless r
    → ((disconnect_peer r now id).1 ≡ none) × Floorless (disconnect_peer r now id).0
unfolding disconnect_peer EngineRelease.disconnect release_locked
disconnect_peer-Floorless r now id h = ground (arith, h)

-- A peer that held the floor has released it.
disconnect_peer_releases :
    (r : Reflector) (now id : ℕ) (end : StreamEnd)
    → (disconnect_peer r now id).1 ≡ some end
    → Floorless (disconnect_peer r now id).0
unfolding disconnect_peer EngineRelease.disconnect release_locked
disconnect_peer_releases r now id end h = ground (arith, h)

-- Two ways of dealing with a peer that does not keep up, which agree while nobody holds the floor.
module _ (over other : Reflector → ℕ → Reflector)
    (agree : (r : Reflector) (id : ℕ)
      → Floorless r
      → (over r id ≡ other r id) × Floorless (over r id)) where
  send_control_agree :
      (r : Reflector) (address : List ℕ) (p : Packet)
      → Floorless r
      → (send_control over r address p ≡ send_control other r address p)
        × Floorless (send_control over r address p).0
  unfolding send_control
  send_control_agree r address p h = elim (Result-cases (encode p)) [
    | inl (e, k) ↦ ground (arith, k, h)
    | inr (bytes, k) ↦
        let r' : Reflector = record r {
          transport =
              (enqueue_control r.transport (record { address = address; contents = bytes })).0;
        } in
        elim (Option-cases (peer_at address r.peers)) [
          | inl e ↦ ground (arith, k, e, h)
          | inr (id, e) ↦ ground (arith, k, e, h, agree r' id h)
        ]
  ]

  register_agree :
      (r : Reflector) (now : ℕ) (listener : Peer) (key : NotificationKey) (p : Packet)
      → Floorless r
      → (register over r now listener key p ≡ register other r now listener key p)
        × Floorless (register over r now listener key p)
  unfolding register
  register_agree r now listener key p h =
      let same =
        send_control_agree
          (record r {
            pending =
                insert key (record { packet = p; attempt = 1; next = now + 500_000_000 }) r.pending;
            peers =
                if p.header.typ == PacketType.stream_start
                then update_peer key.listener (λ q. record q { receiving = true }) r.peers
                else r.peers;
          })
          listener.address p h in
      (ap (λ x. x.0) (same.0), same.1)

  start_notification_agree :
      (r : Reflector) (now id : ℕ) (p : Packet)
      → Floorless r
      → (start_notification over r now id p ≡ start_notification other r now id p)
        × Floorless (start_notification over r now id p)
  unfolding start_notification
  start_notification_agree r now id p h = elim (Option-cases (lookup id r.peers)) [
    | inl e ↦ ground (arith, e, h)
    | inr (listener, e) ↦ elim (Option-cases (find p TlvType.transaction_id)) [
      | inl k ↦ ground (arith, e, k, agree r id h)
      | inr (raw, k) ↦ ground (
        arith,
        e,
        k,
        agree r id h,
        register_agree r now listener (record { listener = id; typ = p.header.typ; tx = be64 raw })
            p h,
      )
    ]
  ]

  notify_end_peer_agree :
      (r : Reflector) (now : ℕ) (end : StreamEnd) (id : ℕ)
      → Floorless r
      → (notify_end_peer over r now end id ≡ notify_end_peer other r now end id)
        × Floorless (notify_end_peer over r now end id)
  unfolding notify_end_peer transaction_id
  notify_end_peer_agree r now end id h = elim (Option-cases (lookup id r.peers)) [
    | inl e ↦ ground (arith, e, h)
    | inr (listener, e) ↦
        let r' : Reflector = record r {
          random = (draw_tx (length r.random) r.random r.pending).0;
          peers = update_peer id (λ q. record q { receiving = false }) r.peers;
        } in
        ground (
          arith,
          e,
          h,
          start_notification_agree r' now id
              (revoke_packet end (draw_tx (length r.random) r.random r.pending).1) h,
        )
  ]

  notify_end_peers_agree :
      (ids : List ℕ) (r : Reflector) (now : ℕ) (end : StreamEnd)
      → Floorless r
      → notify_end_peers over r now end ids ≡ notify_end_peers other r now end ids
  unfolding notify_end_peers
  notify_end_peers_agree [] r now end h = refl
  notify_end_peers_agree (id ∷ ids) r now end h =
      let same = notify_end_peer_agree r now end id h in
      notify_end_peers_agree ids _ now end (same.1)
      ∙ ap (λ x. notify_end_peers other x now end ids) (same.0)

  notify_end_agree :
      (r : Reflector) (now : ℕ) (end : StreamEnd)
      → Floorless r
      → notify_end over r now end ≡ notify_end other r now end
  unfolding notify_end
  notify_end_agree r now end h = notify_end_peers_agree (keys r.peers) _ now end h

-- While nobody holds the floor, the fuel does not matter.
overload-Floorless :
    (fuel now : ℕ) (r : Reflector) (id : ℕ)
    → Floorless r
    → (overload_within fuel now r id ≡ overload_within zero now r id)
      × Floorless (overload_within fuel now r id)
unfolding overload_within
overload-Floorless zero now r id h = (refl, (disconnect_peer-Floorless r now id h).1)
overload-Floorless (suc fuel) now r id h = ground (arith, disconnect_peer-Floorless r now id h)

overload_enough :
    (more now : ℕ) (r : Reflector) (id : ℕ)
    → overload_within (suc more) now r id ≡ control_overload now r id
unfolding overload_within control_overload
overload_enough more now r id = elim (Option-cases (disconnect_peer r now id).1) [
  | inl e ↦ ground (arith, e)
  | inr (end, e) ↦ ground (
    arith,
    e,
    notify_end_agree (overload_within more now) (overload_within zero now)
        (λ r id. overload-Floorless more now r id)
        (record (disconnect_peer r now id).0 {
          pending = drop_listener id (disconnect_peer r now id).0.pending;
        })
        now end (disconnect_peer_releases r now id end e),
  )
]

draw_tx_enough :
    (fuel more : ℕ) (random : List ℕ) (pending : List (NotificationKey × Notification))
    → length random ≤ fuel
    → fuel ≤ more
    → draw_tx more random pending ≡ draw_tx fuel random pending
unfolding draw_tx
draw_tx_enough zero zero random pending h k = refl
draw_tx_enough zero (suc more) [] pending h k = refl
draw_tx_enough zero (suc more) (b ∷ bs) pending h k = ground (arith, h)
draw_tx_enough (suc fuel) zero random pending h k = ground (arith, k)
draw_tx_enough (suc fuel) (suc more) random pending h k =
    ground (arith, h, k, length-drop 8 random, draw_tx_enough fuel more (drop 8 random) pending)

draw_session_enough :
    (fuel more : ℕ) (random : List ℕ) (e : Engine) (now : ℕ) (address node : List ℕ)
    → length random ≤ fuel
    → fuel ≤ more
    → draw_session more random e now address node ≡ draw_session fuel random e now address node
unfolding draw_session
draw_session_enough zero zero random e now address node h k = refl
draw_session_enough zero (suc more) [] e now address node h k = refl
draw_session_enough zero (suc more) (b ∷ bs) e now address node h k = ground (arith, h)
draw_session_enough (suc fuel) zero random e now address node h k = ground (arith, k)
draw_session_enough (suc fuel) (suc more) random e now address node h k = ground (
  arith,
  h,
  k,
  length-drop 8 random,
  draw_session_enough fuel more (drop 8 random) e now address node,
)

-- More fuel than the model gives changes nothing: neither where a peer that does not keep up is
-- dropped, however many listeners of its stream are full too, nor where transaction and session IDs
-- are drawn until one is free.
pub fuel_enough :
    (r : Reflector) (now id more : ℕ) (address node : List ℕ)
    → (overload_within (suc more) now r id ≡ control_overload now r id)
      × (draw_tx (length r.random + more) r.random r.pending
          ≡ draw_tx (length r.random) r.random r.pending)
      × (draw_session (length r.random + more) r.random r.engine now address node
          ≡ draw_session (length r.random) r.random r.engine now address node)
fuel_enough r now id more address node =
    let size = length r.random in
    (
      overload_enough more now r id,
      draw_tx_enough size (size + more) r.random r.pending (omega arith) (omega arith),
      draw_session_enough size (size + more) r.random r.engine now address node (omega arith)
          (omega arith),
    )
