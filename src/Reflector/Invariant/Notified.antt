-- ===== src/Reflector/Invariant/Notified.antt =====
-- pkg/server/reflector.go: notifications keep what holds of the tables, those of peers that do not
-- keep up included.
use opusref.Base.{
  ℕ, zero, suc, ◌+◌, ◌<◌, refl, List, [], ◌∷◌, true, false, not, ◌&&◌, ◌==◌, leb, if◌then◌else◌,
  length, be64, lookup, length-insert, capacity, ℕ-Key, arith, First, if_rule, option_rule,
  result_rule,
}
use opusref.Wire.Types.{Packet}
use opusref.Wire.Codec.{encode}
use opusref.Wire.Helpers.{find}
use opusref.Wire.TlvType
use opusref.Wire.PacketType
use opusref.Engine.Types.{StreamEnd, FloorSnapshot}
use opusref.Transport.{Datagram, enqueue_control}
use opusref.Reflector.State.{
  Peer, NotificationKey, NotificationKey-Key, Notification, Reflector, Library, update_peer, keys,
  peer_at, drop_listener, drop_type, count_listener,
}
use opusref.Reflector.Packets.{revoke_packet}
use opusref.Reflector.Notify.{
  disconnect_peer, transaction_id, send_control, register, start_notification, notify_end_peer,
  notify_end_peers, notify_end, overload_within, control_overload, notify_start, is_normal,
}
use opusref.Reflector.Invariant.Tables.{
  Known, TablesInv, TablesInv-peers, TablesInv-pending, disconnect_peer-TablesInv,
  TablesInv-enqueue_control, transaction_id-TablesInv, length-drop_listener-le, length-drop_type-le,
}

-- The same of the methods that call controlOverload, if that call keeps it.
module _ {K : Known} (base : Reflector) (overload : Reflector → ℕ → Reflector)
    (keeps : (r : Reflector) (id : ℕ) → TablesInv K base r → TablesInv K base (overload r id)) where
  pub send_control-TablesInv :
      (r : Reflector) (address : List ℕ) (p : Packet)
      → TablesInv K base r
      → TablesInv K base (send_control overload r address p).0
  unfolding send_control
  send_control-TablesInv r address p v = kept.held
    where
      datagram : List ℕ → Datagram
      datagram bytes = record { address = address; contents = bytes }

      sent :
          (bytes : List ℕ)
          → TablesInv K base (record r {
            transport =
                (enqueue_control r.transport (record { address = address; contents = bytes })).0;
          })
      sent bytes =
          TablesInv-enqueue_control base r (record { address = address; contents = bytes }) v

      kept : First (TablesInv K base) (send_control overload r address p)
      kept =
          result_rule (First (TablesInv K base)) (encode p) (λ _ _. record { held = v })
            λ bytes _.
              if_rule (First (TablesInv K base))
                (enqueue_control r.transport (record { address = address; contents = bytes })).1
                (λ _. record { held = sent bytes })
                λ _.
                  option_rule (First (TablesInv K base)) (peer_at address r.peers)
                    (λ _. record { held = sent bytes })
                    (λ id _. record { held = keeps _ id (sent bytes) })

  register-TablesInv :
      (r : Reflector) (now : ℕ) (listener : Peer) (key : NotificationKey) (p : Packet)
      → length r.pending < capacity r.options.max_pending_notifications
      → TablesInv K base r
      → TablesInv K base (register overload r now listener key p)
  unfolding register
  register-TablesInv r now listener key p room v = send_control-TablesInv _ listener.address p (
      TablesInv-pending base (record r { peers = peers }) _
        (ground (arith, room, length-insert key notification r.pending))
        (if_rule (λ (l : List (ℕ × Peer)). TablesInv K base (record r { peers = l }))
          (p.header.typ == PacketType.stream_start)
          (λ _. TablesInv-peers base r key.listener _ (λ p. (refl, refl, refl, refl)) v) (λ _. v)))
    where
      notification : Notification
      notification = record { packet = p; attempt = 1; next = now + 500_000_000 }

      peers : List (ℕ × Peer)
      peers =
          if p.header.typ == PacketType.stream_start
          then update_peer key.listener (λ q. record q { receiving = true }) r.peers
          else r.peers

  pub start_notification-TablesInv :
      (r : Reflector) (now id : ℕ) (p : Packet)
      → TablesInv K base r
      → TablesInv K base (start_notification overload r now id p)
  unfolding start_notification
  start_notification-TablesInv r now id p v =
      option_rule (TablesInv K base) (lookup id r.peers) (λ _. v)
        λ listener e.
          if_rule (TablesInv K base)
            (leb (capacity r.options.max_pending_notifications) (length r.pending))
            (λ _. keeps r id v)
            λ room.
              if_rule (TablesInv K base)
                (leb (capacity r.options.max_pending_notifications_per_client)
                  (count_listener id r.pending))
                (λ _. keeps r id v)
                λ _.
                  option_rule (TablesInv K base) (find p TlvType.transaction_id) (λ _. keeps r id v)
                    λ raw _.
                      if_rule (TablesInv K base) (not (length raw == 8)) (λ _. keeps r id v)
                        λ _.
                          register-TablesInv r now listener
                            (record { listener = id; typ = p.header.typ; tx = be64 raw }) p
                            (ground (arith, room)) v

  pub notify_end_peer-TablesInv :
      (r : Reflector) (now : ℕ) (end : StreamEnd) (id : ℕ)
      → TablesInv K base r
      → TablesInv K base (notify_end_peer overload r now end id)
  unfolding notify_end_peer
  notify_end_peer-TablesInv r now end id v =
      option_rule (TablesInv K base) (lookup id r.peers) (λ _. v)
        λ listener e.
          if_rule (TablesInv K base) (id == end.session_id && is_normal end.reason) (λ _. v)
            λ _.
              if_rule (TablesInv K base) (not (id == end.session_id) && not listener.notified)
                (λ _. v)
                λ _.
                  start_notification-TablesInv _ now id (revoke_packet end (transaction_id r).1) (
                    TablesInv-peers base (transaction_id r).0 id
                      (λ q. record q { receiving = false }) (λ p. (refl, refl, refl, refl))
                      (transaction_id-TablesInv base r v))

  pub notify_end_peers-TablesInv :
      (ids : List ℕ) (r : Reflector) (now : ℕ) (end : StreamEnd)
      → TablesInv K base r
      → TablesInv K base (notify_end_peers overload r now end ids)
  unfolding notify_end_peers
  notify_end_peers-TablesInv [] r now end v = v
  notify_end_peers-TablesInv (id ∷ ids) r now end v =
      notify_end_peers-TablesInv ids _ now end (notify_end_peer-TablesInv r now end id v)

  pub notify_end-TablesInv :
      (r : Reflector) (now : ℕ) (end : StreamEnd)
      → TablesInv K base r
      → TablesInv K base (notify_end overload r now end)
  unfolding notify_end
  notify_end-TablesInv r now end v = notify_end_peers-TablesInv (keys r.peers) _ now end (
      TablesInv-pending base r (drop_type PacketType.stream_start r.pending)
        (ground (arith, v.pending_bound, length-drop_type-le PacketType.stream_start r.pending)) v)

pub TablesInv-drop_listener :
    {K : Known} (base r : Reflector) (id : ℕ)
    → TablesInv K base r
    → TablesInv K base (record r { pending = drop_listener id r.pending })
TablesInv-drop_listener base r id v =
    TablesInv-pending base r (drop_listener id r.pending)
      (ground (arith, v.pending_bound, length-drop_listener-le id r.pending)) v

pub overload_within-TablesInv :
    {K : Known} (base : Reflector) (fuel now : ℕ) (r : Reflector) (id : ℕ)
    → TablesInv K base r
    → TablesInv K base (overload_within fuel now r id)
unfolding overload_within
overload_within-TablesInv {K = K} base zero now r id v =
    TablesInv-drop_listener base _ id (disconnect_peer-TablesInv base now r id v)
overload_within-TablesInv {K = K} base (suc fuel) now r id v =
    option_rule (TablesInv K base) (disconnect_peer r now id).1 (λ _. dropped)
      λ end _.
        notify_end-TablesInv base (overload_within fuel now)
          (overload_within-TablesInv base fuel now) _ now end dropped
  where
    dropped : TablesInv K base (
        let r' = (disconnect_peer r now id).0 in
        record r' { pending = drop_listener id r'.pending })
    dropped = TablesInv-drop_listener base _ id (disconnect_peer-TablesInv base now r id v)

pub control_overload-TablesInv :
    {K : Known} (base : Reflector) (now : ℕ) (r : Reflector) (id : ℕ)
    → TablesInv K base r
    → TablesInv K base (control_overload now r id)
unfolding control_overload
control_overload-TablesInv base = overload_within-TablesInv base 1

pub notify_start-TablesInv :
    {K : Known} (base : Reflector) (lib : Library) (r : Reflector) (now id : ℕ)
    (floor : FloorSnapshot)
    → TablesInv K base r
    → TablesInv K base (notify_start lib r now id floor)
unfolding notify_start
notify_start-TablesInv {K = K} base lib r now id floor v =
    option_rule (TablesInv K base) (lookup floor.session_id r.peers) (λ _. v)
      λ owner e.
        start_notification-TablesInv base (control_overload now)
          (control_overload-TablesInv base now) _ now id _
          (TablesInv-peers base (transaction_id r).0 id (λ q. record q { notified = true })
            (λ p. (refl, refl, refl, refl)) (transaction_id-TablesInv base r v))
