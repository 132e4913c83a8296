-- ===== src/Reflector/InVain.antt =====
-- pkg/server/reflector.go: notifyStart while the transmit time limit is below one second: no STREAM_START is
-- encoded, so that listeners are notified in vain.
use opusref.Base.{
  if_rule, option_rule, ℕ, ◌<◌, ◌≢◌, ◌≡◌, refl, List, [], ◌∷◌, true, not, ◌&&◌, ◌==◌, leb, length,
  some, err, lookup, lookup-delete, ℕ-Key, arith, capacity, Option-cases, inl, inr, subst, sym,
}
use opusref.Wire.Types.{Packet, malformed_packet}
use opusref.Wire.PacketType
use opusref.Wire.TlvType
use opusref.Wire.Codec.{encode}
use opusref.Wire.Helpers.{find}
use opusref.Engine.Types.{second, Floor, FloorSnapshot}
use opusref.Engine.Release as EngineRelease
use opusref.Engine.Release.{release_locked}
use opusref.Reflector.State.{
  Peer, CompletedKey-Key, NotificationKey, NotificationKey-Key, Reflector, Library, update_peer,
  count_listener,
}
use opusref.Reflector.Packets.{limit_seconds}
use opusref.Reflector.Notify.{
  disconnect_peer, transaction_id, send_control, register, start_notification, overload_within,
  control_overload, notify_start,
}
use opusref.Reflector.Control.{notify_listeners}
use opusref.Reflector.Delivered.{start-encode_refused}
use opusref.Reflector.Invariant.Tables.{lookup-update_peer}

-- Each peer is kept under its own ID.
abbrev pub Keyed : Reflector → Type 0
Keyed r = (j : ℕ) (q : Peer) → lookup j r.peers ≡ some q → q.id ≡ j

pub no_whole_second : (limit : ℕ) → limit < second → limit_seconds limit ≡ 0
unfolding limit_seconds
no_whole_second limit short = ground (arith, short)

-- What stays while listeners are notified in vain.
module _ (base : Reflector) (f : Floor) where
  pub record Held (r : Reflector) : Type 0 where
    pub floor : r.engine.floor ≡ some f
    pub limits : r.engine.limits ≡ base.engine.limits
    pub transport : r.transport ≡ base.transport
    pub transactions : r.transactions ≡ base.transactions
    pub keyed : Keyed r

  update_peer-Keyed :
      (r : Reflector) (id : ℕ) (change : Peer → Peer)
      → ((q : Peer) → (change q).id ≡ q.id)
      → Keyed r
      → Keyed (record r { peers = update_peer id change r.peers })
  update_peer-Keyed r id change mild k j q h = elim (Option-cases (lookup j r.peers)) [
    | inl e ↦ ground (arith, h, e, lookup-update_peer id j change r.peers)
    | inr (q', e) ↦ ground (arith, h, e, lookup-update_peer id j change r.peers, mild q', k j q')
  ]

  control_overload-Held :
      (now id : ℕ) (r : Reflector) → id ≢ f.owner → Held r → Held (control_overload now r id)
  unfolding control_overload overload_within disconnect_peer EngineRelease.disconnect release_locked
  control_overload-Held now id r other v = elim (Option-cases (lookup id r.peers)) [
    | inl e ↦ record {
      floor = ground (arith, e, v.floor, other);
      limits = ground (arith, e, v.floor, other, v.limits);
      transport = ground (arith, e, v.floor, other, v.transport);
      transactions = ground (arith, e, v.floor, other, v.transactions);
      keyed = λ j q h. v.keyed j q (ground (arith, h, e, v.floor, other));
    }
    | inr (p, e) ↦ record {
      floor = ground (arith, e, v.floor, other);
      limits = ground (arith, e, v.floor, other, v.limits);
      transport = ground (arith, e, v.floor, other, v.transport);
      transactions = ground (arith, e, v.floor, other, v.transactions);
      keyed =
          λ j q h. v.keyed j q (ground (arith, h, e, v.floor, other, lookup-delete id j r.peers));
    }
  ]

  send_control_refused :
      (over : Reflector → ℕ → Reflector) (r : Reflector) (address : List ℕ) (p : Packet)
      → encode p ≡ err malformed_packet
      → (send_control over r address p).0 ≡ r
  unfolding send_control
  send_control_refused over r address p h = ground (arith, h)

  register-Held :
      (now : ℕ) (r : Reflector) (listener : Peer) (key : NotificationKey) (p : Packet)
      → encode p ≡ err malformed_packet
      → Held r
      → Held (register (control_overload now) r now listener key p)
  unfolding register
  register-Held now r listener key p refused v =
      subst Held (sym (send_control_refused (control_overload now) _ listener.address p refused))
        (record {
          floor = v.floor;
          limits = v.limits;
          transport = v.transport;
          transactions = v.transactions;
          keyed =
              if_rule (λ peers. (j : ℕ) (q : Peer) → lookup j peers ≡ some q → q.id ≡ j)
                (p.header.typ == PacketType.stream_start)
                (λ _.
                  update_peer-Keyed r key.listener (λ q. record q { receiving = true }) (λ q. refl)
                    v.keyed)
                (λ _. v.keyed);
        })

  start_notification-Held :
      (now id : ℕ) (r : Reflector) (p : Packet)
      → id ≢ f.owner
      → encode p ≡ err malformed_packet
      → Held r
      → Held (start_notification (control_overload now) r now id p)
  unfolding start_notification
  start_notification-Held now id r p other refused v =
      let full = control_overload-Held now id r other v in
      option_rule Held (lookup id r.peers) (λ _. v)
        λ listener _.
          if_rule Held (leb (capacity r.options.max_pending_notifications) (length r.pending))
            (λ _. full)
            λ _.
              if_rule Held
                (leb (capacity r.options.max_pending_notifications_per_client)
                  (count_listener id r.pending))
                (λ _. full)
                λ _.
                  option_rule Held (find p TlvType.transaction_id) (λ _. full)
                    λ raw _.
                      if_rule Held (not (length raw == 8)) (λ _. full)
                        (λ _. register-Held now r listener _ p refused v)

  notify_start-Held :
      (lib : Library) (now id : ℕ) (r : Reflector) (floor : FloorSnapshot)
      → base.engine.limits.transmit_time_limit < second
      → id ≢ f.owner
      → Held r
      → Held (notify_start lib r now id floor)
  unfolding notify_start transaction_id
  notify_start-Held lib now id r floor short other v =
      option_rule Held (lookup floor.session_id r.peers) (λ _. v)
        λ owner _.
          start_notification-Held now id _ _ other
            (start-encode_refused lib.unicode_upper floor.session_id floor.stream_id owner.node
              floor.source_callsign _ _ (no_whole_second _ (rw (v.limits) short)))
            (record {
              floor = v.floor;
              limits = v.limits;
              transport = v.transport;
              transactions = v.transactions;
              keyed =
                  update_peer-Keyed r id (λ q. record q { notified = true }) (λ q. refl) v.keyed;
            })

  pub notify_listeners-Held :
      (lib : Library) (now : ℕ) (floor : FloorSnapshot) (ids : List ℕ) (r : Reflector)
      → base.engine.limits.transmit_time_limit < second
      → Held r
      → Held (notify_listeners lib r now f.owner floor ids)
  unfolding notify_listeners
  notify_listeners-Held lib now floor [] r short v = v
  notify_listeners-Held lib now floor (id ∷ ids) r short v =
      notify_listeners-Held lib now floor ids _ short (
        option_rule Held (lookup id r.peers) (λ _. v)
          λ listener found.
            if_rule Held (not (listener.id == f.owner) && listener.ready)
              (λ b.
                notify_start-Held lib now id r floor short
                  (λ same. ground (arith, b, same, v.keyed id listener found)) v)
              (λ _. v))
