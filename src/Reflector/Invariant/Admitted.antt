-- ===== src/Reflector/Invariant/Admitted.antt =====
-- pkg/server/reflector.go: what the packets of an admitted client keep of the tables.
use opusref.Base.{
  First, if_rule, option_rule, result_rule, [], be64, ℕ, ◌<◌, u32_mod, ◌≡◌, refl, List, ◌∷◌, Bool,
  true, false, not, ◌&&◌, ◌==◌, length, Option, none, some, lookup, lookup-insert, length-delete-le,
  ℕ-Key, Bytes-Key, arith, Option-cases, inl, inr, delete,
}
use opusref.Wire.Types.{Packet}
use opusref.Wire.PacketType
use opusref.Wire.TlvType
use opusref.Wire.Helpers.{find, trim_space}
use opusref.Engine.Types.{
  Session, Engine, FloorResult, floor_granted, floor_busy, floor_rejected, end_normal,
  FloorSnapshot,
}
use opusref.Engine.Ops as EngineOps
use opusref.Engine.Ops.{add_session}
use opusref.Engine.Release as EngineRelease
use opusref.Engine.Invariant.{set_ready-Inv}
use opusref.Transport.{enqueue_media, MediaBatch}
use opusref.Reflector.State.{Peer, NotificationKey, NotificationKey-Key, Reflector, Library, keys}
use opusref.Reflector.Notify.{control_overload, disconnect_peer}
use opusref.Reflector.Admission.{find_or_nil}
use opusref.Reflector.Control.{
  notify_listeners, control_keepalive, control_disconnect, control_request, control_end, control,
  acknowledges, acknowledged, ack, media, recipients,
}
use opusref.Reflector.Invariant.Tables.{
  known-update_peer, Known, TablesInv, TablesInv-transport, Peered, TablesInv-pending,
  TablesInv-peers, disconnect_peer-TablesInv, lookup-update_peer, changed,
}
use opusref.Reflector.Invariant.Notified.{
  control_overload-TablesInv, notify_end-TablesInv, notify_start-TablesInv,
}
use opusref.Reflector.Invariant.Sessions.{
  TablesInv-EngineStep, request_floor-EngineStep, media-EngineStep, end_floor-EngineStep,
}

-- A session after SetReady, where it is this one.
abbrev readied : Bool → ℕ → Option Session → Option Session
readied true now (some s) = some (record s { ready = true; last = now })
readied false now (some s) = some s
readied b now none = none

lookup-set_ready :
    (e : Engine) (now id j : ℕ)
    → lookup j (EngineOps.set_ready e now id).0.sessions
      ≡ readied (id == j) now (lookup j e.sessions)
unfolding EngineOps.set_ready
lookup-set_ready e now id j = elim (Option-cases (lookup id e.sessions)) [
  | inl k ↦ ground (arith, k)
  | inr (s, k) ↦
      ground (arith, k, lookup-insert id j (record s { ready = true; last = now }) e.sessions)
]

Peered-ready :
    (b : Bool) (j now : ℕ) (s : Option Session) (o : Option Peer)
    → Peered j s o
    → Peered j (readied b now s) (changed b (λ q. record q { ready = true }) o)
Peered-ready true j now none none h = h
Peered-ready true j now none (some p) h = h
Peered-ready true j now (some s) none h = h
Peered-ready true j now (some s) (some p) h = ground (arith, h)
Peered-ready false j now none none h = h
Peered-ready false j now none (some p) h = h
Peered-ready false j now (some s) none h = h
Peered-ready false j now (some s) (some p) h = h

limits-set_ready : (e : Engine) (now id : ℕ) → (EngineOps.set_ready e now id).0.limits ≡ e.limits
unfolding EngineOps.set_ready
limits-set_ready e now id = ground arith

module _ {K : Known} (base : Reflector) where
  notify_listeners-TablesInv :
      (lib : Library) (ids : List ℕ) (r : Reflector) (now owner : ℕ) (floor : FloorSnapshot)
      → TablesInv K base r
      → TablesInv K base (notify_listeners lib r now owner floor ids)
  unfolding notify_listeners
  notify_listeners-TablesInv lib [] r now owner floor v = v
  notify_listeners-TablesInv lib (id ∷ ids) r now owner floor v =
      notify_listeners-TablesInv lib ids _ now owner floor (
        option_rule (TablesInv K base) (lookup id r.peers) (λ _. v)
          λ listener _.
            if_rule (TablesInv K base) (not (listener.id == owner) && listener.ready)
              (λ _. notify_start-TablesInv base lib r now id floor v) (λ _. v))

  control_keepalive-TablesInv :
      (r : Reflector) (now id : ℕ) (p : Packet)
      → TablesInv K base r
      → TablesInv K base (control_keepalive r now id p).0
  unfolding control_keepalive
  control_keepalive-TablesInv r now id p v = record {
    options = v.options;
    limits = rw (limits-set_ready r.engine now id) v.limits;
    challenges_bound = v.challenges_bound;
    transactions = v.transactions;
    engine = set_ready-Inv r.engine now v.engine id;
    pending_bound = v.pending_bound;
    control_bound = v.control_bound;
    known =
        known-update_peer K id (λ q. record q { ready = true }) r.peers (λ p. (refl, refl)) v.known;
    peered = λ j.
        rw
          (
            lookup-set_ready r.engine now id j,
            lookup-update_peer id j (λ q. record q { ready = true }) r.peers,
          )
          (Peered-ready (id == j) j now _ _ (v.peered j));
  }

  control_disconnect-TablesInv :
      (r : Reflector) (now id : ℕ) (p : Packet)
      → TablesInv K base r
      → TablesInv K base (control_disconnect r now id p).0
  unfolding control_disconnect
  control_disconnect-TablesInv r now id p v =
      option_rule (TablesInv K base) (disconnect_peer r now id).1 (λ _. gone)
        λ end _.
          notify_end-TablesInv base (control_overload now) (control_overload-TablesInv base now) _
            now end gone
    where
      gone : TablesInv K base (disconnect_peer r now id).0
      gone = disconnect_peer-TablesInv base now r id v

  control_request-TablesInv :
      (lib : Library) (r : Reflector) (now id : ℕ) (p : Packet)
      → TablesInv K base r
      → TablesInv K base (control_request lib r now id p).0
  unfolding control_request
  control_request-TablesInv lib r now id p v = kept.held
    where
      source : List ℕ
      source = trim_space (find_or_nil p TlvType.source_callsign)

      asked : TablesInv K base (record r {
        engine = (EngineOps.request_floor r.engine now id p.header.stream_id source).0;
      })
      asked =
          TablesInv-EngineStep base r _
            (request_floor-EngineStep r.engine now v.engine id p.header.stream_id source) v

      cases :
          (result : FloorResult) (granted busy rejected : Reflector × Option Packet)
          → TablesInv K base granted.0
          → TablesInv K base busy.0
          → TablesInv K base rejected.0
          → First {B = Option Packet} (TablesInv K base) (elim result [
            | floor_granted ↦ granted
            | floor_busy ↦ busy
            | floor_rejected ↦ rejected
          ])
      cases floor_granted _ _ _ h k l = record { held = h }
      cases floor_busy _ _ _ h k l = record { held = k }
      cases floor_rejected _ _ _ h k l = record { held = l }

      kept : First (TablesInv K base) (control_request lib r now id p)
      kept =
          cases (EngineOps.request_floor r.engine now id p.header.stream_id source).1 _ _ _
            (notify_listeners-TablesInv lib (keys r.peers) _ now id _ asked) asked asked

  control_end-TablesInv :
      (r : Reflector) (now id : ℕ) (p : Packet)
      → TablesInv K base r
      → TablesInv K base (control_end r now id p).0
  unfolding control_end
  control_end-TablesInv r now id p v = kept.held
    where
      ended : TablesInv K base (record r {
        engine =
            (EngineRelease.end_floor r.engine now id p.header.stream_id p.header.sequence
              p.header.timestamp end_normal).0;
      })
      ended =
          TablesInv-EngineStep base r _
            (end_floor-EngineStep r.engine now v.engine id p.header.stream_id p.header.sequence
              p.header.timestamp end_normal)
            v

      kept : First (TablesInv K base) (control_end r now id p)
      kept =
          result_rule (First (TablesInv K base))
            (EngineRelease.end_floor r.engine now id p.header.stream_id p.header.sequence
              p.header.timestamp end_normal).1
            (λ _ _. record { held = v })
            λ end _.
              option_rule (First (TablesInv K base)) end (λ _. record { held = ended })
                λ x _. record {
                  held =
                      notify_end-TablesInv base (control_overload now)
                        (control_overload-TablesInv base now) _ now x ended;
                }

  pub control-TablesInv :
      (lib : Library) (now id : ℕ) (r : Reflector) (p : Packet)
      → TablesInv K base r
      → TablesInv K base (control lib now id r p).0
  unfolding control
  control-TablesInv lib now id r p v = kept.held
    where
      kept : First (TablesInv K base) (control lib now id r p)
      kept =
          if_rule (First (TablesInv K base)) (p.header.typ == PacketType.keepalive)
            (λ _. record { held = control_keepalive-TablesInv r now id p v })
            λ _.
              if_rule (First (TablesInv K base)) (p.header.typ == PacketType.disconnect)
                (λ _. record { held = control_disconnect-TablesInv r now id p v })
                λ _.
                  if_rule (First (TablesInv K base)) (p.header.typ == PacketType.stream_request)
                    (λ _. record { held = control_request-TablesInv lib r now id p v })
                    λ _.
                      if_rule (First (TablesInv K base)) (p.header.typ == PacketType.stream_end)
                        (λ _. record { held = control_end-TablesInv r now id p v })
                        λ _. record { held = v }

  acknowledged-TablesInv :
      (r : Reflector) (now id typ : ℕ)
      → TablesInv K base r
      → TablesInv K base (acknowledged r now id typ)
  unfolding acknowledged
  acknowledged-TablesInv r now id typ v =
      if_rule (TablesInv K base) (typ == PacketType.stream_start)
        (λ _. TablesInv-peers base r id _ (λ p. (refl, refl, refl, refl)) v)
        λ _.
          if_rule (TablesInv K base) (typ == PacketType.stream_revoke)
            (λ _. TablesInv-peers base r id _ (λ p. (refl, refl, refl, refl)) v)
            λ _.
              if_rule (TablesInv K base) (typ == PacketType.disconnect)
                (λ _. disconnect_peer-TablesInv base now r id v) (λ _. v)

  pub ack-TablesInv :
      (now id : ℕ) (r : Reflector) (p : Packet)
      → TablesInv K base r
      → TablesInv K base (ack now id r p).0
  unfolding ack
  ack-TablesInv now id r p v = kept.held
    where
      kept : First (TablesInv K base) (ack now id r p)
      kept =
          option_rule (First (TablesInv K base)) (find p TlvType.transaction_id)
            (λ _. record { held = v })
            λ raw _.
              let key : NotificationKey = record {
                listener = id;
                typ = p.header.typ;
                tx = be64 raw;
              } in
              if_rule (First (TablesInv K base)) (not (length raw == 8)) (λ _. record { held = v })
                λ _.
                  option_rule (First (TablesInv K base)) (lookup key r.pending)
                    (λ _. record { held = v })
                    λ n _.
                      if_rule (First (TablesInv K base)) (not (acknowledges p n.packet))
                        (λ _. record { held = v })
                        λ _. record {
                          held = acknowledged-TablesInv _ now id p.header.typ (
                              TablesInv-pending base r (delete key r.pending)
                                (ground (arith, v.pending_bound, length-delete-le key r.pending))
                                v);
                        }

  TablesInv-enqueue_media :
      (r : Reflector) (b : MediaBatch)
      → TablesInv K base r
      → TablesInv K base (record r { transport = (enqueue_media r.transport b).0 })
  unfolding enqueue_media
  TablesInv-enqueue_media r b v = TablesInv-transport base r _ (ground (arith, v.control_bound)) v

  pub media-TablesInv :
      (now id : ℕ) (r : Reflector) (p : Packet) (raw : List ℕ)
      → p.header.sequence < u32_mod
      → TablesInv K base r
      → TablesInv K base (media now id r p raw).0
  unfolding media
  media-TablesInv now id r p raw fits v = kept.held
    where
      kept : First (TablesInv K base) (media now id r p raw)
      kept =
          option_rule (First (TablesInv K base)) (lookup id r.peers) (λ _. record { held = v })
            λ owner _.
              let step =
                media-EngineStep r.engine now v.engine owner.id owner.address p.header.stream_id
                  p.header.sequence p.header.timestamp p.payload fits in
              let heard = TablesInv-EngineStep base r _ step v in
              result_rule (First (TablesInv K base))
                (EngineOps.media r.engine now owner.id owner.address p.header.stream_id
                  p.header.sequence p.header.timestamp p.payload).1
                (λ _ _. record { held = v })
                λ effects _.
                  if_rule (First (TablesInv K base)) (length (recipients effects r.peers) == 0)
                    (λ _. record { held = heard })
                    λ _. record { held = TablesInv-enqueue_media _ _ heard }
