-- ===== src/Reflector/Invariant/Ticked.antt =====
-- pkg/server/reflector.go: the ticker and drain keep what holds of the reflector between two calls.
use opusref.Base.{
  if_rule, option_rule, ltb, ℕ, ◌≤◌, refl, List, [], ◌∷◌, false, ◌==◌, leb, if◌then◌else◌, length,
  Option, none, some, lookup, insert, length-insert, length-delete-le, ℕ-Key, Bytes-Key, arith,
  delete, ◌-◌,
}
use opusref.Wire.PacketType
use opusref.Engine.Release.{begin_shutdown, tick}
use opusref.Engine.Types.{StreamEnd}
use opusref.Transport.{disable_media}
use opusref.Reflector.State.{
  Challenge, Completed, CompletedKey, CompletedKey-Key, NotificationKey, NotificationKey-Key, Peer,
  Reflector, keys, update_peer,
}
use opusref.Reflector.Notify.{disconnect_peer, notify_end, control_overload}
use opusref.Reflector.Ticker.{
  expire_challenges, expire_transactions, expire_peer, expire_peers, retry, retry_pending,
  retry_all, tick_engine, tick_reflector,
}
use opusref.Reflector.Handle.{drain_begin, drain_peer, drain_peers, drain_finish}
use opusref.Reflector.Invariant.Tables.{
  Known, TablesInv, TablesInv-transport, TablesInv-peers, TablesInv-pending,
  disconnect_peer-TablesInv, transaction_id-TablesInv,
}
use opusref.Reflector.Invariant.Notified.{
  notify_end-TablesInv, control_overload-TablesInv, send_control-TablesInv,
  start_notification-TablesInv,
}
use opusref.Reflector.Invariant.Sessions.{
  TablesInv-EngineStep, tick-EngineStep, begin_shutdown-EngineStep,
}
use opusref.Reflector.Invariant.Requests.{TablesInv-challenges}
use opusref.Reflector.Invariant.Replies.{RunInv, TablesInv-self, RunInv-carry, RunInv-transactions}

length-expire_challenges-le :
    (now : ℕ) (challenges : List (List ℕ × Challenge))
    → length (expire_challenges now challenges) ≤ length challenges
unfolding expire_challenges
length-expire_challenges-le now [] = omega arith
length-expire_challenges-le now ((key, c) ∷ rest) =
    ground (arith, length-expire_challenges-le now rest)

length-expire_transactions-le :
    (now : ℕ) (transactions : List (CompletedKey × Completed))
    → length (expire_transactions now transactions) ≤ length transactions
unfolding expire_transactions
length-expire_transactions-le now [] = omega arith
length-expire_transactions-le now ((key, c) ∷ rest) =
    ground (arith, length-expire_transactions-le now rest)

module _ {K : Known} (base : Reflector) (now : ℕ) where
  notified-TablesInv :
      (r : Reflector) (o : Option StreamEnd)
      → TablesInv K base r
      → TablesInv K base (elim o [ none ↦ r | some e ↦ notify_end (control_overload now) r now e ])
  notified-TablesInv r o v =
      option_rule (TablesInv K base) o (λ _. v)
        λ end _.
          notify_end-TablesInv base (control_overload now) (control_overload-TablesInv base now) r
            now end v

  expire_peer-TablesInv :
      (r : Reflector) (id : ℕ) → TablesInv K base r → TablesInv K base (expire_peer r now id)
  unfolding expire_peer
  expire_peer-TablesInv r id v =
      option_rule (TablesInv K base) (lookup id r.peers) (λ _. v)
        λ p _.
          if_rule (TablesInv K base) (ltb r.engine.limits.session_timeout (now - p.last))
            (λ _.
              notified-TablesInv _ (disconnect_peer r now id).1
                (disconnect_peer-TablesInv base now r id v))
            (λ _. v)

  expire_peers-TablesInv :
      (ids : List ℕ) (r : Reflector)
      → TablesInv K base r
      → TablesInv K base (expire_peers r now ids)
  unfolding expire_peers
  expire_peers-TablesInv [] r v = v
  expire_peers-TablesInv (id ∷ ids) r v =
      expire_peers-TablesInv ids _ (expire_peer-TablesInv r id v)

  tick_engine-TablesInv :
      (r : Reflector) → TablesInv K base r → TablesInv K base (tick_engine r now)
  unfolding tick_engine
  tick_engine-TablesInv r v =
      notified-TablesInv _ (tick r.engine now).1
        (TablesInv-EngineStep base r _ (tick-EngineStep r.engine now v.engine) v)

  retry_pending-TablesInv :
      (r : Reflector) (key : NotificationKey)
      → TablesInv K base r
      → TablesInv K base (retry_pending r now key)
  unfolding retry_pending
  retry_pending-TablesInv r key v =
      option_rule (TablesInv K base) (lookup key r.pending) (λ _. v)
        λ n e.
          if_rule (TablesInv K base) (ltb now n.next) (λ _. v)
            λ _.
              if_rule (TablesInv K base) (leb 4 n.attempt)
                (λ _.
                  TablesInv-pending base (record r { peers = silenced }) (delete key r.pending)
                    (ground (arith, v.pending_bound, length-delete-le key r.pending)) quiet)
                λ _.
                  let again =
                    TablesInv-pending base r (insert key (retry n now) r.pending)
                      (ground
                        (arith, e, v.pending_bound, length-insert key (retry n now) r.pending))
                      v in
                  option_rule (TablesInv K base) (lookup key.listener r.peers) (λ _. again)
                    λ p _.
                      send_control-TablesInv base (control_overload now)
                        (control_overload-TablesInv base now) _ p.address (retry n now).packet again
    where
      silenced : List (ℕ × Peer)
      silenced =
          if key.typ == PacketType.stream_start
          then update_peer key.listener (λ q. record q { receiving = false }) r.peers
          else r.peers

      quiet : TablesInv K base (record r { peers = silenced })
      quiet =
          if_rule (λ (l : List (ℕ × Peer)). TablesInv K base (record r { peers = l }))
            (key.typ == PacketType.stream_start)
            (λ _.
              TablesInv-peers base r key.listener (λ q. record q { receiving = false })
                (λ p. (refl, refl, refl, refl)) v)
            (λ _. v)

  retry_all-TablesInv :
      (ks : List NotificationKey) (r : Reflector)
      → TablesInv K base r
      → TablesInv K base (retry_all r now ks)
  unfolding retry_all
  retry_all-TablesInv [] r v = v
  retry_all-TablesInv (key ∷ ks) r v = retry_all-TablesInv ks _ (retry_pending-TablesInv r key v)

  drain_begin-TablesInv :
      (r : Reflector) → TablesInv K base r → TablesInv K base (drain_begin r now)
  unfolding drain_begin disable_media
  drain_begin-TablesInv r v = notified-TablesInv _ (begin_shutdown r.engine now).1 (
      TablesInv-transport base (record r { engine = (begin_shutdown r.engine now).0 }) _
        v.control_bound
        (TablesInv-EngineStep base r _ (begin_shutdown-EngineStep r.engine now v.engine) v))

  drain_peer-TablesInv :
      (r : Reflector) (id : ℕ) → TablesInv K base r → TablesInv K base (drain_peer r now id)
  unfolding drain_peer
  drain_peer-TablesInv r id v =
      option_rule (TablesInv K base) (lookup id r.peers) (λ _. v)
        λ p _.
          start_notification-TablesInv base (control_overload now)
            (control_overload-TablesInv base now) _ now id _ (transaction_id-TablesInv base r v)

  drain_peers-TablesInv :
      (ids : List ℕ) (r : Reflector) → TablesInv K base r → TablesInv K base (drain_peers r now ids)
  unfolding drain_peers
  drain_peers-TablesInv [] r v = v
  drain_peers-TablesInv (id ∷ ids) r v = drain_peers-TablesInv ids _ (drain_peer-TablesInv r id v)

  drain_finish-TablesInv :
      (ids : List ℕ) (r : Reflector)
      → TablesInv K base r
      → TablesInv K base (drain_finish r now ids)
  unfolding drain_finish
  drain_finish-TablesInv [] r v = v
  drain_finish-TablesInv (id ∷ ids) r v = drain_finish-TablesInv ids _ (
      notified-TablesInv _ (disconnect_peer r now id).1 (disconnect_peer-TablesInv base now r id v))

module _ {K : Known} (now : ℕ) (r : Reflector) (h : RunInv K r) where
  pub tick_reflector-RunInv : RunInv K (tick_reflector r now)
  unfolding tick_reflector
  tick_reflector-RunInv =
      RunInv-carry expired _
        (retry_all-TablesInv expired now (keys released.pending) released (
          tick_engine-TablesInv expired now present
            (expire_peers-TablesInv expired now (keys r.peers) expired kept.tables)))
        kept
    where
      expired : Reflector
      expired = record r {
        challenges = expire_challenges now r.challenges;
        transactions = expire_transactions now r.transactions;
      }

      present : Reflector
      present = expire_peers expired now (keys r.peers)

      released : Reflector
      released = tick_engine present now

      kept : RunInv K expired
      kept =
          RunInv-transactions (record r { challenges = expire_challenges now r.challenges })
            (expire_transactions now r.transactions)
            (ground (arith, h.transactions_bound, length-expire_transactions-le now r.transactions))
            (TablesInv-self r _ (
              TablesInv-challenges r r (expire_challenges now r.challenges) r.random
                (ground
                  (arith, h.tables.challenges_bound, length-expire_challenges-le now r.challenges))
                h.tables))

  pub drain_begin-RunInv : RunInv K (drain_begin r now)
  drain_begin-RunInv = RunInv-carry r _ (drain_begin-TablesInv r now r h.tables) h

  pub drain_peers-RunInv : (ids : List ℕ) → RunInv K (drain_peers r now ids)
  drain_peers-RunInv ids = RunInv-carry r _ (drain_peers-TablesInv r now ids r h.tables) h

  pub drain_finish-RunInv : (ids : List ℕ) → RunInv K (drain_finish r now ids)
  drain_finish-RunInv ids = RunInv-carry r _ (drain_finish-TablesInv r now ids r h.tables) h
