-- ===== src/Reflector/Ticker.antt =====
-- pkg/server/reflector.go: tick. It makes one reading of the clock here, for itself and the engine.
use opusref.Base.{
  ℕ, ◌+◌, ◌-◌, ◌*◌, List, [], ◌∷◌, false, ◌==◌, leb, ltb, if◌then◌else◌, none, some, lookup, insert,
  delete, ℕ-Key, Bytes-Key,
}
use opusref.Wire.Types.{has_retry}
use opusref.Wire.PacketType
use opusref.Engine.Types.{second}
use opusref.Engine.Release.{tick}
use opusref.Reflector.State.{
  Challenge, Peer, Completed, CompletedKey, CompletedKey-Key, NotificationKey, NotificationKey-Key,
  Notification, Reflector, update_peer, keys,
}
use opusref.Reflector.Notify.{disconnect_peer, send_control, notify_end, control_overload}

-- The loops of tick: challenges and completed transactions that are too old.
unfoldable pub expire_challenges : ℕ → List (List ℕ × Challenge) → List (List ℕ × Challenge)
expire_challenges now [] = []
expire_challenges now ((key, c) ∷ rest) =
    let more = expire_challenges now rest in
    if ltb (10 * second) (now - c.at) then more else (key, c) ∷ more

unfoldable pub expire_transactions :
    ℕ → List (CompletedKey × Completed) → List (CompletedKey × Completed)
expire_transactions now [] = []
expire_transactions now ((key, c) ∷ rest) =
    let more = expire_transactions now rest in
    if ltb (30 * second) (now - c.at) then more else (key, c) ∷ more

-- Of a round over the peers: whoever has been silent for too long is disconnected.
unfoldable pub expire_peer : Reflector → ℕ → ℕ → Reflector
expire_peer r now id = elim (lookup id r.peers) [
  | none ↦ r
  | some p ↦
      if ltb r.engine.limits.session_timeout (now - p.last)
      then (let (r', end) = disconnect_peer r now id in
          elim end [ none ↦ r' | some e ↦ notify_end (control_overload now) r' now e ])
      else r
]

unfoldable pub expire_peers : Reflector → ℕ → List ℕ → Reflector
expire_peers r now [] = r
expire_peers r now (id ∷ ids) = expire_peers (expire_peer r now id) now ids

-- `Flags |= FlagRetry`.
unfoldable pub set_retry : ℕ → ℕ
set_retry flags = if has_retry flags then flags else flags + 2

-- When the attempt after this one is due: `delays[n.attempt-1]`, and at once after the last.
unfoldable pub next_attempt : ℕ → ℕ → ℕ
next_attempt now attempt =
    if attempt == 1
    then now + 500_000_000
    else if attempt == 2
    then now + second
    else if attempt == 3
    then now + 2 * second
    else now

unfoldable pub retry : Notification → ℕ → Notification
retry n now = record {
  packet = record n.packet {
    header = record n.packet.header { flags = set_retry n.packet.header.flags };
  };
  attempt = n.attempt + 1;
  next = next_attempt now (n.attempt + 1);
}

-- A round of tick over the pending notifications. Go visits no entry that is deleted before its
-- turn; one that is added meanwhile need not be visited.
unfoldable pub retry_pending : Reflector → ℕ → NotificationKey → Reflector
retry_pending r now key = elim (lookup key r.pending) [
  | none ↦ r
  | some n ↦
      let silent = λ (q : Peer). record q { receiving = false } in
      if ltb now n.next
      then r
      else if leb 4 n.attempt
      then record r {
        pending = delete key r.pending;
        peers =
            if key.typ == PacketType.stream_start
            then update_peer key.listener silent r.peers
            else r.peers;
      }
      else let again = retry n now in
        let r' = record r { pending = insert key again r.pending } in
        elim (lookup key.listener r'.peers) [
          | none ↦ r'
          | some p ↦ (send_control (control_overload now) r' p.address again.packet).0
        ]
]

unfoldable pub retry_all : Reflector → ℕ → List NotificationKey → Reflector
retry_all r now [] = r
retry_all r now (key ∷ rest) = retry_all (retry_pending r now key) now rest

-- The part of tick that releases the floor.
unfoldable pub tick_engine : Reflector → ℕ → Reflector
tick_engine r now =
    let (engine, end) = tick r.engine now in
    let r' = record r { engine = engine } in
    elim end [ none ↦ r' | some e ↦ notify_end (control_overload now) r' now e ]

unfoldable pub tick_reflector : Reflector → ℕ → Reflector
tick_reflector r now =
    let expired = record r {
      challenges = expire_challenges now r.challenges;
      transactions = expire_transactions now r.transactions;
    } in
    let present = expire_peers expired now (keys expired.peers) in
    let released = tick_engine present now in retry_all released now (keys released.pending)
