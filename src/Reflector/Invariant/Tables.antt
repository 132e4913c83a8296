-- ===== src/Reflector/Invariant/Tables.antt =====
-- pkg/server/reflector.go: what holds of the reflector's tables, and what keeps it.
use opusref.Base.{
  ℕ, sym, ◌∙◌, ◌≤◌, ◌≡◌, refl, List, [], ◌∷◌, Bool, true, false, ◌==◌, if◌then◌else◌, length,
  Option, none, some, lookup, delete, lookup-insert, lookup-delete, length-append, capacity, ℕ-Key,
  arith, Option-cases, inl, inr,
}
use opusref.Engine.Types.{Session, Engine}
use opusref.Engine.Release.{release_locked}
use opusref.Engine.Release as EngineRelease
use opusref.Engine.Invariant.{Inv, disconnect-Inv}
use opusref.Transport.{Datagram, Udp, enqueue_control}
use opusref.Reflector.State.{
  Peer, NotificationKey, NotificationKey-Key, Notification, Reflector, update_peer, drop_listener,
  drop_type,
}
use opusref.Reflector.Notify.{disconnect_peer, transaction_id}

-- A session of the engine is a peer, with its address, its callsign and its readiness; a peer is
-- kept under its own ID.
abbrev pub Peered : ℕ → Option Session → Option Peer → Type 0
Peered id none none = Unit {0}
Peered id none (some p) = p.id ≡ id
Peered id (some s) none = ⊥
Peered id (some s) (some p) =
    (p.id ≡ id) × (s.address ≡ p.address) × (s.callsign ≡ p.node) × (s.ready ≡ p.ready)

-- What is known of the ID, the address and the callsign of a peer.
abbrev pub Known : Type 1
Known = ℕ → List ℕ → List ℕ → Type 0

-- Of a reflector, with the options, the limits and the completed transactions of `base`.
pub record TablesInv (K : Known) (base : Reflector) (r : Reflector) : Type 0 where
  pub options : r.options ≡ base.options
  pub limits : r.engine.limits ≡ base.engine.limits
  pub challenges_bound : length r.challenges ≤ capacity r.options.max_pending_challenges
  pub transactions : r.transactions ≡ base.transactions
  pub engine : Inv r.engine
  pub pending_bound : length r.pending ≤ capacity r.options.max_pending_notifications
  pub control_bound : length r.transport.control ≤ r.transport.control_capacity
  pub peered : (id : ℕ) → Peered id (lookup id r.engine.sessions) (lookup id r.peers)
  pub known : (id : ℕ) (p : Peer) → lookup id r.peers ≡ some p → K id p.address p.node

-- A change to a peer that leaves alone what the engine knows of it.
abbrev pub IsMild : (Peer → Peer) → Type 0
IsMild change =
    (p : Peer)
    → ((change p).id ≡ p.id)
      × ((change p).address ≡ p.address)
      × ((change p).node ≡ p.node)
      × ((change p).ready ≡ p.ready)

-- The peer after a change, where it is this one.
abbrev pub changed : Bool → (Peer → Peer) → Option Peer → Option Peer
changed true change (some p) = some (change p)
changed false change (some p) = some p
changed b change none = none

pub lookup-update_peer :
    (id j : ℕ) (change : Peer → Peer) (peers : List (ℕ × Peer))
    → lookup j (update_peer id change peers) ≡ changed (id == j) change (lookup j peers)
unfolding update_peer
lookup-update_peer id j change peers = elim (Option-cases (lookup id peers)) [
  | inl e ↦ ground (arith, e)
  | inr (p, e) ↦ ground (arith, e, lookup-insert id j (change p) peers)
]

Peered-changed :
    (id : ℕ) (s : Option Session) (o : Option Peer) (b : Bool) (change : Peer → Peer)
    → IsMild change
    → Peered id s o
    → Peered id s (changed b change o)
Peered-changed id none none b change mild h = tt
Peered-changed id (some s) none b change mild h = h
Peered-changed id none (some p) true change mild h = ground (arith, mild p)
Peered-changed id none (some p) false change mild h = h
Peered-changed id (some s) (some p) true change mild h = ground (arith, mild p)
Peered-changed id (some s) (some p) false change mild h = h

pub Peered-update_peer :
    (id j : ℕ) (change : Peer → Peer) (peers : List (ℕ × Peer)) (s : Option Session)
    → IsMild change
    → Peered j s (lookup j peers)
    → Peered j s (lookup j (update_peer id change peers))
Peered-update_peer id j change peers s mild h =
    rw (lookup-update_peer id j change peers) (Peered-changed j s _ (id == j) change mild h)

pub Peered-delete :
    (id j : ℕ) (sessions : List (ℕ × Session)) (peers : List (ℕ × Peer))
    → Peered j (lookup j sessions) (lookup j peers)
    → Peered j (lookup j (delete id sessions)) (lookup j (delete id peers))
Peered-delete id j sessions peers h =
    rw (lookup-delete id j sessions, lookup-delete id j peers) (go (id == j))
  where
    go :
        (b : Bool)
        → Peered j (if b then none else lookup j sessions) (if b then none else lookup j peers)
    go true = tt
    go false = h

pub length-drop_listener-le :
    (id : ℕ) (pending : List (NotificationKey × Notification))
    → length (drop_listener id pending) ≤ length pending
unfolding drop_listener
length-drop_listener-le id [] = omega arith
length-drop_listener-le id ((k, n) ∷ rest) = ground (arith, length-drop_listener-le id rest)

pub length-drop_type-le :
    (typ : ℕ) (pending : List (NotificationKey × Notification))
    → length (drop_type typ pending) ≤ length pending
unfolding drop_type
length-drop_type-le typ [] = omega arith
length-drop_type-le typ ((k, n) ∷ rest) = ground (arith, length-drop_type-le typ rest)

pub sessions-disconnect :
    (e : Engine) (now id : ℕ)
    → ((EngineRelease.disconnect e now id).0.sessions ≡ delete id e.sessions)
      × ((EngineRelease.disconnect e now id).0.limits ≡ e.limits)
unfolding EngineRelease.disconnect release_locked
sessions-disconnect e now id = ground arith

pub known-update_peer :
    (K : Known) (id : ℕ) (change : Peer → Peer) (peers : List (ℕ × Peer))
    → ((p : Peer) → ((change p).address ≡ p.address) × ((change p).node ≡ p.node))
    → ((j : ℕ) (p : Peer) → lookup j peers ≡ some p → K j p.address p.node)
    → (j : ℕ) (p : Peer) → lookup j (update_peer id change peers) ≡ some p
    → K j p.address p.node
known-update_peer K id change peers mild h j p e =
    go (id == j) (lookup j peers) (h j) (sym (lookup-update_peer id j change peers) ∙ e)
  where
    go :
        (b : Bool) (o : Option Peer)
        → ((q : Peer) → o ≡ some q → K j q.address q.node)
        → changed b change o ≡ some p
        → K j p.address p.node
    go b none h e = cc e
    go true (some q) h e = ground (arith, mild q, h q refl, e)
    go false (some q) h e = h p e

module _ {K : Known} (base : Reflector) where
  -- A change to the tables of notifications, to peers that the engine does not see, and to the
  -- random bytes.
  pub TablesInv-peers :
      (r : Reflector) (id : ℕ) (change : Peer → Peer)
      → IsMild change
      → TablesInv K base r
      → TablesInv K base (record r { peers = update_peer id change r.peers })
  TablesInv-peers r id change mild v = record {
    options = v.options;
    limits = v.limits;
    challenges_bound = v.challenges_bound;
    transactions = v.transactions;
    engine = v.engine;
    pending_bound = v.pending_bound;
    control_bound = v.control_bound;
    peered = λ j. Peered-update_peer id j change r.peers _ mild (v.peered j);
    known = known-update_peer K id change r.peers (λ p. ((mild p).1, (mild p).2)) v.known;
  }

  pub TablesInv-pending :
      (r : Reflector) (pending : List (NotificationKey × Notification))
      → length pending ≤ capacity r.options.max_pending_notifications
      → TablesInv K base r
      → TablesInv K base (record r { pending = pending })
  TablesInv-pending r pending bound v = record {
    options = v.options;
    limits = v.limits;
    challenges_bound = v.challenges_bound;
    transactions = v.transactions;
    engine = v.engine;
    pending_bound = bound;
    control_bound = v.control_bound;
    peered = v.peered;
    known = v.known;
  }

  pub disconnect_peer-TablesInv :
      (now : ℕ) (r : Reflector) (id : ℕ)
      → TablesInv K base r
      → TablesInv K base (disconnect_peer r now id).0
  unfolding disconnect_peer
  disconnect_peer-TablesInv now r id v = elim (Option-cases (lookup id r.peers)) [
    | inl e ↦ rw (disconnect_peer, e) v
    | inr (p, e) ↦ rw (disconnect_peer, e) deleted
  ]
    where
      deleted : TablesInv K base (record r {
        engine = (EngineRelease.disconnect r.engine now id).0;
        peers = delete id r.peers;
      })
      deleted = record {
        options = v.options;
        limits = rw ((sessions-disconnect r.engine now id).1) v.limits;
        challenges_bound = v.challenges_bound;
        transactions = v.transactions;
        engine = disconnect-Inv r.engine now v.engine id;
        pending_bound = v.pending_bound;
        control_bound = v.control_bound;
        peered = λ j.
            rw ((sessions-disconnect r.engine now id).0)
              (Peered-delete id j r.engine.sessions r.peers (v.peered j));
        known = λ j p e. v.known j p (ground (arith, e, lookup-delete id j r.peers));
      }

  pub TablesInv-transport :
      (r : Reflector) (u : Udp)
      → length u.control ≤ u.control_capacity
      → TablesInv K base r
      → TablesInv K base (record r { transport = u })
  TablesInv-transport r u bound v = record {
    options = v.options;
    limits = v.limits;
    challenges_bound = v.challenges_bound;
    transactions = v.transactions;
    engine = v.engine;
    pending_bound = v.pending_bound;
    control_bound = bound;
    peered = v.peered;
    known = v.known;
  }

  pub TablesInv-enqueue_control :
      (r : Reflector) (d : Datagram)
      → TablesInv K base r
      → TablesInv K base (record r { transport = (enqueue_control r.transport d).0 })
  unfolding enqueue_control
  TablesInv-enqueue_control r d v =
      TablesInv-transport r _
        (ground (arith, v.control_bound, length-append r.transport.control (d ∷ []))) v

  pub transaction_id-TablesInv :
      (r : Reflector) → TablesInv K base r → TablesInv K base (transaction_id r).0
  unfolding transaction_id
  transaction_id-TablesInv r v = record {
    options = v.options;
    limits = v.limits;
    challenges_bound = v.challenges_bound;
    transactions = v.transactions;
    engine = v.engine;
    pending_bound = v.pending_bound;
    control_bound = v.control_bound;
    peered = v.peered;
    known = v.known;
  }
