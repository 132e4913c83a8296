-- ===== src/Reflector/Runs.antt =====
-- pkg/server/reflector.go: the rounds of Run and of drain, in any order, with what the goroutine that
-- writes to the socket takes from the queues in between.
use opusref.Base.{
  ℕ, ◌≤◌, ◌≡◌, refl, List, [], ◌∷◌, length, some, ok, arith, IsBytes, All, lookup, ℕ-Key,
}
use opusref.Engine.Types.{Session}
use opusref.Engine.Ops.{new_engine}
use opusref.Engine.Invariant.{new_engine-Inv}
use opusref.Transport.{new_udp, Udp, take_control, take_media}
use opusref.Reflector.State.{Challenge, Peer, Reflector, Library, ReflectorOptions}
use opusref.Reflector.Options.{new_reflector}
use opusref.Reflector.Ticker.{tick_reflector}
use opusref.Reflector.Handle.{handle, handle_drain, drain_begin, drain_peers, drain_finish}
use opusref.Reflector.Invariant.Tables.{Known, TablesInv-transport, Peered}
use opusref.Reflector.Invariant.Replies.{RunInv, RunInv-carry}
use opusref.Reflector.Invariant.Requests.{Answers}
use opusref.Reflector.Answers.{sorted}
use opusref.Wire.Types.{Packet}
use opusref.Wire.PacketType
use opusref.Wire.Codec.{decode}
use opusref.Reflector.Invariant.Handled.{handle-RunInv, handle_drain-RunInv}
use opusref.Reflector.Invariant.Ticked.{
  tick_reflector-RunInv, drain_begin-RunInv, drain_peers-RunInv, drain_finish-RunInv,
}

-- What happens to the reflector, with the clock's reading. The steps of the transport's Write change
-- it only by what they take from a queue. `tells` and `finishes` are the loops of
-- drain over the peers, in the order in which it meets their IDs.
pub data Round : Type 0 where
  handles handles_draining : (address datagram : List ℕ) → Round
  ticks begins_drain takes_control takes_media : Round
  tells finishes : List ℕ → Round

unfoldable pub round : Library → Reflector → ℕ × Round → Reflector
round lib r (now, handles address datagram) = handle lib r now address datagram
round lib r (now, handles_draining address datagram) = handle_drain lib r now address datagram
round lib r (now, ticks) = tick_reflector r now
round lib r (now, begins_drain) = drain_begin r now
round lib r (now, takes_control) = record r { transport = (take_control r.transport).0 }
round lib r (now, takes_media) = record r { transport = (take_media r.transport).0 }
round lib r (now, tells ids) = drain_peers r now ids
round lib r (now, finishes ids) = drain_finish r now ids

unfoldable pub run : Library → Reflector → List (ℕ × Round) → Reflector
run lib r [] = r
run lib r (e ∷ es) = run lib (round lib r e) es

-- A datagram consists of bytes.
abbrev pub RoundFits : ℕ × Round → Type 0
RoundFits (now, handles address datagram) = IsBytes datagram
RoundFits (now, handles_draining address datagram) = IsBytes datagram
RoundFits (now, _) = Unit

take_control_room :
    (u : Udp)
    → length u.control ≤ u.control_capacity
    → length (take_control u).0.control ≤ (take_control u).0.control_capacity
unfolding take_control
take_control_room u h = ground (arith, h)

take_media_room :
    (u : Udp)
    → length u.control ≤ u.control_capacity
    → length (take_media u).0.control ≤ (take_media u).0.control_capacity
unfolding take_media
take_media_room u h = ground (arith, h)

-- Where the round is a datagram that Run handles, with an AUTHENTICATE packet: that it proves what
-- it must, and for which challenge.
pub record Authenticates (lib : Library) (r : Reflector) (e : ℕ × Round) (address node : List ℕ)
    : Type 0 where
  pub datagram : List ℕ
  pub packet : Packet
  pub challenge : Challenge
  pub handled : e.1 ≡ handles address datagram
  pub decoded : decode datagram ≡ ok packet
  pub typ : packet.header.typ ≡ PacketType.authenticate
  pub answers : Answers lib r e.0 address (sorted packet) challenge
  pub names : challenge.node ≡ node

round-RunInv :
    {K : Known} (lib : Library) (r : Reflector) (e : ℕ × Round)
    → RoundFits e
    → ((id : ℕ) (address node : List ℕ) → Authenticates lib r e address node → K id address node)
    → RunInv K r
    → RunInv K (round lib r e)
unfolding round
round-RunInv lib r (now, handles address datagram) fits knows h =
    handle-RunInv lib now r address datagram fits
      (λ p id c decoded typ answers. knows id address c.node (record {
        datagram = datagram;
        packet = p;
        challenge = c;
        handled = refl;
        decoded = decoded;
        typ = typ;
        answers = answers;
        names = refl;
      }))
      h
round-RunInv lib r (now, handles_draining address datagram) fits knows h =
    handle_drain-RunInv lib now r address datagram h
round-RunInv lib r (now, ticks) fits knows h = tick_reflector-RunInv now r h
round-RunInv lib r (now, begins_drain) fits knows h = drain_begin-RunInv now r h
round-RunInv lib r (now, takes_control) fits knows h =
    RunInv-carry r _
      (TablesInv-transport r r _ (take_control_room r.transport h.tables.control_bound) h.tables) h
round-RunInv lib r (now, takes_media) fits knows h =
    RunInv-carry r _
      (TablesInv-transport r r _ (take_media_room r.transport h.tables.control_bound) h.tables) h
round-RunInv lib r (now, tells ids) fits knows h = drain_peers-RunInv now r h ids
round-RunInv lib r (now, finishes ids) fits knows h = drain_finish-RunInv now r h ids

-- Nothing, of any peer.
abbrev pub AnyPeer : Known
AnyPeer id address node = Unit {0}

new_reflector_empty :
    (lib : Library) (options : ReflectorOptions) (random : List ℕ) (r : Reflector)
    → new_reflector lib options random ≡ ok r
    → (r.challenges ≡ [])
      × (r.pending ≡ [])
      × (r.transactions ≡ [])
      × (r.peers ≡ [])
      × (r.engine ≡ new_engine r.options.limits)
      × (r.transport.control ≡ [])
unfolding new_reflector new_udp
new_reflector_empty lib options random r h = ground (arith, h)

Peered-empty :
    (j : ℕ) (sessions : List (ℕ × Session)) (peers : List (ℕ × Peer))
    → sessions ≡ []
    → peers ≡ []
    → Peered j (lookup j sessions) (lookup j peers)
unfolding lookup
Peered-empty j sessions peers e f = rw (e, f) tt

new_reflector-RunInv :
    (lib : Library) (options : ReflectorOptions) (random : List ℕ) (r : Reflector)
    → new_reflector lib options random ≡ ok r
    → RunInv AnyPeer r
unfolding new_engine
new_reflector-RunInv lib options random r h =
    let (challenges, pending, transactions, peers, engine, control) =
      new_reflector_empty lib options random r h in
    record {
      tables = record {
        options = refl;
        limits = refl;
        challenges_bound = ground (arith, challenges);
        transactions = refl;
        engine = rw engine (new_engine-Inv r.options.limits);
        pending_bound = ground (arith, pending);
        control_bound = ground (arith, control);
        peered = λ j. Peered-empty j r.engine.sessions r.peers (rw (engine, new_engine) refl) peers;
        known = λ j p e. tt;
      };
      transactions_bound = ground (arith, transactions);
    }

run_keeps :
    (es : List (ℕ × Round)) (lib : Library) (r : Reflector)
    → All RoundFits es
    → RunInv AnyPeer r
    → RunInv AnyPeer (run lib r es)
unfolding run
run_keeps [] lib r fits h = h
run_keeps (e ∷ es) lib r fits h =
    run_keeps es lib _ fits.1 (round-RunInv lib r e fits.0 (λ id address node _. tt) h)

-- A reflector that NewReflector has made, whatever datagrams of bytes come in, whatever the clock
-- reads, in whatever order its rounds come and whether it drains or not: it keeps its challenges,
-- pending notifications, completed transactions, control queue and sessions within their capacities,
-- its engine keeps its invariant, and every session has a peer of its ID with the same address,
-- callsign and readiness.
pub run-RunInv :
    (lib : Library) (options : ReflectorOptions) (random : List ℕ) (r : Reflector)
    (es : List (ℕ × Round))
    → new_reflector lib options random ≡ ok r
    → All RoundFits es
    → RunInv AnyPeer (run lib r es)
run-RunInv lib options random r es made fits =
    run_keeps es lib r fits (new_reflector-RunInv lib options random r made)

-- A peer as it is called: one that was there, or one that this round admits.
pub data Admitted (lib : Library) (r : Reflector) (e : ℕ × Round) (id : ℕ) (address node : List ℕ)
    : Type 0 where
  was_there :
      (p : Peer)
      → lookup id r.peers ≡ some p
      → p.address ≡ address
      → p.node ≡ node
      → Admitted lib r e id address node
  authenticated : Authenticates lib r e address node → Admitted lib r e id address node

-- For any round of a reflector whose tables hold what `RunInv` says, where what comes in consists of
-- bytes: whoever is a peer afterwards was one before, with the same address and callsign, or the round
-- handles an AUTHENTICATE from that address. It names a challenge that was made for that address
-- and callsign at most ten seconds ago, carries the nonces of both sides, and, where there is a shared
-- key, the HMAC tag over the callsign, the nonces and the reflector's ID.
pub round-Admitted :
    (lib : Library) (r : Reflector) (e : ℕ × Round) (id : ℕ) (p : Peer)
    → RoundFits e
    → RunInv AnyPeer r
    → lookup id (round lib r e).peers ≡ some p
    → Admitted lib r e id p.address p.node
round-Admitted lib r e id p fits h there =
    (round-RunInv lib r e fits (λ id address node a. authenticated a) known).tables.known id p there
  where
    known : RunInv (Admitted lib r e) r
    known = record {
      tables = record {
        options = refl;
        limits = refl;
        challenges_bound = h.tables.challenges_bound;
        transactions = refl;
        engine = h.tables.engine;
        pending_bound = h.tables.pending_bound;
        control_bound = h.tables.control_bound;
        peered = h.tables.peered;
        known = λ id p there. was_there p there refl refl;
      };
      transactions_bound = h.transactions_bound;
    }
