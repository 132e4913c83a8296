-- ===== src/Reflector/Dropped.antt =====
-- pkg/server/reflector.go: the packets that handle drops without a trace.
use opusref.Base.{
  ◌≢◌, subst, ◌⊎◌, ℕ, ◌<◌, ◌≡◌, refl, List, true, false, ◌||◌, ◌==◌, bytes_equal, capacity,
  if◌then◌else◌, length, Option, none, some, ok, err, lookup, ℕ-Key, arith, be64, inl, inr,
}
use opusref.Wire.Types.{Packet, Error}
use opusref.Wire.PacketType
use opusref.Wire.TlvType
use opusref.Wire.Codec.{decode}
use opusref.Wire.Helpers.{find}
use opusref.Wire.Rules.{ready, connected, pre_admission}
use opusref.Engine.Types.{Session, EngineError}
use opusref.Engine.Ops as EngineOps
use opusref.Reflector.State.{Peer, NotificationKey-Key, Notification, Reflector, Library}
use opusref.Reflector.Invariant.Tables.{Peered}
use opusref.Reflector.Invariant.Replies.{RunInv}
use opusref.Reflector.Runs.{AnyPeer}
use opusref.Reflector.Control.{acknowledges, ack, media}
use opusref.Reflector.Handle.{is_valid, dispatch, refresh, handle_admitted, handle_packet, handle}

-- Why a packet that is no HELLO, AUTHENTICATE or DISCONNECT is dropped. The first four are what
-- handle looks at, the others what the state machines of notifications and of the floor do.
pub data Unwanted (r : Reflector) (now : ℕ) (address : List ℕ) (p : Packet) : Type 0 where
  unknown_session : lookup p.header.session_id r.peers ≡ none → Unwanted r now address p
  other_address :
      (q : Peer)
      → lookup p.header.session_id r.peers ≡ some q
      → bytes_equal q.address address ≡ false
      → Unwanted r now address p
  invalid_packet :
      (q : Peer)
      → lookup p.header.session_id r.peers ≡ some q
      → is_valid p (if q.ready then ready else connected) ≡ false
      → Unwanted r now address p
  unknown_notification :
      (q : Peer) (raw : List ℕ)
      → lookup p.header.session_id r.peers ≡ some q
      → (p.header.typ == PacketType.stream_start || p.header.typ == PacketType.stream_revoke) ≡ true
      → find p TlvType.transaction_id ≡ some raw
      → lookup (record { listener = q.id; typ = p.header.typ; tx = be64 raw }) r.pending ≡ none
      → Unwanted r now address p
  other_notification :
      (q : Peer) (raw : List ℕ) (n : Notification)
      → lookup p.header.session_id r.peers ≡ some q
      → (p.header.typ == PacketType.stream_start || p.header.typ == PacketType.stream_revoke) ≡ true
      → find p TlvType.transaction_id ≡ some raw
      → lookup (record { listener = q.id; typ = p.header.typ; tx = be64 raw }) r.pending ≡ some n
      → (p.header.stream_id ≢ n.packet.header.stream_id)
        ⊎ (p.header.sequence ≢ n.packet.header.sequence)
        ⊎ (p.header.timestamp ≢ n.packet.header.timestamp)
      → Unwanted r now address p
  refused_media :
      (q : Peer) (e : EngineError)
      → lookup p.header.session_id r.peers ≡ some q
      → (p.header.typ == PacketType.audio || p.header.typ == PacketType.media_data) ≡ true
      → (EngineOps.media r.engine now q.id q.address p.header.stream_id p.header.sequence
          p.header.timestamp p.payload).1
        ≡ err e
      → Unwanted r now address p

-- The datagrams that handle drops before it looks at the state.
pub data Unreadable (r : Reflector) (datagram : List ℕ) : Type 0 where
  too_long : capacity r.options.max_datagram_bytes < length datagram → Unreadable r datagram
  malformed : (e : Error) → decode datagram ≡ err e → Unreadable r datagram
  invalid_handshake :
      (p : Packet)
      → decode datagram ≡ ok p
      → (p.header.typ == PacketType.hello || p.header.typ == PacketType.authenticate) ≡ true
      → is_valid p pre_admission ≡ false
      → Unreadable r datagram

handle_admitted-refused :
    (lib : Library) (r : Reflector) (now : ℕ) (address : List ℕ) (p : Packet) (raw : List ℕ)
    (q : Peer)
    → lookup p.header.session_id r.peers ≡ some q
    → dispatch lib r now address q.id p raw ≡ (r, false)
    → handle_admitted lib r now address p raw ≡ r
unfolding handle_admitted refresh
handle_admitted-refused lib r now address p raw q e k = ground (arith, e, still)
  where
    still : refresh (dispatch lib r now address q.id p raw) now address q.id ≡ r
    still = rw k refl

-- A peer stands under its own ID.
id-Peered : (id : ℕ) (s : Option Session) (q : Peer) → Peered id s (some q) → q.id ≡ id
id-Peered id none q h = h
id-Peered id (some s) q h = h.0

handle_admitted-Unwanted :
    (lib : Library) (r : Reflector) (now : ℕ) (address : List ℕ) (p : Packet) (raw : List ℕ)
    → RunInv AnyPeer r
    → Unwanted r now address p
    → handle_admitted lib r now address p raw ≡ r
unfolding handle_admitted dispatch ack media acknowledges
handle_admitted-Unwanted lib r now address p raw v (unknown_session e) = ground (arith, e)
handle_admitted-Unwanted lib r now address p raw v (other_address q e k) = ground (arith, e, k)
handle_admitted-Unwanted lib r now address p raw v (invalid_packet q e k) = ground (arith, e, k)
handle_admitted-Unwanted lib r now address p raw v (unknown_notification q tx e typ found gone) =
    handle_admitted-refused lib r now address p raw q e (ground (arith, typ, found, gone))
handle_admitted-Unwanted lib r now address p raw v (other_notification q tx n e typ found there k) =
    handle_admitted-refused lib r now address p raw q e (ground (arith, typ, found, there, k))
handle_admitted-Unwanted lib r now address p raw v (refused_media q e k typ refused) =
    let id =
      id-Peered p.header.session_id _ q
        (subst (Peered p.header.session_id _) k (v.tables.peered p.header.session_id)) in
    handle_admitted-refused lib r now address p raw q k (ground (arith, k, typ, refused, id))

-- A datagram that handle cannot read, and a packet of no handshake and no DISCONNECT that is of an
-- unknown session, comes from another address than its session's, is invalid in the session's phase,
-- acknowledges no pending notification, or not with its stream, sequence and timestamp, or is media
-- that the floor engine refuses: it leaves the whole reflector as it is. Nothing is sent, and the
-- session's activity is not refreshed.
pub handle-Unwanted :
    (lib : Library) (r : Reflector) (now : ℕ) (address datagram : List ℕ)
    → RunInv AnyPeer r
    → Unreadable r datagram
      ⊎ ((p : Packet) × (decode datagram ≡ ok p)
          × ((p.header.typ == PacketType.hello
                || p.header.typ == PacketType.authenticate
                || p.header.typ == PacketType.disconnect)
              ≡ false)
          × Unwanted r now address p)
    → handle lib r now address datagram ≡ r
unfolding handle handle_packet
handle-Unwanted lib r now address datagram v (inl (too_long h)) = ground (arith, h)
handle-Unwanted lib r now address datagram v (inl (malformed e h)) = ground (arith, h)
handle-Unwanted lib r now address datagram v (inl (invalid_handshake p h typ k)) =
    ground (arith, h, typ, k)
handle-Unwanted lib r now address datagram v (inr (p, h, typ, unwanted)) =
    ground (arith, h, typ, handle_admitted-Unwanted lib r now address p datagram v unwanted)
