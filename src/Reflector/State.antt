-- ===== src/Reflector/State.antt =====
-- pkg/server/reflector.go, the types. Addresses are their strings; a time.Time is a number of
-- nanoseconds. The metric and event sinks are left out: nothing comes back from them.
use opusref.Base.{
  ℕ, ◌+◌, List, [], ◌∷◌, Bool, ◌==◌, ◌&&◌, ◌≡◌, ◌↔◌, Option, none, some, lookup, insert, ℕ-Key, Key,
  bytes_equal, bytes_equal_iff, arith, ℤ, true, false, if◌then◌else◌,
}
use opusref.Wire.Types.{Packet}
use opusref.Engine.Types.{Limits, Engine}
use opusref.Transport.{Udp}

-- `Random`, `Clock` and the sinks are apart: the bytes that the reader has yet to give are in the
-- state below, and each call takes the reading of the clock that it makes.
pub record ReflectorOptions : Type 0 where
  pub id : List ℕ
  pub display_name : List ℕ
  pub shared_key : List ℕ
  pub limits : Limits
  pub inbound_queue_packets : ℤ
  pub outbound_control_queue_packets : ℤ
  pub outbound_media_queue_frames : ℤ
  pub max_pending_challenges : ℤ
  pub max_pending_notifications : ℤ
  pub max_pending_notifications_per_client : ℤ
  pub max_completed_transactions_per_session : ℤ
  pub max_datagram_bytes : ℤ
  pub shutdown_grace : ℤ

pub record Challenge : Type 0 where
  pub node : List ℕ
  pub client : List ℕ
  pub server : List ℕ
  pub at : ℕ

pub record Peer : Type 0 where
  pub id : ℕ
  pub address : List ℕ
  pub node : List ℕ
  pub ready : Bool
  pub notified : Bool
  pub receiving : Bool
  pub connected : ℕ
  pub last : ℕ

pub record Completed : Type 0 where
  pub fingerprint : List ℕ
  pub response : List ℕ
  pub address : List ℕ
  pub at : ℕ

-- The string that transactionKey makes: it starts with the session, or with the address where the
-- session is 0. `address` is [] in the first case.
pub record CompletedKey : Type 0 where
  pub session_id : ℕ
  pub address : List ℕ
  pub typ : ℕ
  pub tx : ℕ

abbrev pub completed_key_equal : CompletedKey → CompletedKey → Bool
completed_key_equal a b =
    a.session_id == b.session_id
    && bytes_equal a.address b.address
    && a.typ == b.typ
    && a.tx == b.tx

pub completed_key_equal_iff : (a b : CompletedKey) → (completed_key_equal a b ≡ true) ↔ (a ≡ b)
completed_key_equal_iff a b = ground (arith, bytes_equal_iff a.address b.address)

instance abbrev pub CompletedKey-Key : Key CompletedKey
CompletedKey-Key = record { same = completed_key_equal; same_iff = completed_key_equal_iff }

pub record NotificationKey : Type 0 where
  pub listener : ℕ
  pub typ : ℕ
  pub tx : ℕ

abbrev pub notification_key_equal : NotificationKey → NotificationKey → Bool
notification_key_equal a b = a.listener == b.listener && a.typ == b.typ && a.tx == b.tx

pub notification_key_equal_iff :
    (a b : NotificationKey) → (notification_key_equal a b ≡ true) ↔ (a ≡ b)
notification_key_equal_iff a b = ground arith

instance abbrev pub NotificationKey-Key : Key NotificationKey
NotificationKey-Key = record {
  same = notification_key_equal;
  same_iff = notification_key_equal_iff;
}

pub record Notification : Type 0 where
  pub packet : Packet
  pub attempt : ℕ
  pub next : ℕ

-- The Reflector. `random` is what the reader of random bytes has yet to give; it fails where that
-- is too short.
pub record Reflector : Type 0 where
  pub options : ReflectorOptions
  pub engine : Engine
  pub transport : Udp
  pub challenges : List (List ℕ × Challenge)
  pub peers : List (ℕ × Peer)
  pub transactions : List (CompletedKey × Completed)
  pub pending : List (NotificationKey × Notification)
  pub random : List ℕ

-- What the reflector uses of other code: strings.ToUpper on strings that are not ASCII, and
-- HMAC-SHA-256 of a key and a message.
pub record Library : Type 0 where
  pub unicode_upper : List ℕ → List ℕ
  pub hmac_sha256 : List ℕ → List ℕ → List ℕ

-- A change to the peer behind a pointer that the map still holds.
unfoldable pub update_peer : ℕ → (Peer → Peer) → List (ℕ × Peer) → List (ℕ × Peer)
update_peer id change peers = elim (lookup id peers) [
  | none ↦ peers
  | some p ↦ insert id (change p) peers
]

-- The keys of a map, in the order in which `range` visits them.
unfoldable pub keys {ℓ κ} : {K : Type κ} {V : Type ℓ} → List (K × V) → List K
keys [] = []
keys ((k, v) ∷ rest) = k ∷ keys rest

-- The first peer with this address.
unfoldable pub peer_at : List ℕ → List (ℕ × Peer) → Option ℕ
peer_at address [] = none
peer_at address ((id, p) ∷ rest) =
    if bytes_equal p.address address then some id else peer_at address rest

-- The loops that delete the pending notifications of a listener, and those of a packet type.
unfoldable pub drop_listener :
    ℕ → List (NotificationKey × Notification) → List (NotificationKey × Notification)
drop_listener id [] = []
drop_listener id ((k, n) ∷ rest) =
    let more = drop_listener id rest in if k.listener == id then more else (k, n) ∷ more

unfoldable pub drop_type :
    ℕ → List (NotificationKey × Notification) → List (NotificationKey × Notification)
drop_type typ [] = []
drop_type typ ((k, n) ∷ rest) =
    let more = drop_type typ rest in if k.typ == typ then more else (k, n) ∷ more

-- How many notifications a listener has pending.
unfoldable pub count_listener : ℕ → List (NotificationKey × Notification) → ℕ
count_listener id [] = 0
count_listener id ((k, n) ∷ rest) =
    let more = count_listener id rest in if k.listener == id then more + 1 else more

-- How many completed transactions a session has.
unfoldable pub count_session : ℕ → List (CompletedKey × Completed) → ℕ
count_session id [] = 0
count_session id ((k, c) ∷ rest) =
    let more = count_session id rest in if k.session_id == id then more + 1 else more

-- Whether a pending notification has this transaction ID.
unfoldable pub has_tx : ℕ → List (NotificationKey × Notification) → Bool
has_tx tx [] = false
has_tx tx ((k, n) ∷ rest) = if k.tx == tx then true else has_tx tx rest
