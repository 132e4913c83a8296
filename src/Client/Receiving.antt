-- ===== src/Client/Receiving.antt =====
-- pkg/client/udp.go: the receiving side of the UDP client: the inbound queue, the requests that wait
-- for an answer, and the stream of another client, with those that have ended. The order in which
-- map entries stand does not matter here. A map[PacketType]bool is the list of its true keys.
use opusref.Base.{
  ℕ, zero, suc, ◌+◌, ◌%◌, List, [], ◌∷◌, ◌++◌, Bool, true, false, ◌&&◌, ◌||◌, ◌==◌, ltb,
  if◌then◌else◌, length, take, be16, Option, none, some, Key, ◌≡◌, ◌↔◌, arith, u64_mod,
}
use opusref.Wire.Types.{Packet, version1, flag_response}
use opusref.Wire.TlvType
use opusref.Wire.Helpers.{find}
use opusref.Client.Types.{EventKind, event_protocol_error, Event, Client}

pub record RequestKey : Type 0 where
  pub tx : ℕ
  pub stream : ℕ

abbrev pub request_key_equal : RequestKey → RequestKey → Bool
request_key_equal a b = a.tx == b.tx && a.stream == b.stream

pub request_key_equal_iff : (a b : RequestKey) → (request_key_equal a b ≡ true) ↔ (a ≡ b)
request_key_equal_iff a b = ground arith

instance abbrev pub RequestKey-Key : Key RequestKey
RequestKey-Key = record { same = request_key_equal; same_iff = request_key_equal_iff }

-- The channel `responses` holds one packet.
pub record PendingRequest : Type 0 where
  pub responses : List Packet
  pub types : List ℕ

pub record RemoteStream : Type 0 where
  pub owner : ℕ
  pub stream : ℕ
  pub last_media : ℕ

pub record RemoteKey : Type 0 where
  pub owner : ℕ
  pub stream : ℕ

-- The udpSender, as far as it receives; `retired` is the array of eight, `gone` that processLoop has
-- returned.
pub record Receiver : Type 0 where
  pub owner : Client
  pub session : ℕ
  pub pending : List (RequestKey × PendingRequest)
  pub inbound : List (List ℕ)
  pub inbound_capacity : ℕ
  pub inbound_drops : ℕ
  pub remote : RemoteStream
  pub retired : List RemoteKey
  pub retired_count : ℕ
  pub retired_next : ℕ
  pub gone : Bool
  pub control_tokens : ℕ
  pub control_capacity : ℕ

abbrev pub no_stream : RemoteStream
no_stream = record { owner = 0; stream = 0; last_media = 0 }

-- enqueueInbound.
unfoldable pub enqueue_inbound : Receiver → List ℕ → Receiver
enqueue_inbound s bytes =
    if ltb (length s.inbound) s.inbound_capacity
    then record s { inbound = s.inbound ++ (bytes ∷ []) }
    else record s { inbound_drops = (s.inbound_drops + 1) % u64_mod }

abbrev pub remote_key_equal : RemoteKey → RemoteKey → Bool
remote_key_equal a b = a.owner == b.owner && a.stream == b.stream

-- Whether a key stands in a list of them.
unfoldable pub stands_in : RemoteKey → List RemoteKey → Bool
stands_in key [] = false
stands_in key (other ∷ rest) = if remote_key_equal other key then true else stands_in key rest

-- isRetiredLocked: its loop looks at the first retiredCount entries.
unfoldable pub is_retired : Receiver → RemoteKey → Bool
is_retired s key = stands_in key (take s.retired_count s.retired)

-- An assignment to an entry of an array.
unfoldable pub set_at : ℕ → RemoteKey → List RemoteKey → List RemoteKey
set_at i key [] = []
set_at zero key (other ∷ rest) = key ∷ rest
set_at (suc i) key (other ∷ rest) = other ∷ set_at i key rest

-- retireLocked.
unfoldable pub retire : Receiver → RemoteKey → Receiver
retire s key =
    if key.stream == 0 || is_retired s key
    then s
    else if ltb s.retired_count (length s.retired)
    then record s {
      retired = set_at s.retired_count key s.retired;
      retired_count = s.retired_count + 1;
    }
    else record s {
      retired = set_at s.retired_next key s.retired;
      retired_next = (s.retired_next + 1) % length s.retired;
    }

abbrev pub is_remote : Receiver → RemoteKey → Bool
is_remote s key = s.remote.owner == key.owner && s.remote.stream == key.stream

-- The packet that `ack` writes; its own error is dropped.
unfoldable pub ack_packet : Receiver → Packet → Option Packet
ack_packet s p = elim (find p TlvType.transaction_id) [
  | none ↦ none
  | some tx ↦ some (record {
    header = record p.header {
      version = version1;
      flags = flag_response;
      header_length = 0;
      payload_length = 0;
      session_id = s.session;
    };
    extensions = record { typ = TlvType.transaction_id; value = tx } ∷ [];
    payload = [];
  })
]

-- The event of a packet, before the switch.
abbrev pub event_of : EventKind → Packet → Event
event_of kind p = record {
  kind = kind;
  session_id = p.header.session_id;
  stream_id = p.header.stream_id;
  sequence = p.header.sequence;
  timestamp = p.header.timestamp;
  data_type = 0;
  node_callsign = [];
  source_callsign = [];
  payload = p.payload;
  protocol_error_code = 0;
  message = [];
}

abbrev pub found_or_empty : Option (List ℕ) → List ℕ
found_or_empty none = []
found_or_empty (some value) = value

-- protocolErrorEvent.
unfoldable pub protocol_error_event : Packet → Event
protocol_error_event p =
    let code = found_or_empty (find p TlvType.error_code) in
    record (event_of event_protocol_error p) {
      payload = [];
      protocol_error_code = if length code == 2 then be16 code else 0;
      message = found_or_empty (find p TlvType.error_text);
    }

-- What a packet makes the receiver do: the state it leaves, what it writes, and what it publishes.
pub record Received : Type 0 where
  pub receiver : Receiver
  pub written : Option Packet
  pub published : Option Event

abbrev pub quiet : Receiver → Received
quiet s = record { receiver = s; written = none; published = none }
