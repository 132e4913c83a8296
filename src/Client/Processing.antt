-- ===== src/Client/Processing.antt =====
-- pkg/client/udp.go: a round of processLoop, and the expiry of the stream that is received. `now` is
-- the reading of the clock in it. What it publishes goes to the QueueClient at its end.
use opusref.Base.{
  ℕ, ◌-◌, List, [], ◌∷◌, Bool, true, not, ◌&&◌, ◌||◌, ◌==◌, leb, if◌then◌else◌, length, be16, be64,
  Option, none, some, ok, err, lookup, insert, contains,
}
use opusref.Wire.Types.{Packet}
use opusref.Wire.PacketType
use opusref.Wire.TlvType
use opusref.Wire.Codec.{decode}
use opusref.Wire.Helpers.{find, trim_space}
use opusref.Wire.Rules.{server_to_client, ready}
use opusref.Wire.Validate.{validate}
use opusref.Client.Types.{event_stream_start, event_audio, event_data, event_stream_end, Event}
use opusref.Client.Queue.{publish_event}
use opusref.Client.Sending.{revoke}
use opusref.Client.Receiving.{
  RequestKey, RequestKey-Key, RemoteKey, Receiver, no_stream, is_retired, retire, is_remote,
  ack_packet, event_of, found_or_empty, protocol_error_event, Received, quiet,
}

abbrev pub key_of : Packet → RemoteKey
key_of p = record { owner = p.header.session_id; stream = p.header.stream_id }

-- AUDIO and DATA.
unfoldable pub receive_media : Receiver → ℕ → Packet → Event → Received
receive_media s now p event = if not (is_remote s (key_of p)) then quiet s else record {
  receiver = record s { remote = record s.remote { last_media = now } };
  written = none;
  published = some event;
}

abbrev pub audio_event : Packet → Event
audio_event p = event_of event_audio p

abbrev pub data_event : Packet → Event
data_event p = record (event_of event_data p) {
  data_type = be16 (found_or_empty (find p TlvType.data_type));
}

abbrev pub start_event : Packet → Event
start_event p = record (event_of event_stream_start p) {
  node_callsign = trim_space (found_or_empty (find p TlvType.node_callsign));
  source_callsign = trim_space (found_or_empty (find p TlvType.source_callsign));
}

-- STREAM_START.
unfoldable pub receive_start : Receiver → ℕ → Packet → Received
receive_start s now p =
    let written = ack_packet s p in
    if is_remote s (key_of p)
    then record { receiver = s; written = written; published = none }
    else if is_retired s (key_of p)
    then record { receiver = s; written = written; published = none }
    else let s' =
        if s.remote.stream == 0
        then s
        else retire s (record { owner = s.remote.owner; stream = s.remote.stream }) in
      record {
        receiver = record s' {
          remote = record {
            owner = p.header.session_id;
            stream = p.header.stream_id;
            last_media = now;
          };
        };
        written = written;
        published = some (start_event p);
      }

-- STREAM_REVOKE.
unfoldable pub receive_revoke : Receiver → Packet → Received
receive_revoke s p =
    let written = ack_packet s p in
    let (owner, ended) = revoke s.owner p.header.stream_id in
    let own = p.header.session_id == s.session in
    let s' = if own then record s { owner = owner } else s in
    let local = own && ended in
    let matches = is_remote s (key_of p) in
    let s'' = retire s' (key_of p) in
    if not matches && not local
    then record { receiver = s''; written = written; published = none }
    else record {
      receiver = if matches then record s'' { remote = no_stream } else s'';
      written = written;
      published = some (event_of event_stream_end p);
    }

-- The switch of processLoop.
unfoldable pub receive_packet : Receiver → ℕ → Packet → Received
receive_packet s now p =
    if p.header.typ == PacketType.audio
    then receive_media s now p (audio_event p)
    else if p.header.typ == PacketType.media_data
    then receive_media s now p (data_event p)
    else if p.header.typ == PacketType.stream_start
    then receive_start s now p
    else if p.header.typ == PacketType.stream_revoke
    then receive_revoke s p
    else if p.header.typ == PacketType.disconnect
    then record { receiver = record s { gone = true }; written = ack_packet s p; published = none }
    else if p.header.typ == PacketType.error
    then record { receiver = s; written = none; published = some (protocol_error_event p) }
    else quiet s

-- Whether a packet is an answer to a request that waits; a channel that is full drops it.
unfoldable pub answer_request : Receiver → Packet → Option Receiver
answer_request s p = elim (find p TlvType.transaction_id) [
  | none ↦ none
  | some raw ↦
      let key : RequestKey = record { tx = be64 raw; stream = p.header.stream_id } in
      if not (p.header.session_id == s.session) then none else elim (lookup key s.pending) [
        | none ↦ none
        | some q ↦
            if not (contains q.types p.header.typ)
            then none
            else if length q.responses == 0
            then some
                (record s { pending = insert key (record q { responses = p ∷ [] }) s.pending })
            else some s
      ]
]

-- A packet that the client may receive from another session than its own.
abbrev pub is_shared : ℕ → Bool
is_shared typ =
    typ == PacketType.audio
    || typ == PacketType.media_data
    || typ == PacketType.stream_start
    || typ == PacketType.stream_revoke

-- A round that takes `bytes` from the inbound queue, up to the call of Publish.
unfoldable pub receive : Receiver → ℕ → List ℕ → Received
receive s now bytes = elim (decode bytes) [
  | err e ↦ quiet s
  | ok p ↦ elim (validate p (record { direction = server_to_client; phase = ready })) [
    | err e ↦ quiet s
    | ok _ ↦
        if not (is_shared p.header.typ) && not (p.header.session_id == s.session)
        then quiet s
        else elim (answer_request s p) [ some s' ↦ quiet s' | none ↦ receive_packet s now p ]
  ]
]

-- expireRemote, up to the call of Publish.
unfoldable pub expire_remote : Receiver → ℕ → Receiver × Option Event
expire_remote s now =
    if s.remote.stream == 0 || leb (now - s.remote.last_media) 2_000_000_000
    then (s, none)
    else let s' = retire s (record { owner = s.remote.owner; stream = s.remote.stream }) in
      (
        record s' { remote = no_stream },
        some (record {
          kind = event_stream_end;
          session_id = s.remote.owner;
          stream_id = s.remote.stream;
          sequence = 0;
          timestamp = 0;
          data_type = 0;
          node_callsign = [];
          source_callsign = [];
          payload = [];
          protocol_error_code = 0;
          message = receive_state_expired;
        }),
      )
  where
    -- "receive state expired".
    receive_state_expired : List ℕ
    receive_state_expired =
        b'r' ∷ b'e' ∷ b'c' ∷ b'e' ∷ b'i' ∷ b'v' ∷ b'e' ∷ b' ' ∷ b's' ∷ b't' ∷ b'a' ∷ b't' ∷ b'e'
        ∷ b' ' ∷ b'e' ∷ b'x' ∷ b'p' ∷ b'i' ∷ b'r' ∷ b'e' ∷ b'd' ∷ []

-- `_ = s.owner.Publish(event)`.
unfoldable pub published_to : Receiver → Option Event → Receiver
published_to s none = s
published_to s (some event) = record s { owner = (publish_event s.owner event).0 }
