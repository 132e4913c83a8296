-- ===== src/Client/UdpExamples.antt =====
-- The UDP client at concrete packets.
use opusref.Base.{
  ℕ, ◌≡◌, refl, List, [], ◌∷◌, false, true, none, some, ok, arith, pos, replicate, put64,
}
use opusref.Wire.Types.{Packet}
use opusref.Wire.PacketType
use opusref.Wire.Tlv.{valid_padded_identifier, content, identifier_char, all_spaces}
use opusref.Wire.Helpers.{callsign, to_upper, all_ascii, upper_byte, trim_space}
use opusref.Engine.Ops.{new_engine}
use opusref.Engine.Types.{Limits}
use opusref.Reflector.State.{Challenge, Reflector, Library}
use opusref.Reflector.Packets.{header}
use opusref.Reflector.Admission.{hello, admit, authenticate}
use opusref.Client.Types.{Options}
use opusref.Client.Queue.{fresh}
use opusref.Client.Receiving.{RemoteKey, Receiver, ack_packet, is_retired, stands_in}
use opusref.Client.Processing.{start_event, receive_start, receive_revoke, expire_remote}
use opusref.Client.Packets.{hello_packet, authenticate_packet}
use opusref.Client.Once.{receive_start-once}
use opusref.Client.Handshake.{authenticate-hello}

abbrev options : Options
options = record {
  server_address = b'S' ∷ [];
  node_callsign = b'N' ∷ [];
  shared_key = [];
  inbound_queue_packets = pos 4;
  application_queue_events = pos 4;
  media_send_queue_frames = pos 4;
  control_send_queue_packets = pos 4;
  connect_timeout = pos 4;
  operation_timeout = pos 4;
}

abbrev no_key : RemoteKey
no_key = record { owner = 0; stream = 0 }

abbrev pub receiver : Receiver
receiver = record {
  owner = fresh options;
  session = 5;
  pending = [];
  inbound = [];
  inbound_capacity = 4;
  inbound_drops = 0;
  remote = record { owner = 6; stream = 2; last_media = 1 };
  retired = no_key ∷ no_key ∷ no_key ∷ no_key ∷ no_key ∷ no_key ∷ no_key ∷ no_key ∷ [];
  retired_count = 0;
  retired_next = 0;
  gone = false;
  control_tokens = 0;
  control_capacity = 2;
}

-- A STREAM_START of session 7 and its STREAM_REVOKE.
abbrev arriving : Packet
arriving = record { header = header PacketType.stream_start 0 7 9; extensions = []; payload = [] }

abbrev revoking : Packet
revoking = record { header = header PacketType.stream_revoke 0 7 9; extensions = []; payload = [] }

receive_start-once_example :
    (let r = (receive_start receiver 3 arriving).receiver in
      let revoked = (receive_revoke r revoking).receiver in
      let expired = (expire_remote r 3_000_000_000).0 in
      ((receive_start receiver 3 arriving).published ≡ some (start_event arriving))
      × (receive_start r 4 arriving
          ≡ record { receiver = r; written = ack_packet receiver arriving; published = none })
      × (receive_start revoked 4 arriving
          ≡ record { receiver = revoked; written = ack_packet receiver arriving; published = none })
      × (receive_start expired 4 arriving ≡ record {
        receiver = expired;
        written = ack_packet receiver arriving;
        published = none;
      }))
unfolding is_retired stands_in
receive_start-once_example =
    receive_start-once receiver 3 4 3_000_000_000 arriving revoking
      (record { size = refl; count = omega arith; next = omega arith }) (omega arith) refl refl refl

abbrev library : Library
library = record { unicode_upper = λ value. value; hmac_sha256 = λ key message. key }

abbrev reflector : Reflector
reflector = record {
  options = record {
    id = b'R' ∷ [];
    display_name = b'R' ∷ [];
    shared_key = 1 ∷ 2 ∷ 3 ∷ [];
    limits = limits;
    inbound_queue_packets = pos 1;
    outbound_control_queue_packets = pos 1;
    outbound_media_queue_frames = pos 1;
    max_pending_challenges = pos 1;
    max_pending_notifications = pos 1;
    max_pending_notifications_per_client = pos 1;
    max_completed_transactions_per_session = pos 1;
    max_datagram_bytes = pos 1200;
    shutdown_grace = pos 1;
  };
  engine = new_engine limits;
  transport = record {
    inbound = [];
    control = [];
    media = [];
    inbound_capacity = 1;
    control_capacity = 1;
    media_capacity = 1;
    inbound_drops = 0;
    media_drops = 0;
    media_drop_recipients = 0;
    control_failures = 0;
    media_enabled = true;
  };
  challenges = [];
  peers = [];
  transactions = [];
  pending = [];
  random = replicate 40 9;
}
  where
    limits : Limits
    limits = record {
      max_clients = 1;
      max_completed_transactions = 1;
      session_timeout = 1;
      grant_timeout = 1;
      media_timeout = 1;
      transmit_time_limit = 1;
    }

-- "N0CALL" in its ten bytes.
abbrev station : List ℕ
station = b'N' ∷ b'0' ∷ b'C' ∷ b'A' ∷ b'L' ∷ b'L' ∷ b' ' ∷ b' ' ∷ b' ' ∷ b' ' ∷ []

encoded_station :
    callsign library.unicode_upper (b'n' ∷ b'0' ∷ b'c' ∷ b'a' ∷ b'l' ∷ b'l' ∷ []) ≡ ok station
unfolding callsign to_upper all_ascii upper_byte valid_padded_identifier content identifier_char
    all_spaces
encoded_station = refl

abbrev nonce : List ℕ
nonce = replicate 32 7

authenticate-hello_example :
    (let challenging = (hello library 5 (b'a' ∷ []) reflector (hello_packet 77 station nonce)).0 in
      (challenge : Packet) × (c : Challenge) × ((hello library 5
          (b'a' ∷ [])
          reflector
          (hello_packet 77 station nonce)).1
        ≡ some challenge)
      × (c.node ≡ trim_space station)
      × (authenticate library 6
            (b'a' ∷ [])
            challenging
            (authenticate_packet library.hmac_sha256 (1 ∷ 2 ∷ 3 ∷ []) 77 station nonce challenge)
          ≡ admit library 6 (b'a' ∷ []) challenging (put64 77) c))
authenticate-hello_example =
    authenticate-hello library reflector 5 6 (b'a' ∷ []) 77
      (b'n' ∷ b'0' ∷ b'c' ∷ b'a' ∷ b'l' ∷ b'l' ∷ []) station nonce encoded_station (omega arith)
      (omega arith) (omega arith)
