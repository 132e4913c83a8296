-- ===== src/Reflector/Examples.antt =====
-- The reflector's packets at concrete streams.
use opusref.Base.{ℕ, ◌≡◌, ◌≢◌, ◌*◌, refl, List, [], ◌∷◌, true, arith}
use opusref.Wire.Types.{Packet}
use opusref.Wire.PacketType
use opusref.Wire.Tlv.{all_spaces, content, identifier_char, valid_padded_identifier}
use opusref.Wire.Helpers.{trim_space}
use opusref.Engine.Types.{second, StreamEnd, end_media_inactivity}
use opusref.Reflector.Packets.{limit_seconds, start_packet, grant_packet}
use opusref.Reflector.Delivered.{IsDelivered, start_packet-IsDelivered, grant_packet-IsDelivered}

abbrev timed_out : StreamEnd
timed_out = record {
  session_id = 5;
  stream_id = 9;
  reason = end_media_inactivity;
  sequence = 3;
  timestamp = 2880;
  duration = 60_000_000;
}

-- "N0CALL" in its ten bytes.
abbrev station : List ℕ
station = b'N' ∷ b'0' ∷ b'C' ∷ b'A' ∷ b'L' ∷ b'L' ∷ b' ' ∷ b' ' ∷ b' ' ∷ b' ' ∷ []

valid_station : valid_padded_identifier station 10 ≡ true
unfolding valid_padded_identifier content all_spaces identifier_char
valid_station = refl

three_minutes : limit_seconds (180 * second) ≢ 0
unfolding limit_seconds
three_minutes e = omega (arith, e)

start_packet-IsDelivered_example :
    IsDelivered (
      start_packet (λ value. value) 5 9 (trim_space station) (trim_space station) (180 * second) 77)
start_packet-IsDelivered_example =
    start_packet-IsDelivered (λ value. value) 5 9 station station (180 * second) 77 (omega arith)
      (omega arith) valid_station valid_station three_minutes

abbrev request : Packet
request = record {
  header = record {
    version = 1;
    typ = PacketType.stream_request;
    flags = 0;
    header_length = 60;
    payload_length = 0;
    session_id = 5;
    stream_id = 9;
    sequence = 0;
    timestamp = 0;
  };
  extensions = [];
  payload = [];
}

abbrev tx : List ℕ
tx = 1 ∷ 2 ∷ 3 ∷ 4 ∷ 5 ∷ 6 ∷ 7 ∷ 8 ∷ []

grant_packet-IsDelivered_example : IsDelivered (grant_packet 5 request tx (180 * second))
grant_packet-IsDelivered_example =
    grant_packet-IsDelivered 5 request tx (180 * second) (omega arith) (omega arith) refl refl refl
      three_minutes
