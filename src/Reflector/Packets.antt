-- ===== src/Reflector/Packets.antt =====
-- pkg/server/reflector.go: the packets that the reflector makes.
use opusref.Base.{ℕ, ◌/◌, List, [], ◌∷◌, Result, ok, err, u32_mod, ◌%◌}
use opusref.Wire.Types.{Header, Tlv, Packet, version1, flag_response}
use opusref.Wire.PacketType
use opusref.Wire.TlvType
use opusref.Wire.Helpers.{IdentifierError, uint64_tlv, uint32_tlv, uint16_tlv, callsign}
use opusref.Engine.Types.{
  second, EndReason, end_normal, end_owner_disconnect, end_grant_timeout, end_media_inactivity,
  end_transmit_time_limit, end_server_shutdown, StreamEnd,
}

-- The numbers of wire.EndReason.
unfoldable pub end_reason : EndReason → ℕ
end_reason end_normal = 0
end_reason end_owner_disconnect = 1
end_reason end_grant_timeout = 2
end_reason end_media_inactivity = 3
end_reason end_transmit_time_limit = 4
end_reason end_server_shutdown = 5

abbrev pub tlv : ℕ → List ℕ → Tlv
tlv typ value = record { typ = typ; value = value }

-- A Header literal whose other fields are zero.
abbrev pub header : ℕ → ℕ → ℕ → ℕ → Header
header typ flags session_id stream_id = record {
  version = version1;
  typ = typ;
  flags = flags;
  header_length = 0;
  payload_length = 0;
  session_id = session_id;
  stream_id = stream_id;
  sequence = 0;
  timestamp = 0;
}

-- The STREAM_REVOKE of notifyEnd, `tx` being the transaction ID that it draws.
unfoldable pub revoke_packet : StreamEnd → ℕ → Packet
revoke_packet end tx = record {
  header = record (header PacketType.stream_revoke 0 end.session_id end.stream_id) {
    sequence = end.sequence;
    timestamp = end.timestamp;
  };
  extensions =
      uint64_tlv TlvType.transaction_id tx
      ∷ uint16_tlv TlvType.end_reason (end_reason end.reason)
      ∷ [];
  payload = [];
}

-- `uint32(limit / time.Second)`.
unfoldable pub limit_seconds : ℕ → ℕ
limit_seconds limit = limit / second % u32_mod

-- `value, _ := wire.Callsign(…)`.
unfoldable pub or_nil : Result IdentifierError (List ℕ) → List ℕ
or_nil (ok value) = value
or_nil (err e) = []

-- The STREAM_START of notifyStart, for the floor of `session_id` and `stream_id`, the node of its
-- owner and the source of its stream; `limit` is the transmit time limit of the engine.
module _ (unicode_upper : List ℕ → List ℕ) where
  unfoldable pub start_packet : ℕ → ℕ → List ℕ → List ℕ → ℕ → ℕ → Packet
  start_packet session_id stream_id node source limit tx = record {
    header = header PacketType.stream_start 0 session_id stream_id;
    extensions =
        uint64_tlv TlvType.transaction_id tx
        ∷ tlv TlvType.node_callsign (or_nil (callsign unicode_upper node))
        ∷ tlv TlvType.source_callsign (or_nil (callsign unicode_upper source))
        ∷ uint32_tlv TlvType.transmit_time_limit (limit_seconds limit)
        ∷ [];
    payload = [];
  }

-- The header `base` of control, with the type of the answer.
unfoldable pub response_header : ℕ → ℕ → Packet → Header
response_header typ peer request = record (header typ flag_response peer request.header.stream_id) {
  sequence = request.header.sequence;
  timestamp = request.header.timestamp;
}

-- The STREAM_GRANT of control: its answer to a STREAM_REQUEST of the session `peer` with the
-- transaction ID `tx`, where the engine grants the floor.
unfoldable pub grant_packet : ℕ → Packet → List ℕ → ℕ → Packet
grant_packet peer request tx limit = record {
  header = response_header PacketType.stream_grant peer request;
  extensions =
      tlv TlvType.transaction_id tx
      ∷ uint32_tlv TlvType.transmit_time_limit (limit_seconds limit)
      ∷ [];
  payload = [];
}

-- The STREAM_BUSY with which it answers where the engine does not.
unfoldable pub busy_packet : ℕ → Packet → List ℕ → Packet
busy_packet peer request tx = record {
  header = response_header PacketType.stream_busy peer request;
  extensions = tlv TlvType.transaction_id tx ∷ [];
  payload = [];
}
