-- ===== src/Client/Types.antt =====
-- pkg/client/client.go, the types. Strings are lists of bytes, integers of w bits numbers below
-- 2 ^ w.
use opusref.Base.{ℕ, List, Bool, Option, ◌&&◌, ℤ, is_positive, or_else}

-- The sentinels, the errors known by their texts, and those that the sender returns, by a number.
pub data ClientError : Type 0 where
  backpressure application_backpressure control_backpressure not_connected : ClientError
  stream_inactive connect_in_progress source_required request_active : ClientError
  invalid_audio invalid_data invalid_capacity invalid_timeout address_required : ClientError
  context_done : ClientError
  sender_error : ℕ → ClientError

pub data EventKind : Type 0 where
  event_stream_start event_audio event_data event_stream_end event_busy event_status : EventKind
  event_protocol_error : EventKind

pub record Event : Type 0 where
  pub kind : EventKind
  pub session_id : ℕ
  pub stream_id : ℕ
  pub sequence : ℕ
  pub timestamp : ℕ
  pub data_type : ℕ
  pub node_callsign : List ℕ
  pub source_callsign : List ℕ
  pub payload : List ℕ
  pub protocol_error_code : ℕ
  pub message : List ℕ

pub record Outbound : Type 0 where
  pub kind : EventKind
  pub stream_id : ℕ
  pub sequence : ℕ
  pub timestamp : ℕ
  pub data_type : ℕ
  pub source_callsign : List ℕ
  pub payload : List ℕ

pub record Options : Type 0 where
  pub server_address : List ℕ
  pub node_callsign : List ℕ
  pub shared_key : List ℕ
  pub inbound_queue_packets : ℤ
  pub application_queue_events : ℤ
  pub media_send_queue_frames : ℤ
  pub control_send_queue_packets : ℤ
  pub connect_timeout : ℤ
  pub operation_timeout : ℤ

unfoldable pub defaults : Options → Options
defaults o = record o {
  inbound_queue_packets = or_else o.inbound_queue_packets 256;
  application_queue_events = or_else o.application_queue_events 256;
  media_send_queue_frames = or_else o.media_send_queue_frames 256;
  control_send_queue_packets = or_else o.control_send_queue_packets 32;
  connect_timeout = or_else o.connect_timeout 10_000_000_000;
  operation_timeout = or_else o.operation_timeout 5_000_000_000;
}

-- The two tests of Options.validate.
unfoldable pub positive_capacities : Options → Bool
positive_capacities o =
    is_positive o.inbound_queue_packets
    && is_positive o.application_queue_events
    && is_positive o.media_send_queue_frames
    && is_positive o.control_send_queue_packets

unfoldable pub positive_timeouts : Options → Bool
positive_timeouts o = is_positive o.connect_timeout && is_positive o.operation_timeout

-- The QueueClient. A channel is the list of what stands in it, the oldest first; `done` and
-- `close_done` say that those channels are closed. `in_flight` is the local variable `out` of the
-- goroutine run while it sends, and `sender_closes` counts the calls of the sender's Close.
pub record Client : Type 0 where
  pub options : Options
  pub events : List Event
  pub media : List Outbound
  pub in_flight : Option Outbound
  pub control : List Outbound
  pub done : Bool
  pub connected : Bool
  pub connecting : Bool
  pub stream : Bool
  pub ending : Bool
  pub requesting : Bool
  pub stream_id : ℕ
  pub sequence : ℕ
  pub last_timestamp : ℕ
  pub media_accepted : ℕ
  pub media_sent : ℕ
  pub terminal : Option ClientError
  pub close_result : Option ClientError
  pub close_called : Bool
  pub close_done : Bool
  pub sender_closes : ℕ
