-- ===== src/Reflector/Options.antt =====
-- pkg/server/reflector.go: the options and NewReflector. A negative limit is left out, as in
-- Engine/Types.antt; the connection is there.
use opusref.Base.{
  ℕ, List, [], Bool, ◌&&◌, ◌||◌, not, ◌==◌, leb, ltb, ◌*◌, length, none, some, Result, ok, err,
  guard, ◌>>=◌, ◌>>◌, ℤ, is_positive, or_else, capacity,
}
use opusref.Wire.Types.{base_header_size, max_datagram_size}
use opusref.Wire.Helpers.{reflector_id}
use opusref.Engine.Types.{defaults, second}
use opusref.Engine.Ops.{new_engine}
use opusref.Transport.{new_udp}
use opusref.Reflector.State.{ReflectorOptions, Reflector, Library}

-- ReflectorOptions.defaults, and that of the limits, which NewReflector calls next.
unfoldable pub options_defaults : ReflectorOptions → ReflectorOptions
options_defaults o = record o {
  inbound_queue_packets = or_else o.inbound_queue_packets 256;
  max_datagram_bytes = or_else o.max_datagram_bytes max_datagram_size;
  outbound_control_queue_packets = or_else o.outbound_control_queue_packets 64;
  outbound_media_queue_frames = or_else o.outbound_media_queue_frames 256;
  max_pending_challenges = or_else o.max_pending_challenges 100;
  max_pending_notifications = or_else o.max_pending_notifications 200;
  max_pending_notifications_per_client = or_else o.max_pending_notifications_per_client 2;
  max_completed_transactions_per_session = or_else o.max_completed_transactions_per_session 64;
  shutdown_grace = or_else o.shutdown_grace (5 * second);
  limits = defaults o.limits;
}

pub data OptionsError : Type 0 where
  bad_id bad_display_name bad_capacity bad_session_capacity bad_timer bad_datagram_size :
      OptionsError

-- `a > b` on ints of which the second is positive.
abbrev pub exceeds : ℤ → ℕ → Bool
exceeds a b = ltb b (capacity a)

unfoldable pub validate_options : ReflectorOptions → Result OptionsError (Unit {0})
validate_options o = do
  guard
      (is_positive o.inbound_queue_packets
        && is_positive o.outbound_control_queue_packets
        && is_positive o.outbound_media_queue_frames
        && is_positive o.max_pending_challenges
        && is_positive o.max_pending_notifications
        && is_positive o.max_pending_notifications_per_client
        && is_positive o.max_completed_transactions_per_session
        && ltb 0 o.limits.max_clients
        && ltb 0 o.limits.max_completed_transactions)
      bad_capacity
  guard
      (not (
        exceeds o.max_pending_notifications_per_client (capacity o.max_pending_notifications)
        || exceeds o.max_completed_transactions_per_session o.limits.max_completed_transactions))
      bad_session_capacity
  guard
      (is_positive o.shutdown_grace
        && ltb 0 o.limits.session_timeout
        && ltb 0 o.limits.grant_timeout
        && ltb 0 o.limits.media_timeout
        && ltb 0 o.limits.transmit_time_limit)
      bad_timer

-- The options that NewReflector goes on with, where it accepts them.
unfoldable pub checked_options : Library → ReflectorOptions → Result OptionsError ReflectorOptions
checked_options lib given = do
  elim (reflector_id lib.unicode_upper given.id) [ err e ↦ err bad_id | ok id ↦ ok tt ]
  guard (not (length given.display_name == 0 || ltb 64 (length given.display_name)))
      bad_display_name
  let options = options_defaults given
  validate_options options
  guard
      (leb base_header_size (capacity options.max_datagram_bytes)
        && leb (capacity options.max_datagram_bytes) max_datagram_size)
      bad_datagram_size
  ok options

-- NewReflector, with the bytes that the random reader will give.
unfoldable pub new_reflector : Library → ReflectorOptions → List ℕ → Result OptionsError Reflector
new_reflector lib given random = do
  options ← checked_options lib given
  transport ←
      elim (new_udp options.inbound_queue_packets options.outbound_control_queue_packets
        options.outbound_media_queue_frames) [ none ↦ err bad_capacity | some udp ↦ ok udp ]
  ok (record {
    options = options;
    engine = new_engine options.limits;
    transport = transport;
    challenges = [];
    peers = [];
    transactions = [];
    pending = [];
    random = random;
  })
