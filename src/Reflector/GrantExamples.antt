-- ===== src/Reflector/GrantExamples.antt =====
-- The reflector with a transmit time limit of half a second, at a concrete STREAM_REQUEST.
use opusref.Base.{◌≡◌, refl, [], ◌∷◌, true, false, some, ok, arith, lookup}
use opusref.Wire.Types.{Packet}
use opusref.Wire.PacketType
use opusref.Wire.TlvType
use opusref.Wire.Helpers.{find, find_extension, reflector_id, to_upper, all_ascii, upper_byte}
use opusref.Wire.Tlv.{valid_padded_identifier, content, identifier_char, all_spaces}
use opusref.Engine.Types.{defaults, Floor}
use opusref.Engine.Ops.{new_engine}
use opusref.Transport.{new_udp}
use opusref.Reflector.State.{CompletedKey-Key, Reflector, ReflectorOptions, count_session}
use opusref.Reflector.Options.{new_reflector, checked_options, validate_options, options_defaults}
use opusref.Reflector.Packets.{header, tlv}
use opusref.Reflector.Answers.{transact}
use opusref.Reflector.Control.{control}
use opusref.Reflector.InVain.{Keyed}
use opusref.Reflector.Unanswered.{transact_unanswered}
use opusref.Reflector.RunExamples.{library, options, fresh, random_bytes, station, here}
use opusref.Reflector.ReplayExamples.{tx_bytes}

abbrev half_options : ReflectorOptions
half_options = record options {
  limits = record options.limits { transmit_time_limit = 500_000_000 };
}

abbrev half_fresh : Reflector
half_fresh = record fresh {
  options = options_defaults half_options;
  engine = new_engine (defaults half_options.limits);
}

-- NewReflector accepts the limit.
half_made : new_reflector library half_options random_bytes ≡ ok half_fresh
unfolding new_reflector checked_options validate_options options_defaults new_udp defaults
    reflector_id to_upper all_ascii upper_byte valid_padded_identifier content identifier_char
    all_spaces
half_made = refl

-- Sessions 5 and 6 are ready.
abbrev half_second : Reflector
half_second = record half_fresh {
  engine = record half_fresh.engine {
    sessions =
        (5, record { address = here; callsign = station.node; ready = true; last = 6 })
        ∷ (6, record { address = b'b' ∷ []; callsign = station.node; ready = true; last = 6 })
        ∷ [];
  };
  peers =
      (5, record station { ready = true })
      ∷ (6, record station { id = 6; address = b'b' ∷ []; ready = true })
      ∷ [];
}

half_second-Keyed : Keyed half_second
unfolding lookup
half_second-Keyed j q h = ground (arith, h)

abbrev asks : Packet
asks = record {
  header = header PacketType.stream_request 0 5 9;
  extensions =
      tlv TlvType.transaction_id tx_bytes
      ∷ tlv TlvType.source_callsign
          (b'N' ∷ b'0' ∷ b'C' ∷ b'A' ∷ b'L' ∷ b'L' ∷ b' ' ∷ b' ' ∷ b' ' ∷ b' ' ∷ [])
      ∷ [];
  payload = [];
}

found_tx : find asks TlvType.transaction_id ≡ some tx_bytes
unfolding find find_extension
found_tx = refl

transact_unanswered_example :
    (let (r', answered) = transact library half_second 7 here asks (control library 7 5) in
      (answered ≡ false)
      × ((f : Floor) × (r'.engine.floor ≡ some f) × (f.owner ≡ 5) × (f.stream ≡ 9))
      × (r'.transport ≡ half_second.transport)
      × (r'.transactions ≡ half_second.transactions))
unfolding lookup count_session new_engine defaults options_defaults
transact_unanswered_example =
    transact_unanswered library half_second 7 5 here asks tx_bytes half_second-Keyed
      (refl, omega arith) found_tx refl (refl, refl, refl) (omega arith, omega arith) (omega arith)
