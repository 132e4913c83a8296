-- ===== src/Reflector/ReplayExamples.antt =====
-- A request that comes again and a notification that is sent again, at concrete packets.
use opusref.Base.{
  ℕ, ◌≡◌, ◌<◌, refl, List, [], ◌∷◌, ◌++◌, true, false, none, some, ok, arith, lookup, insert, ℕ-Key,
  be64, bytes_equal,
}
use opusref.Wire.Types.{Packet, has_retry}
use opusref.Wire.PacketType
use opusref.Wire.TlvType
use opusref.Wire.Codec.{encode}
use opusref.Wire.Helpers.{find}
use opusref.Engine.Types.{defaults}
use opusref.Engine.Ops.{new_engine}
use opusref.Transport.{Datagram}
use opusref.Engine.Ops.{set_ready}
use opusref.Reflector.State.{
  update_peer, Completed, CompletedKey-Key, Peer, Notification, NotificationKey,
  NotificationKey-Key, Reflector,
}
use opusref.Reflector.Options.{options_defaults}
use opusref.Reflector.Runs.{run, run-RunInv}
use opusref.Reflector.Kept.{controls, answer_to}
use opusref.Reflector.Duplicates.{retried, transact-retried}
use opusref.Reflector.Control.{control, control_keepalive, answer_packet}
use opusref.Reflector.Packets.{tlv, response_header}
use opusref.Reflector.Ticker.{set_retry, retry, retry_pending}
use opusref.Reflector.Retries.{retry_pending-ends}
use opusref.Wire.Codec.{validate_extensions, put_extensions, put_header}
use opusref.Wire.Tlv.{valid_value, validate_tlv_value}
use opusref.Wire.TlvType.{known_tlv}
use opusref.Wire.Helpers.{find_extension}
use opusref.Transport.{enqueue_control}
use opusref.Reflector.Answers.{
  bytes_of, enqueue_raw, transaction_key, insert_tlv, sort_tlvs, sorted, clear_retry,
  fingerprint_of, delivered, transact_new, transact,
}
use opusref.Reflector.Admission.{find_or_nil}
use opusref.Reflector.State.{count_session}
use opusref.Base.{contains}
use opusref.Reflector.RunExamples.{library, options, random_bytes, fresh, here, station, made}

abbrev pub tx_bytes : List ℕ
tx_bytes = 1 ∷ 2 ∷ 3 ∷ 4 ∷ 5 ∷ 6 ∷ 7 ∷ 8 ∷ []

abbrev keepalive : Packet
keepalive = record {
  header = record {
    version = 1;
    typ = PacketType.keepalive;
    flags = 0;
    header_length = 44;
    payload_length = 0;
    session_id = 5;
    stream_id = 0;
    sequence = 0;
    timestamp = 0;
  };
  extensions = tlv TlvType.transaction_id tx_bytes ∷ [];
  payload = [];
}

abbrev first_answer : Completed
first_answer = record {
  fingerprint = fingerprint_of (sorted keepalive);
  response = bytes_of (answer_packet 5 keepalive (tlv TlvType.transaction_id tx_bytes ∷ []));
  address = here;
  at = 7;
}

abbrev after_answer : Reflector
after_answer = record fresh {
  transactions = (transaction_key here (sorted keepalive) (be64 tx_bytes), first_answer) ∷ [];
}

kept_answer :
    lookup
      (transaction_key here (sorted keepalive) (be64 tx_bytes))
      (transact library fresh 7 here keepalive
        (answer_to library 7 here (controls 5))).0.transactions
    ≡ some first_answer
unfolding transact transact_new answer_to control control_keepalive response_header set_ready
    update_peer lookup insert find find_extension find_or_nil transaction_key sorted sort_tlvs
    insert_tlv fingerprint_of clear_retry bytes_of encode validate_extensions put_extensions
    put_header validate_tlv_value valid_value known_tlv contains enqueue_raw enqueue_control
    delivered count_session new_engine defaults options_defaults bytes_equal
kept_answer = refl

still_kept :
    lookup (transaction_key here (sorted keepalive) (be64 tx_bytes)) after_answer.transactions
    ≡ some first_answer
unfolding lookup transaction_key sorted sort_tlvs insert_tlv bytes_equal
still_kept = refl

found_transaction : find keepalive TlvType.transaction_id ≡ some tx_bytes
unfolding find find_extension
found_transaction = refl

transact-retried_example :
    (response : Packet) × (bytes : List ℕ) × ((answer_to library 7 here
        (controls 5)
        fresh
        (sorted keepalive)).1
      ≡ some response)
    × (encode response ≡ ok bytes)
    × (let repeated = record after_answer {
      transport = record after_answer.transport {
        control =
            after_answer.transport.control ++ (record { address = here; contents = bytes } ∷ []);
      };
    } in
        ((transact library after_answer 9 here keepalive (answer_to library 9 here (controls 5))).0
          ≡ repeated)
        × ((transact library after_answer 9 here
              (retried keepalive)
              (answer_to library 9 here (controls 5))).0
            ≡ repeated))
unfolding lookup run
transact-retried_example =
    transact-retried library fresh after_answer 7 9 here (controls 5) keepalive tx_bytes
      first_answer (run-RunInv library options random_bytes fresh [] made tt) found_transaction
      (refl, kept_answer, still_kept) (omega arith)

abbrev start : NotificationKey
start = record { listener = 5; typ = PacketType.stream_start; tx = 77 }

abbrev unacknowledged : Notification
unacknowledged = record { packet = keepalive; attempt = 1; next = 100 }

-- The listener is a peer, and the datagram is what Encode makes of the packet with the RETRY flag.
abbrev notifying : Reflector
notifying = record fresh { pending = (start, unacknowledged) ∷ []; peers = (5, station) ∷ [] }

abbrev repeated_packet : Packet
repeated_packet = record keepalive {
  header = record keepalive.header { flags = set_retry keepalive.header.flags };
}

abbrev repeated_bytes : List ℕ
repeated_bytes = bytes_of repeated_packet

encoded_again : encode repeated_packet ≡ ok repeated_bytes
unfolding bytes_of encode validate_extensions put_extensions put_header validate_tlv_value
    valid_value known_tlv contains set_retry
encoded_again = refl

abbrev second_try : Reflector
second_try = retry_pending notifying 100 start

abbrev third_try : Reflector
third_try = retry_pending second_try 2_000_000_000 start

abbrev fourth_try : Reflector
fourth_try = retry_pending third_try 5_000_000_000 start

retry_pending-ends_example :
    (let end = retry_pending fourth_try 5_050_000_000 start in
      let sent : Datagram = record { address = here; contents = repeated_bytes } in
      ((t : ℕ) → t < 100 → retry_pending notifying t start ≡ notifying)
      × (has_retry (set_retry 0) ≡ true)
      × (second_try.transport.control ≡ notifying.transport.control ++ (sent ∷ []))
      × (third_try.transport.control ≡ second_try.transport.control ++ (sent ∷ []))
      × (fourth_try.transport.control ≡ third_try.transport.control ++ (sent ∷ []))
      × (lookup start fourth_try.pending
          ≡ some (retry (retry (retry unacknowledged 100) 2_000_000_000) 5_000_000_000))
      × (lookup start end.pending ≡ none)
      × (end.transport ≡ fourth_try.transport)
      × ((q : Peer)
          → start.typ ≡ PacketType.stream_start
          → lookup start.listener end.peers ≡ some q
          → q.receiving ≡ false))
unfolding lookup
retry_pending-ends_example =
    retry_pending-ends notifying start unacknowledged station repeated_bytes 100 2_000_000_000
      5_000_000_000 5_050_000_000 refl refl refl encoded_again
      (omega arith, omega arith, omega arith, omega arith) (omega arith)
