-- ===== src/Reflector/Duplicates.antt =====
-- pkg/server/reflector.go: a request that comes again, which transact answers from what it has kept.
use opusref.Base.{
  ok, ℕ, ◌<◌, ◌≡◌, refl, List, [], ◌∷◌, ◌++◌, Bool, length, Option, none, some, lookup, ℕ-Key,
  Bytes-Key, arith, be64, subst, sym, ◌∙◌, bytes_equal_iff,
}
use opusref.Wire.Types.{Packet}
use opusref.Wire.TlvType
use opusref.Wire.Codec.{encode}
use opusref.Wire.Helpers.{find}
use opusref.Transport.{enqueue_control}
use opusref.Reflector.State.{Completed, CompletedKey-Key, Reflector, Library}
use opusref.Reflector.Answers.{
  enqueue_raw, transaction_key, sorted, fingerprint_of, clear_retry, transact_new, transact_again,
  transact,
}
use opusref.Reflector.Ticker.{set_retry}
use opusref.Reflector.Runs.{AnyPeer}
use opusref.Reflector.Invariant.Replies.{RunInv}
use opusref.Reflector.Kept.{Request, answer_to, Kept-transact_new}

clear_retry-set_retry : (flags : ℕ) → clear_retry (set_retry flags) ≡ clear_retry flags
unfolding clear_retry set_retry
clear_retry-set_retry flags = ground arith

-- The same request, sent again with the RETRY flag.
unfoldable pub retried : Packet → Packet
retried p = record p { header = record p.header { flags = set_retry p.header.flags } }

pub fingerprint_of-retried :
    (p : Packet) → fingerprint_of (sorted (retried p)) ≡ fingerprint_of (sorted p)
unfolding fingerprint_of sorted retried
fingerprint_of-retried p = rw (clear_retry-set_retry p.header.flags) refl

pub transact_first :
    (lib : Library) (r : Reflector) (now : ℕ) (address : List ℕ) (p : Packet) (tx : List ℕ)
    (apply : Reflector → Packet → Reflector × Option Packet)
    → find p TlvType.transaction_id ≡ some tx
    → lookup (transaction_key address (sorted p) (be64 tx)) r.transactions ≡ none
    → transact lib r now address p apply
      ≡ transact_new lib r now address
          (sorted p)
          tx
          (transaction_key address (sorted p) (be64 tx))
          (fingerprint_of (sorted p))
          apply
unfolding transact
transact_first lib r now address p tx apply found new = ground (arith, found, new)

-- transact for a request whose answer is kept, where the control queue has room.
transact_kept :
    (lib : Library) (r : Reflector) (now : ℕ) (address : List ℕ) (p : Packet) (tx : List ℕ)
    (e : Completed) (apply : Reflector → Packet → Reflector × Option Packet)
    → find p TlvType.transaction_id ≡ some tx
    → lookup (transaction_key address (sorted p) (be64 tx)) r.transactions ≡ some e
    → e.fingerprint ≡ fingerprint_of (sorted p)
    → length r.transport.control < r.transport.control_capacity
    → (transact lib r now address p apply).0 ≡ record r {
      transport = record r.transport {
        control = r.transport.control ++ (record { address = address; contents = e.response } ∷ []);
      };
    }
unfolding transact transact_again enqueue_raw enqueue_control
transact_kept lib r now address p tx e apply found there same room =
    ground
      (arith, found, there, same, room, bytes_equal_iff e.fingerprint (fingerprint_of (sorted p)))

-- A request that the reflector has answered for the first time, and that comes again from the same
-- address with or without the RETRY flag while its answer is kept, and while the control queue has
-- room: it is not carried out again, whatever the reflector has done since. All that happens is that
-- one datagram is queued for that address, with the bytes that Encode makes of the answer that hello,
-- authenticate or control gave the first time.
pub transact-retried :
    (lib : Library) (r r' : Reflector) (now later : ℕ) (address : List ℕ) (q : Request) (p : Packet)
    (tx : List ℕ) (e : Completed)
    → RunInv AnyPeer r
    → find p TlvType.transaction_id ≡ some tx
    → (let key = transaction_key address (sorted p) (be64 tx) in
        let answered = (transact lib r now address p (answer_to lib now address q)).0 in
        (lookup key r.transactions ≡ none)
        × (lookup key answered.transactions ≡ some e)
        × (lookup key r'.transactions ≡ some e))
    → length r'.transport.control < r'.transport.control_capacity
    → (response : Packet) × (bytes : List ℕ) × ((answer_to lib now address q r (sorted p)).1
        ≡ some response)
      × (encode response ≡ ok bytes)
      × (let repeated = record r' {
        transport = record r'.transport {
          control = r'.transport.control ++ (record { address = address; contents = bytes } ∷ []);
        };
      } in
          ((transact lib r' later address p (answer_to lib later address q)).0 ≡ repeated)
          × ((transact lib r' later address (retried p) (answer_to lib later address q)).0
              ≡ repeated))
unfolding retried find transaction_key sorted
transact-retried lib r r' now later address q p tx e h found kept room =
    let key = transaction_key address (sorted p) (be64 tx) in
    let new = transact_first lib r now address p tx (answer_to lib now address q) found (kept.0) in
    let is =
      (Kept-transact_new lib now address (sorted p) tx key (fingerprint_of (sorted p)) q r h
          (kept.0)).all
        e (subst (λ (x : Reflector × Bool). lookup key x.0.transactions ≡ some e) new (kept.1)) in
    (
      is.response,
      e.response,
      is.answered,
      is.encoded,
      (
        transact_kept lib r' later address p tx e (answer_to lib later address q) found (kept.2)
            is.same room,
        transact_kept lib r' later address (retried p) tx e (answer_to lib later address q) found
            (kept.2) (is.same ∙ sym (fingerprint_of-retried p)) room,
      ),
    )
