-- ===== src/Reflector/Unanswered.antt =====
-- pkg/server/reflector.go: a STREAM_REQUEST that is granted while the transmit time limit is below one
-- second: what control and transact do then.
use opusref.Base.{
  ℕ, ◌<◌, ◌≢◌, ◌≡◌, refl, List, true, false, length, Option, none, some, err, lookup, ℕ-Key, arith,
  capacity, be64, ◌∙◌, ap,
}
use opusref.Wire.Types.{Packet, malformed_packet}
use opusref.Wire.PacketType
use opusref.Wire.TlvType
use opusref.Wire.Codec.{encode}
use opusref.Wire.Helpers.{find, trim_space}
use opusref.Engine.Types.{second, Floor, Engine, floor_granted}
use opusref.Engine.Ops.{new_floor, request_floor}
use opusref.Engine.Invariant.{is_ready}
use opusref.Engine.Ends.{request_floor-granted_iff}
use opusref.Engine.Transactions.{floor_snapshot}
use opusref.Reflector.State.{
  CompletedKey, CompletedKey-Key, NotificationKey-Key, Reflector, Library, keys, count_session,
}
use opusref.Reflector.Packets.{grant_packet}
use opusref.Reflector.Answers.{transaction_key, sorted, fingerprint_of, transact_new, transact}
use opusref.Reflector.Admission.{find_or_nil}
use opusref.Reflector.Control.{control_request, control}
use opusref.Reflector.Delivered.{grant-encode_refused}
use opusref.Reflector.Duplicates.{transact_first}
use opusref.Reflector.InVain.{Keyed, no_whole_second, Held, notify_listeners-Held}

request_floor_grants :
    (e : Engine) (now id stream : ℕ) (source : List ℕ)
    → (request_floor e now id stream source).1 ≡ floor_granted
    → (let e' = (request_floor e now id stream source).0 in
        (e'.floor ≡ some (new_floor now id stream source)) × (e'.limits ≡ e.limits))
unfolding request_floor
request_floor_grants e now id stream source h = (ground (arith, h), ground (arith, h))

control_request-granted :
    (lib : Library) (now id : ℕ) (r : Reflector) (p : Packet)
    → r.engine.limits.transmit_time_limit < second
    → Keyed r
    → (request_floor r.engine now id p.header.stream_id
        (trim_space (find_or_nil p TlvType.source_callsign))).1
      ≡ floor_granted
    → (let f =
          new_floor now id p.header.stream_id
            (trim_space (find_or_nil p TlvType.source_callsign)) in
        Held r f (control_request lib r now id p).0
        × ((response : Packet) × ((control_request lib r now id p).1 ≡ some response)
            × (encode response ≡ err malformed_packet)))
unfolding control_request
control_request-granted lib now id r p short keyed granted =
    let stream = p.header.stream_id in
    let source = trim_space (find_or_nil p TlvType.source_callsign) in
    let engine = (request_floor r.engine now id stream source).0 in
    let (floor, limits) = request_floor_grants r.engine now id stream source granted in
    rw (granted, control_request)
      (
        notify_listeners-Held r (new_floor now id stream source) lib now (floor_snapshot engine now)
            (keys r.peers) (record r { engine = engine }) short
            (record {
              floor = floor;
              limits = limits;
              transport = refl;
              transactions = refl;
              keyed = keyed;
            }),
        (
          grant_packet id p (find_or_nil p TlvType.transaction_id)
              engine.limits.transmit_time_limit,
          refl,
          grant-encode_refused id p (find_or_nil p TlvType.transaction_id)
              engine.limits.transmit_time_limit (no_whole_second _ (rw limits short)),
        ),
      )

transact_new-unencoded :
    (lib : Library) (r : Reflector) (now : ℕ) (address : List ℕ) (p : Packet) (tx : List ℕ)
    (key : CompletedKey) (fingerprint : List ℕ)
    (apply : Reflector → Packet → Reflector × Option Packet) (response : Packet)
    → length r.transactions < r.engine.limits.max_completed_transactions
    → count_session p.header.session_id r.transactions
      < capacity r.options.max_completed_transactions_per_session
    → (apply r p).1 ≡ some response
    → encode response ≡ err malformed_packet
    → transact_new lib r now address p tx key fingerprint apply ≡ ((apply r p).0, false)
unfolding transact_new
transact_new-unencoded lib r now address p tx key fingerprint apply response room share answers
      refused =
    ground (arith, room, share, answers, refused)

control_is_request :
    (lib : Library) (now id : ℕ) (r : Reflector) (p : Packet)
    → p.header.typ ≡ PacketType.stream_request
    → control lib now id r p ≡ control_request lib r now id p
unfolding control
control_is_request lib now id r p typ = ground (arith, typ)

-- A new STREAM_REQUEST of a ready session while the floor is free, the tables of answers have room and
-- the transmit time limit is below one second: the session gets the floor for the stream, but nothing
-- is queued for anyone, neither an answer nor a STREAM_START for a listener; no answer is kept either,
-- and transact reports that it has given none.
pub transact_unanswered :
    (lib : Library) (r : Reflector) (now id : ℕ) (address : List ℕ) (p : Packet) (tx : List ℕ)
    → Keyed r
    → (p.header.typ ≡ PacketType.stream_request) × (p.header.stream_id ≢ 0)
    → find p TlvType.transaction_id ≡ some tx
    → lookup (transaction_key address (sorted p) (be64 tx)) r.transactions ≡ none
    → (is_ready (lookup id r.engine.sessions) ≡ true)
      × (r.engine.draining ≡ false)
      × (r.engine.floor ≡ none)
    → (length r.transactions < r.engine.limits.max_completed_transactions)
      × (count_session p.header.session_id r.transactions
          < capacity r.options.max_completed_transactions_per_session)
    → r.engine.limits.transmit_time_limit < second
    → (let (r', answered) = transact lib r now address p (control lib now id) in
        (answered ≡ false)
        × ((f : Floor) × (r'.engine.floor ≡ some f)
            × (f.owner ≡ id)
            × (f.stream ≡ p.header.stream_id))
        × (r'.transport ≡ r.transport)
        × (r'.transactions ≡ r.transactions))
transact_unanswered lib r now id address p tx keyed (typ, stream) found new (ready, runs, free)
      (room, share) short =
    let q = sorted p in
    let source = trim_space (find_or_nil q TlvType.source_callsign) in
    let granted =
      (request_floor-granted_iff r.engine now id p.header.stream_id source).1
        (ready, runs, stream, free) in
    let (held, (response, answers, refused)) =
      control_request-granted lib now id r q short keyed (unfold sorted in granted) in
    let asked = control_is_request lib now id r q (unfold sorted in typ) in
    let first = transact_first lib r now address p tx (control lib now id) found new in
    let whole =
      transact_new-unencoded lib r now address q tx (transaction_key address q (be64 tx))
        (fingerprint_of q) (control lib now id) response room (unfold sorted in share)
        (ap (λ x. x.1) asked ∙ answers) refused in
    rw (first, whole, asked)
      (
        refl,
        (new_floor now id q.header.stream_id source, held.floor, refl, unfold sorted in refl),
        held.transport,
        held.transactions,
      )
