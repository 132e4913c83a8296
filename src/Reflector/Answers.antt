-- ===== src/Reflector/Answers.antt =====
-- pkg/server/reflector.go: requests and their answers, which are kept and sent again when a request
-- comes again.
use opusref.Base.{
  ℕ, ◌-◌, List, [], ◌∷◌, ◌++◌, Bool, false, not, ◌&&◌, ◌||◌, ◌==◌, leb, ltb, if◌then◌else◌, length,
  be64, Option, none, some, ok, err, lookup, insert, delete, has, ℕ-Key, Bytes-Key, bytes_equal,
  capacity,
}
use opusref.Wire.Types.{Tlv, Packet, has_retry, flag_response}
use opusref.Wire.PacketType
use opusref.Wire.TlvType
use opusref.Wire.Codec.{encode, decode}
use opusref.Wire.Helpers.{find, uint16_tlv}
use opusref.Engine.Transactions.{floor_snapshot}
use opusref.Transport.{enqueue_control}
use opusref.Reflector.State.{
  Completed, CompletedKey, CompletedKey-Key, Reflector, Library, keys, count_session,
}
use opusref.Reflector.Packets.{tlv, header}
use opusref.Reflector.Notify.{send_control, disconnect_peer, control_overload, notify_start}

-- The numbers of wire.ErrorCode that the reflector sends.
abbrev pub error_malformed_packet : ℕ
error_malformed_packet = 1

abbrev pub error_invalid_stream : ℕ
error_invalid_stream = 5

abbrev pub error_limit_exceeded : ℕ
error_limit_exceeded = 6

-- The bytes of `data, _ := wire.Encode(p)`.
unfoldable pub bytes_of : Packet → List ℕ
bytes_of p = elim (encode p) [ ok bytes ↦ bytes | err e ↦ [] ]

-- `if tx, ok := wire.Find(…); ok { … }`.
unfoldable pub transaction_tlv : Packet → List Tlv
transaction_tlv request = elim (find request TlvType.transaction_id) [
  | none ↦ []
  | some tx ↦ tlv TlvType.transaction_id tx ∷ []
]

abbrev pub error_packet : Packet → List Tlv → Packet
error_packet request extensions = record {
  header = header PacketType.error flag_response request.header.session_id request.header.stream_id;
  extensions = extensions;
  payload = [];
}

-- errorResponse: without the transaction ID where the answer is longer than the request.
unfoldable pub error_response : Packet → ℕ → Packet
error_response request code =
    let first = uint16_tlv TlvType.error_code code in
    let whole = error_packet request (first ∷ transaction_tlv request) in
    if ltb (length (bytes_of request)) (length (bytes_of whole))
    then error_packet request (first ∷ [])
    else whole

unfoldable pub send_error : Reflector → ℕ → List ℕ → Packet → ℕ → Reflector
send_error r now address p code =
    let response = error_response p code in
    if p.header.session_id == 0 || ltb (length (bytes_of p)) (length (bytes_of response))
    then r
    else (send_control (control_overload now) r address response).0

unfoldable pub enqueue_raw : Reflector → List ℕ → List ℕ → Reflector × Bool
enqueue_raw r address bytes =
    let (transport, queued) =
      enqueue_control r.transport (record { address = address; contents = bytes }) in
    (record r { transport = transport }, queued)

unfoldable pub replay_overload : Reflector → ℕ → List ℕ → List ℕ → Reflector
replay_overload r now address response = elim (decode response) [
  | err e ↦ r
  | ok p ↦ if p.header.session_id == 0 then r else elim (lookup p.header.session_id r.peers) [
    | none ↦ r
    | some peer ↦
        if bytes_equal peer.address address then control_overload now r p.header.session_id else r
  ]
]

unfoldable pub transaction_key : List ℕ → Packet → ℕ → CompletedKey
transaction_key address p tx = record {
  session_id = p.header.session_id;
  address = if p.header.session_id == 0 then address else [];
  typ = p.header.typ;
  tx = tx;
}

-- sort.Slice by the type. The types of a decoded packet are distinct, so that every sort gives this.
unfoldable pub insert_tlv : Tlv → List Tlv → List Tlv
insert_tlv t [] = t ∷ []
insert_tlv t (u ∷ rest) =
    let behind = insert_tlv t rest in if leb t.typ u.typ then t ∷ u ∷ rest else u ∷ behind

unfoldable pub sort_tlvs : List Tlv → List Tlv
sort_tlvs [] = []
sort_tlvs (t ∷ rest) = insert_tlv t (sort_tlvs rest)

-- The sort in place of the request's extensions, which the request itself keeps.
unfoldable pub sorted : Packet → Packet
sorted p = record p { extensions = sort_tlvs p.extensions }

-- `Flags &^= FlagRetry`.
unfoldable pub clear_retry : ℕ → ℕ
clear_retry flags = if has_retry flags then flags - 2 else flags

unfoldable pub fingerprint_of : Packet → List ℕ
fingerprint_of p =
    bytes_of (record p { header = record p.header { flags = clear_retry p.header.flags } })

-- The loop that disconnects the peers of an address whose WELCOME cannot be sent. The code drops
-- the StreamEnd that disconnectPeer may return.
unfoldable pub drop_address : Reflector → ℕ → List ℕ → List ℕ → Reflector
drop_address r now address [] = r
drop_address r now address (id ∷ ids) =
    let dropped : Reflector = elim (lookup id r.peers) [
      | none ↦ r
      | some peer ↦ if bytes_equal peer.address address then (disconnect_peer r now id).0 else r
    ] in
    drop_address dropped now address ids

-- Where the answer to a new request does not fit into the control queue.
unfoldable pub undelivered : Reflector → ℕ → List ℕ → Packet → List ℕ → CompletedKey → Reflector
undelivered r now address p tx key =
    let retained =
      if p.header.typ == PacketType.disconnect && not (p.header.session_id == 0)
      then r
      else record r { transactions = delete key r.transactions } in
    if p.header.session_id == 0
    then if p.header.typ == PacketType.hello
      then record retained { challenges = delete (address ++ tx) retained.challenges }
      else if p.header.typ == PacketType.authenticate
      then drop_address retained now address (keys retained.peers)
      else retained
    else if has (lookup p.header.session_id retained.peers)
    then control_overload now retained p.header.session_id
    else retained

-- What follows an answer that is on its way: a keepalive makes up for a STREAM_START.
unfoldable pub delivered : Library → Reflector → ℕ → Packet → Reflector
delivered lib r now p =
    if p.header.typ == PacketType.keepalive && not (p.header.session_id == 0)
    then elim (lookup p.header.session_id r.peers) [
      | none ↦ r
      | some peer ↦
          let floor = floor_snapshot r.engine now in
          if floor.active && not (floor.session_id == peer.id) && not peer.notified
          then notify_start lib r now peer.id floor
          else r
    ]
    else r

-- `response.Header.Type != wire.PacketError`.
abbrev pub is_no_error : Packet → Bool
is_no_error p = not (p.header.typ == PacketType.error)

-- transact for a request that has not been answered yet; `apply` answers it, or has no answer.
unfoldable pub transact_new :
    Library
    → Reflector
    → ℕ
    → List ℕ
    → Packet
    → List ℕ
    → CompletedKey
    → List ℕ
    → (Reflector → Packet → Reflector × Option Packet)
    → Reflector × Bool
transact_new lib r now address p tx key fingerprint apply =
    if leb r.engine.limits.max_completed_transactions (length r.transactions)
    then (send_error r now address p error_limit_exceeded, false)
    else if not (p.header.session_id == 0)
        && leb (capacity r.options.max_completed_transactions_per_session)
            (count_session p.header.session_id r.transactions)
    then (send_error r now address p error_limit_exceeded, false)
    else let (r', answer) = apply r p in
      elim answer [
        | none ↦ (r', false)
        | some response ↦ elim (encode response) [
          | err e ↦ (r', false)
          | ok bytes ↦
              let entry : Completed = record {
                fingerprint = fingerprint;
                response = bytes;
                address = address;
                at = now;
              } in
              let (r'', queued) =
                enqueue_raw (record r' { transactions = insert key entry r'.transactions }) address
                  bytes in
              if queued
              then (delivered lib r'' now p, is_no_error response)
              else (undelivered r'' now address p tx key, false)
        ]
      ]

-- transact for a request whose key is there.
unfoldable pub transact_again :
    Reflector → ℕ → List ℕ → Packet → Completed → List ℕ → Reflector × Bool
transact_again r now address p old fingerprint =
    if bytes_equal old.fingerprint fingerprint
    then (let (r', queued) = enqueue_raw r address old.response in
        if queued
        then (r', elim (decode old.response) [ err e ↦ false | ok response ↦ is_no_error response ])
        else (replay_overload r' now address old.response, false))
    else (send_error r now address p error_malformed_packet, false)

unfoldable pub transact :
    Library
    → Reflector
    → ℕ
    → List ℕ
    → Packet
    → (Reflector → Packet → Reflector × Option Packet)
    → Reflector × Bool
transact lib r now address request apply = elim (find request TlvType.transaction_id) [
  | none ↦ (r, false)
  | some tx ↦
      let p = sorted request in
      let key = transaction_key address p (be64 tx) in
      let fingerprint = fingerprint_of p in
      elim (lookup key r.transactions) [
        | some old ↦ transact_again r now address p old fingerprint
        | none ↦ transact_new lib r now address p tx key fingerprint apply
      ]
]
