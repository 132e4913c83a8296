-- ===== src/Client/Replies.antt =====
-- pkg/client/udp.go: processLoop puts only answers into the channel of a request that waits.
use opusref.Base.{
  if_rule, option_rule, result_rule, ℕ, ◌≡◌, ◌⊎◌, refl, sym, ◌∙◌, ap, subst, List, [], ◌∷◌, true,
  not, ◌&&◌, ◌==◌, be64, Option, none, some, Option-cases, Bool-cases, inl, inr, lookup, insert,
  lookup-insert, contains, arith,
}
use opusref.Wire.Types.{Packet}
use opusref.Wire.TlvType
use opusref.Wire.Codec.{decode}
use opusref.Wire.Rules.{server_to_client, ready}
use opusref.Wire.Validate.{validate}
use opusref.Wire.Helpers.{find}
use opusref.Client.Types.{Event}
use opusref.Client.Receiving.{
  RequestKey, RequestKey-Key, request_key_equal, request_key_equal_iff, PendingRequest, Receiver,
  Received, retire, found_or_empty,
}
use opusref.Client.Processing.{
  receive_media, receive_start, receive_revoke, receive_packet, answer_request, receive,
  expire_remote, published_to, is_shared,
}
use opusref.Client.Requests.{Turn, takes, expires, turn, turns, request_key}

-- An answer in a session to a request: of a type that is waited for, with the transaction ID and the
-- stream ID of the request.
pub record IsReply (session : ℕ) (key : RequestKey) (types : List ℕ) (reply : Packet) : Type 0 where
  pub wanted : contains types reply.header.typ ≡ true
  pub session_id : reply.header.session_id ≡ session
  pub stream_id : reply.header.stream_id ≡ key.stream
  pub tx : be64 (found_or_empty (find reply TlvType.transaction_id)) ≡ key.tx

-- What a packet does that answers a request: it goes into the channel of the request that has its
-- transaction ID, or is dropped where that is full.
answer_request-pending :
    (s s' : Receiver) (p : Packet)
    → answer_request s p ≡ some s'
    → (s'.session ≡ s.session)
      × ((s'.pending ≡ s.pending)
          ⊎ ((q : PendingRequest) × (lookup (request_key p) s.pending ≡ some q)
              × (contains q.types p.header.typ ≡ true)
              × (p.header.session_id ≡ s.session)
              × (s'.pending ≡ insert (request_key p) (record q { responses = p ∷ [] }) s.pending)))
unfolding answer_request
answer_request-pending s s' p h = elim (Option-cases (find p TlvType.transaction_id)) [
  | inl e ↦ ground (arith, h, e)
  | inr (raw, e) ↦ elim (Option-cases (lookup (request_key p) s.pending)) [
    | inl e' ↦ ground (arith, h, e, e')
    | inr (q, e') ↦ ground (arith, h, e, e')
  ]
]

module _ (session : ℕ) (key : RequestKey) (types : List ℕ) where
  -- What stands under the key waits for these types, and holds only answers.
  pub record Awaiting (s : Receiver) : Type 0 where
    pub same : s.session ≡ session
    pub expected : (q : PendingRequest) → lookup key s.pending ≡ some q → q.types ≡ types
    pub replies :
        (q : PendingRequest) (reply : Packet) (others : List Packet)
        → lookup key s.pending ≡ some q
        → q.responses ≡ reply ∷ others
        → IsReply session key types reply

  Awaiting-carry :
      (s s' : Receiver) → s'.session ≡ s.session → s'.pending ≡ s.pending → Awaiting s → Awaiting s'
  Awaiting-carry s s' own pending w = record {
    same = own ∙ w.same;
    expected = λ q e. w.expected q (ap (lookup key) (sym pending) ∙ e);
    replies =
        λ q reply others e held. w.replies q reply others (ap (lookup key) (sym pending) ∙ e) held;
  }

  Awaiting-insert :
      (s s' : Receiver) (p : Packet) (q' : PendingRequest)
      → Awaiting s
      → s'.session ≡ s.session
      → lookup (request_key p) s.pending ≡ some q'
      → contains q'.types p.header.typ ≡ true
      → p.header.session_id ≡ s.session
      → s'.pending ≡ insert (request_key p) (record q' { responses = p ∷ [] }) s.pending
      → Awaiting s'
  Awaiting-insert s s' p q' w own found wanted session_id pending =
      let looked =
        ap (lookup key) pending
        ∙ lookup-insert (request_key p) key (record q' { responses = p ∷ [] }) s.pending in
      elim (Bool-cases (request_key_equal (request_key p) key)) [
        | inl match ↦
            let equal = (request_key_equal_iff (request_key p) key).0 match in
            let types_of = w.expected q' (subst (λ k. lookup k s.pending ≡ some q') equal found) in
            let answer : IsReply session key types p = record {
              wanted = subst (λ ts. contains ts p.header.typ ≡ true) types_of wanted;
              session_id = session_id ∙ w.same;
              stream_id = ap (λ k. k.stream) equal;
              tx = ap (λ k. k.tx) equal;
            } in
            record {
              same = own ∙ w.same;
              expected = λ q e. ground (arith, e, looked, match, types_of);
              replies = λ q reply others e held.
                  subst (IsReply session key types) (ground (arith, e, looked, match, held)) answer;
            }
        | inr other ↦ record {
          same = own ∙ w.same;
          expected = λ q e. ground (arith, e, looked, other, w.expected q);
          replies = λ q reply others e held.
              ground (arith, e, looked, other, held, w.replies q reply others);
        }
      ]

  answer_request-Awaiting :
      (s s' : Receiver) (p : Packet) → Awaiting s → answer_request s p ≡ some s' → Awaiting s'
  answer_request-Awaiting s s' p w h =
      let (own, answered) = answer_request-pending s s' p h in
      elim answered [
        | inl pending ↦ Awaiting-carry s s' own pending w
        | inr (q, found, wanted, session_id, pending) ↦
            Awaiting-insert s s' p q w own found wanted session_id pending
      ]

  receive_packet_kept :
      (s : Receiver) (now : ℕ) (p : Packet)
      → ((receive_packet s now p).receiver.session ≡ s.session)
        × ((receive_packet s now p).receiver.pending ≡ s.pending)
  unfolding receive_packet receive_media receive_start receive_revoke retire
  receive_packet_kept s now p = ground arith

  record AwaitingAfter (x : Received) : Type 0 where
    held : Awaiting x.receiver

  receive-Awaiting :
      (s : Receiver) (now : ℕ) (bytes : List ℕ)
      → Awaiting s
      → Awaiting (receive s now bytes).receiver
  unfolding receive
  receive-Awaiting s now bytes w = after.held
    where
      after : AwaitingAfter (receive s now bytes)
      after =
          result_rule AwaitingAfter (decode bytes) (λ _ _. record { held = w })
            λ p _.
              result_rule AwaitingAfter
                (validate p (record { direction = server_to_client; phase = ready }))
                (λ _ _. record { held = w })
                λ _ _.
                  if_rule AwaitingAfter
                    (not (is_shared p.header.typ) && not (p.header.session_id == s.session))
                    (λ _. record { held = w })
                    λ _.
                      option_rule AwaitingAfter (answer_request s p)
                        (λ _.
                          let kept = receive_packet_kept s now p in
                          record { held = Awaiting-carry s _ kept.0 kept.1 w })
                        (λ s' h. record { held = answer_request-Awaiting s s' p w h })

  published_to-Awaiting :
      (s : Receiver) (event : Option Event) → Awaiting s → Awaiting (published_to s event)
  unfolding published_to
  published_to-Awaiting s none w = w
  published_to-Awaiting s (some event) w = Awaiting-carry s _ refl refl w

  expire_remote_kept :
      (s : Receiver) (now : ℕ)
      → ((expire_remote s now).0.session ≡ s.session)
        × ((expire_remote s now).0.pending ≡ s.pending)
  unfolding expire_remote retire
  expire_remote_kept s now = ground arith

  turn-Awaiting : (s : Receiver) (t : Turn) → Awaiting s → Awaiting (turn s t)
  unfolding turn
  turn-Awaiting s (takes now bytes) w =
      if_rule Awaiting s.gone (λ _. w)
        (λ _. published_to-Awaiting _ _ (receive-Awaiting s now bytes w))
  turn-Awaiting s (expires now) w =
      let kept = expire_remote_kept s now in
      if_rule Awaiting s.gone (λ _. w)
        (λ _. published_to-Awaiting _ _ (Awaiting-carry s _ kept.0 kept.1 w))

  pub turns-Awaiting : (s : Receiver) (rounds : List Turn) → Awaiting s → Awaiting (turns s rounds)
  unfolding turns
  turns-Awaiting s [] w = w
  turns-Awaiting s (t ∷ rest) w = turns-Awaiting (turn s t) rest (turn-Awaiting s t w)
