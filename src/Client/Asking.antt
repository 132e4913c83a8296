-- ===== src/Client/Asking.antt =====
-- pkg/client/udp.go: what `request` returns is an answer to what it has written.
use opusref.Base.{
  if_rule, list_rule, result_rule, suc, ℕ, ◌≤◌, ◌+◌, ◌≡◌, refl, ◌∙◌, subst, List, All, [], ◌∷◌,
  ◌++◌, true, not, ◌==◌, ltb, if◌then◌else◌, length, none, Option-cases, Bool-cases, inl, inr, ok,
  err, lookup, insert, lookup-insert, lookup-delete, contains, arith,
}
use opusref.Wire.Types.{Packet}
use opusref.Wire.PacketType
use opusref.Wire.Codec.{encode}
use opusref.Reflector.Answers.{sorted, fingerprint_of}
use opusref.Reflector.Duplicates.{retried, fingerprint_of-retried}
use opusref.Client.Receiving.{RequestKey, RequestKey-Key, request_key_equal_iff, Receiver}
use opusref.Client.Requests.{
  unwritten, turns, Attempt, Asked, request_key, responses_of, conclude, attempts, request_waits,
  request,
}
use opusref.Client.Replies.{IsReply, Awaiting, turns-Awaiting}

-- A packet that the reflector takes for the request p, or a repetition of it.
abbrev pub SameRequest : Packet → Packet → Type 0
SameRequest p q = fingerprint_of (sorted q) ≡ fingerprint_of (sorted p)

conclude-ok :
    (s : Receiver) (wants : List ℕ) (q q' : Packet)
    → (conclude s wants q).1 ≡ ok q'
    → (q ≡ q') × (contains wants q.header.typ ≡ true)
unfolding conclude
conclude-ok s wants q q' h = ground (arith, h)

responses_of-IsReply :
    (session : ℕ) (key : RequestKey) (types : List ℕ) (s : Receiver) {q : Packet}
    {others : List Packet}
    → Awaiting session key types s
    → responses_of s key ≡ q ∷ others
    → IsReply session key types q
unfolding responses_of
responses_of-IsReply session key types s {q} {others} w h =
    elim (Option-cases (lookup key s.pending)) [
      | inl e ↦ ground (arith, h, e)
      | inr (held, e) ↦ w.replies held q others e (ground (arith, h, e))
    ]

module _ (session : ℕ) (key : RequestKey) (wants types : List ℕ) (p : Packet) where
  record Sound (most : ℕ) (x : Asked) : Type 0 where
    all_same : All (SameRequest p) x.written
    few : length x.written ≤ most
    reply : (q : Packet) → x.result ≡ ok q → IsReply session key wants q

  Sound-conclude :
      (s : Receiver) (most : ℕ) (sent q : Packet)
      → SameRequest p sent
      → IsReply session key types q
      → Sound (suc most) (record {
        receiver = (conclude s wants q).0;
        written = sent ∷ [];
        result = (conclude s wants q).1;
      })
  Sound-conclude s most sent q same answer = record {
    all_same = (same, tt);
    few = omega arith;
    reply = λ q' h.
        let (equal, wanted) = conclude-ok s wants q q' h in
        subst (IsReply session key wants) equal (record {
          wanted = wanted;
          session_id = answer.session_id;
          stream_id = answer.stream_id;
          tx = answer.tx;
        });
  }

  sent-SameRequest :
      (attempt : ℕ) (q : Packet)
      → SameRequest p q
      → SameRequest p (if attempt == 0 then q else retried q)
  sent-SameRequest attempt q same =
      if_rule (SameRequest p) (attempt == 0) (λ _. same) (λ _. fingerprint_of-retried q ∙ same)

  attempts-Sound :
      (during : ℕ → Attempt) (waits : List ℕ) (attempt : ℕ) (s : Receiver) (q : Packet)
      → SameRequest p q
      → Awaiting session key types s
      → Sound (length waits) (attempts during key wants waits attempt s q)
  unfolding attempts
  attempts-Sound during [] attempt s q same w = record {
    all_same = tt;
    few = omega arith;
    reply = λ _ h. ground (arith, h);
  }
  attempts-Sound during (wait ∷ waits) attempt s q same w =
      let sent = if attempt == 0 then q else retried q in
      let sent_same = sent-SameRequest attempt q same in
      let s' = turns s (during attempt).rounds in
      let w' = turns-Awaiting session key types s (during attempt).rounds w in
      let more = attempts-Sound during waits (attempt + 1) s' sent sent_same w' in
      let unsent : Sound (suc (length waits))
          (record { receiver = s; written = []; result = err unwritten }) =
        record { all_same = tt; few = omega arith; reply = λ _ h. ground (arith, h) } in
      result_rule (Sound (suc (length waits))) (encode sent) (λ _ _. unsent)
        λ _ _.
          if_rule (Sound (suc (length waits))) (not (during attempt).writes) (λ _. unsent)
            λ _.
              if_rule (Sound (suc (length waits))) (during attempt).is_cancelled
                (λ _. record {
                  all_same = (sent_same, tt);
                  few = omega arith;
                  reply = λ _ h. ground (arith, h);
                })
                λ _.
                  list_rule (Sound (suc (length waits))) (responses_of s' key)
                    (λ _. record {
                      all_same = (sent_same, more.all_same);
                      few = omega (arith, more.few);
                      reply = more.reply;
                    })
                    (λ reply others h.
                      Sound-conclude s' (length waits) sent reply sent_same
                        (responses_of-IsReply session key types s' w' h))

-- The state in which a request waits first.
registered-Awaiting :
    (s : Receiver) (key : RequestKey) (types : List ℕ)
    → Awaiting s.session key types (record s {
      control_tokens = s.control_tokens + 1;
      pending = insert key (record { responses = []; types = types }) s.pending;
    })
registered-Awaiting s key types =
    let looked = lookup-insert key key (record { responses = []; types = types }) s.pending in
    let same = (request_key_equal_iff key key).1 refl in
    record {
      same = refl;
      expected = λ q e. ground (arith, e, looked, same);
      replies = λ q reply others e held. ground (arith, e, looked, same, held);
    }

-- Whatever processLoop receives and expires meanwhile, and whichever attempts the socket takes, a packet
-- that a request returns is of a type that was wanted, comes from the client's own session, and has the
-- transaction ID and the stream ID of the request. The request was written at most four times, each
-- time so that its fingerprint at the reflector is the same, and it waits for nothing any more.
pub request-IsReply :
    (during : ℕ → Attempt) (wants : List ℕ) (s : Receiver) (p : Packet) {reply : Packet}
    → (request during wants s p).result ≡ ok reply
    → IsReply s.session (request_key p) wants reply
      × All (SameRequest p) (request during wants s p).written
      × (length (request during wants s p).written ≤ 4)
      × (lookup (request_key p) (request during wants s p).receiver.pending ≡ none)
unfolding request
request-IsReply during wants s p {reply} h =
    let key = request_key p in
    let types = wants ++ (PacketType.error ∷ []) in
    let s' : Receiver = record s {
      control_tokens = s.control_tokens + 1;
      pending = insert key (record { responses = []; types = types }) s.pending;
    } in
    let sound =
      attempts-Sound s.session key wants types p during request_waits 0 s' p refl
        (registered-Awaiting s key types) in
    elim (Bool-cases (ltb s.control_tokens s.control_capacity)) [
      | inr full ↦ ground (arith, h, full)
      | inl room ↦ ground (
        arith,
        room,
        (request_key_equal_iff key key).1 refl,
        sound.all_same,
        sound.few,
        sound.reply reply,
        h,
        lookup-delete key key (attempts during key wants request_waits 0 s' p).receiver.pending,
      )
    ]
