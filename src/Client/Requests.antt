-- ===== src/Client/Requests.antt =====
-- pkg/client/udp.go: `request`, with the rounds of processLoop that fall into its waits. What happens in
-- each attempt is given: the timer of the wait is one of the things that can end it.
use opusref.Base.{
  ℕ, ◌+◌, ◌-◌, ◌*◌, List, [], ◌∷◌, ◌++◌, Bool, not, ◌==◌, ltb, if◌then◌else◌, be64, none, some,
  Result, ok, err, lookup, insert, delete, contains,
}
use opusref.Wire.Types.{Packet}
use opusref.Wire.PacketType
use opusref.Wire.TlvType
use opusref.Wire.Codec.{encode}
use opusref.Wire.Helpers.{find}
use opusref.Engine.Types.{second}
use opusref.Reflector.Duplicates.{retried}
use opusref.Client.Types.{control_backpressure}
use opusref.Client.Queue.{fail}
use opusref.Client.Receiving.{
  RequestKey, RequestKey-Key, Receiver, found_or_empty, protocol_error_event,
}
use opusref.Client.Processing.{receive, expire_remote, published_to}

-- A round of processLoop, which does not go on once it has returned.
pub data Turn : Type 0 where
  takes : ℕ → List ℕ → Turn
  expires : ℕ → Turn

unfoldable pub turn : Receiver → Turn → Receiver
turn s (takes now bytes) =
    let r = receive s now bytes in if s.gone then s else published_to r.receiver r.published
turn s (expires now) =
    let (s', event) = expire_remote s now in if s.gone then s else published_to s' event

unfoldable pub turns : Receiver → List Turn → Receiver
turns s [] = s
turns s (t ∷ rest) = turns (turn s t) rest

-- The errors of `request`.
pub data RequestError : Type 0 where
  no_token unwritten cancelled unexpected_response timed_out : RequestError
  protocol_failure : ℕ → List ℕ → RequestError

-- What happens in an attempt: whether the socket takes the datagram, what processLoop does until the
-- wait ends, and whether the context ends it.
pub record Attempt : Type 0 where
  pub writes : Bool
  pub rounds : List Turn
  pub is_cancelled : Bool

-- What a request leaves, the packets that it has written, and what it returns.
pub record Asked : Type 0 where
  pub receiver : Receiver
  pub written : List Packet
  pub result : Result RequestError Packet

abbrev pub request_key : Packet → RequestKey
request_key p = record {
  tx = be64 (found_or_empty (find p TlvType.transaction_id));
  stream = p.header.stream_id;
}

-- The channel `responses` of a request.
unfoldable pub responses_of : Receiver → RequestKey → List Packet
responses_of s key = elim (lookup key s.pending) [ none ↦ [] | some q ↦ q.responses ]

-- What request makes of a reply.
unfoldable pub conclude : Receiver → List ℕ → Packet → Receiver × Result RequestError Packet
conclude s wants reply =
    let event = protocol_error_event reply in
    if reply.header.typ == PacketType.error
    then (
      published_to s (some event),
      err (protocol_failure event.protocol_error_code event.message),
    )
    else if contains wants reply.header.typ
    then (s, ok reply)
    else (s, err unexpected_response)

-- The loop over the waits.
unfoldable pub attempts :
    (ℕ → Attempt) → RequestKey → List ℕ → List ℕ → ℕ → Receiver → Packet → Asked
attempts during key wants [] attempt s p = record {
  receiver = s;
  written = [];
  result = err timed_out;
}
attempts during key wants (wait ∷ waits) attempt s p =
    let sent = if attempt == 0 then p else retried p in
    let s' = turns s (during attempt).rounds in
    let more = attempts during key wants waits (attempt + 1) s' sent in
    elim (encode sent) [
      | err e ↦ record { receiver = s; written = []; result = err unwritten }
      | ok bytes ↦
          if not (during attempt).writes
          then record { receiver = s; written = []; result = err unwritten }
          else if (during attempt).is_cancelled
          then record { receiver = s'; written = sent ∷ []; result = err cancelled }
          else elim (responses_of s' key) [
            | [] ↦ record more { written = sent ∷ more.written }
            | reply ∷ others ↦
                let (s'', result) = conclude s' wants reply in
                record { receiver = s''; written = sent ∷ []; result = result }
          ]
    ]

abbrev pub request_waits : List ℕ
request_waits = 500_000_000 ∷ second ∷ 2 * second ∷ 2 * second ∷ []

-- A request, with a control token while it lasts.
unfoldable pub request : (ℕ → Attempt) → List ℕ → Receiver → Packet → Asked
request during wants s p =
    let key = request_key p in
    let asked =
      attempts during key wants request_waits 0
        (record s {
          control_tokens = s.control_tokens + 1;
          pending =
              insert key (record { responses = []; types = wants ++ (PacketType.error ∷ []) })
                s.pending;
        })
        p in
    if not (ltb s.control_tokens s.control_capacity)
    then record {
      receiver = record s { owner = fail s.owner control_backpressure };
      written = [];
      result = err no_token;
    }
    else record asked {
      receiver = record asked.receiver {
        control_tokens = asked.receiver.control_tokens - 1;
        pending = delete key asked.receiver.pending;
      };
    }
