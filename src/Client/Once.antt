-- ===== src/Client/Once.antt =====
-- pkg/client/udp.go: a stream of another client starts once, however often its STREAM_START comes.
use opusref.Base.{
  subst, ◌∙◌, ℕ, zero, suc, ◌≤◌, ◌<◌, ◌+◌, ◌≡◌, ◌≢◌, refl, List, [], ◌∷◌, true, false, ◌||◌, length,
  take, none, some, arith, ==_refl,
}
use opusref.Wire.Types.{Packet}
use opusref.Client.Sending.{revoke}
use opusref.Client.Receiving.{
  RemoteKey, Receiver, stands_in, is_retired, set_at, retire, is_remote, ack_packet, no_stream,
  RemoteStream,
}
use opusref.Client.Processing.{key_of, start_event, receive_start, receive_revoke, expire_remote}

-- The ring of ended streams has eight places.
pub record IsRing (s : Receiver) : Type 0 where
  pub size : length s.retired ≡ 8
  pub count : s.retired_count ≤ 8
  pub next : s.retired_next < 8

length-set_at :
    (i : ℕ) (key : RemoteKey) (keys : List RemoteKey) → length (set_at i key keys) ≡ length keys
unfolding set_at
length-set_at i key [] = refl
length-set_at zero key (other ∷ rest) = refl
length-set_at (suc i) key (other ∷ rest) = ground (arith, length-set_at i key rest)

stands_in-set_at :
    (i n : ℕ) (key : RemoteKey) (keys : List RemoteKey)
    → i < n
    → n ≤ length keys
    → stands_in key (take n (set_at i key keys)) ≡ true
unfolding stands_in set_at
stands_in-set_at i zero key keys h k = ground (arith, h)
stands_in-set_at i (suc n) key [] h k = ground (arith, k)
stands_in-set_at zero (suc n) key (other ∷ rest) h k =
    ground (arith, ==_refl key.owner, ==_refl key.stream)
stands_in-set_at (suc i) (suc n) key (other ∷ rest) h k =
    ground (arith, h, k, stands_in-set_at i n key rest)

-- retireLocked puts a stream into the ring, if it is not there.
is_retired-retire :
    (s : Receiver) (key : RemoteKey)
    → IsRing s
    → key.stream ≢ 0
    → is_retired (retire s key) key ≡ true
unfolding is_retired retire
is_retired-retire s key ring real = ground (
  arith,
  ring.size,
  ring.count,
  ring.next,
  real,
  stands_in-set_at s.retired_count (s.retired_count + 1) key s.retired,
  stands_in-set_at s.retired_next s.retired_count key s.retired,
)

-- A STREAM_START of a stream that is received or has ended is acknowledged, and no more.
receive_start-again :
    (s : Receiver) (now : ℕ) (p : Packet)
    → (is_remote s (key_of p) || is_retired s (key_of p)) ≡ true
    → receive_start s now p ≡ record { receiver = s; written = ack_packet s p; published = none }
unfolding receive_start
receive_start-again s now p h = ground (arith, h)

receive_start-known :
    (s x : Receiver) (now : ℕ) (p : Packet)
    → x.session ≡ s.session
    → (is_remote x (key_of p) || is_retired x (key_of p)) ≡ true
    → receive_start x now p ≡ record { receiver = x; written = ack_packet s p; published = none }
unfolding ack_packet
receive_start-known s x now p same known =
    subst
      (λ id. receive_start x now p ≡ record {
        receiver = x;
        written = ack_packet (record x { session = id }) p;
        published = none;
      })
      same (receive_start-again x now p known)

-- What the reception of a new STREAM_START leaves.
receive_start-first :
    (s : Receiver) (now : ℕ) (p : Packet)
    → IsRing s
    → is_remote s (key_of p) ≡ false
    → is_retired s (key_of p) ≡ false
    → (let r = receive_start s now p in
        (r.published ≡ some (start_event p))
        × (is_remote r.receiver (key_of p) ≡ true)
        × (r.receiver.session ≡ s.session)
        × IsRing r.receiver)
unfolding receive_start retire
receive_start-first s now p ring new fresh = ground (
  arith,
  new,
  fresh,
  ring.size,
  ring.count,
  ring.next,
  ==_refl p.header.session_id,
  ==_refl p.header.stream_id,
  length-set_at s.retired_count (record { owner = s.remote.owner; stream = s.remote.stream })
      s.retired,
  length-set_at s.retired_next (record { owner = s.remote.owner; stream = s.remote.stream })
      s.retired,
)

session-retire : (s : Receiver) (key : RemoteKey) → (retire s key).session ≡ s.session
unfolding retire
session-retire s key = ground arith

-- The ring does not depend on the stream that is received.
is_retired-remote :
    (s : Receiver) (remote : RemoteStream) (key : RemoteKey)
    → is_retired (record s { remote = remote }) key ≡ is_retired s key
unfolding is_retired
is_retired-remote s remote key = refl

-- What ends a stream remembers it.
receive_revoke-retires :
    (s : Receiver) (q : Packet)
    → IsRing s
    → q.header.stream_id ≢ 0
    → (is_retired (receive_revoke s q).receiver (key_of q) ≡ true)
      × ((receive_revoke s q).receiver.session ≡ s.session)
unfolding receive_revoke
receive_revoke-retires s q ring real =
    let s' : Receiver = record s { owner = (revoke s.owner q.header.stream_id).0 } in
    let ring' : IsRing s' = record { size = ring.size; count = ring.count; next = ring.next } in
    ground (
      arith,
      real,
      is_retired-retire s (key_of q) ring real,
      is_retired-retire s' (key_of q) ring' real,
      session-retire s (key_of q),
      session-retire s' (key_of q),
      is_retired-remote (retire s (key_of q)) no_stream (key_of q),
      is_retired-remote (retire s' (key_of q)) no_stream (key_of q),
    )

expire_remote-retires :
    (s : Receiver) (now : ℕ) (key : RemoteKey)
    → IsRing s
    → key.stream ≢ 0
    → is_remote s key ≡ true
    → ((is_remote (expire_remote s now).0 key || is_retired (expire_remote s now).0 key) ≡ true)
      × ((expire_remote s now).0.session ≡ s.session)
unfolding expire_remote
expire_remote-retires s now key ring real remote = ground (
  arith,
  real,
  remote,
  is_retired-retire s key ring real,
  session-retire s key,
  is_retired-remote (retire s key) no_stream key,
)

pub receive_start-once :
    (s : Receiver) (now later end : ℕ) (p q : Packet)
    → IsRing s
    → p.header.stream_id ≢ 0
    → key_of q ≡ key_of p
    → is_remote s (key_of p) ≡ false
    → is_retired s (key_of p) ≡ false
    → (let r = (receive_start s now p).receiver in
        let revoked = (receive_revoke r q).receiver in
        let expired = (expire_remote r end).0 in
        ((receive_start s now p).published ≡ some (start_event p))
        × (receive_start r later p
            ≡ record { receiver = r; written = ack_packet s p; published = none })
        × (receive_start revoked later p
            ≡ record { receiver = revoked; written = ack_packet s p; published = none })
        × (receive_start expired later p
            ≡ record { receiver = expired; written = ack_packet s p; published = none }))
receive_start-once s now later end p q ring real same new fresh =
    let r = (receive_start s now p).receiver in
    let (first, remote, session, ring') = receive_start-first s now p ring new fresh in
    let (revoked, session') = receive_revoke-retires r q ring' (ground (arith, real, same)) in
    let (ended, session'') = expire_remote-retires r end (key_of p) ring' real remote in
    (
      first,
      receive_start-known s r later p session (ground (arith, remote)),
      receive_start-known s (receive_revoke r q).receiver later p (session' ∙ session) (
          subst
            (λ key.
              (is_remote (receive_revoke r q).receiver key
                || is_retired (receive_revoke r q).receiver key)
              ≡ true)
            same (ground (arith, revoked))),
      receive_start-known s (expire_remote r end).0 later p (session'' ∙ session) ended,
    )
