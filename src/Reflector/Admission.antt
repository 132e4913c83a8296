-- ===== src/Reflector/Admission.antt =====
-- pkg/server/reflector.go: the admission of a client, in two requests.
use opusref.Base.{
  ℕ, zero, suc, ◌-◌, ◌*◌, List, [], ◌∷◌, ◌++◌, Bool, true, false, not, ◌&&◌, ◌==◌, leb, ltb,
  if◌then◌else◌, length, take, drop, be64, Option, none, some, lookup, insert, delete, Bytes-Key,
  ℕ-Key, bytes_equal, capacity,
}
use opusref.Wire.Types.{Packet, flag_response}
use opusref.Wire.PacketType
use opusref.Wire.TlvType
use opusref.Wire.Helpers.{find, callsign, reflector_id, trim_space}
use opusref.Engine.Types.{second, Engine}
use opusref.Engine.Ops.{add_session}
use opusref.Reflector.State.{Challenge, Peer, Reflector, Library}
use opusref.Reflector.Packets.{tlv, header, or_nil}

-- `value, _ := wire.Find(p, typ)`.
unfoldable pub find_or_nil : Packet → ℕ → List ℕ
find_or_nil p typ = elim (find p typ) [ none ↦ [] | some value ↦ value ]

-- io.ReadFull of the random bytes: what is left, and the bytes where there are enough.
unfoldable pub read_random : ℕ → List ℕ → List ℕ × Option (List ℕ)
read_random size random =
    if ltb (length random) size then ([], none) else (drop size random, some (take size random))

abbrev pub own_id : Library → Reflector → List ℕ
own_id lib r = or_nil (reflector_id lib.unicode_upper r.options.id)

unfoldable pub challenge_packet : List ℕ → List ℕ → List ℕ → List ℕ → Packet
challenge_packet tx server id display_name = record {
  header = header PacketType.challenge flag_response 0 0;
  extensions =
      tlv TlvType.transaction_id tx
      ∷ tlv TlvType.server_nonce server
      ∷ tlv TlvType.reflector_id id
      ∷ tlv TlvType.display_name display_name
      ∷ [];
  payload = [];
}

unfoldable pub welcome_packet : ℕ → List ℕ → List ℕ → List ℕ → Packet
welcome_packet session_id tx id display_name = record {
  header = header PacketType.welcome flag_response session_id 0;
  extensions =
      tlv TlvType.transaction_id tx
      ∷ tlv TlvType.reflector_id id
      ∷ tlv TlvType.display_name display_name
      ∷ [];
  payload = [];
}

-- hello; `none` is the empty packet, which transact takes for no answer.
unfoldable pub hello : Library → ℕ → List ℕ → Reflector → Packet → Reflector × Option Packet
hello lib now address r p =
    let tx = find_or_nil p TlvType.transaction_id in
    if leb (capacity r.options.max_pending_challenges) (length r.challenges)
    then (r, none)
    else let (random, nonce) = read_random 32 r.random in
      elim nonce [
        | none ↦ (record r { random = random }, none)
        | some server ↦
            let challenge : Challenge = record {
              node = trim_space (find_or_nil p TlvType.node_callsign);
              client = find_or_nil p TlvType.client_nonce;
              server = server;
              at = now;
            } in
            (
              record r {
                random = random;
                challenges = insert (address ++ tx) challenge r.challenges;
              },
              some (challenge_packet tx server (own_id lib r) r.options.display_name),
            )
      ]

-- "OPRF-AUTH-V1".
abbrev pub auth_context : List ℕ
auth_context =
    b'O' ∷ b'P' ∷ b'R' ∷ b'F' ∷ b'-' ∷ b'A' ∷ b'U' ∷ b'T' ∷ b'H' ∷ b'-' ∷ b'V' ∷ b'1' ∷ []

-- The tag that an AUTHENTICATE must carry for this challenge: the HMAC of what was written to it.
unfoldable pub expected_tag : Library → Reflector → Challenge → List ℕ
expected_tag lib r c = lib.hmac_sha256 r.options.shared_key (
    auth_context
    ++ (or_nil (callsign lib.unicode_upper c.node) ++ (c.client ++ (c.server ++ own_id lib r))))

-- Whether the request carries that tag, where there is a shared key.
unfoldable pub tag_matches : Library → Reflector → Packet → Challenge → Bool
tag_matches lib r p c =
    if length r.options.shared_key == 0 then true else elim (find p TlvType.authentication_tag) [
      | none ↦ false
      | some tag ↦ bytes_equal tag (expected_tag lib r c)
    ]

-- The loop that draws a session ID until AddSession takes it. `fuel` is the number of bytes that
-- the reader has, as in transactionID.
unfoldable pub draw_session :
    ℕ → List ℕ → Engine → ℕ → List ℕ → List ℕ → List ℕ × Option (Engine × ℕ)
draw_session zero random e now address node = (random, none)
draw_session (suc fuel) random e now address node =
    let again = draw_session fuel (drop 8 random) e now address node in
    let sid = be64 (take 8 random) in
    let (e', added) = add_session e now sid address node false in
    if ltb (length random) 8
    then ([], none)
    else if not (sid == 0) && added
    then (drop 8 random, some (e', sid))
    else again

-- The rest of authenticate, once the request has proved what it must.
unfoldable pub admit :
    Library → ℕ → List ℕ → Reflector → List ℕ → Challenge → Reflector × Option Packet
admit lib now address r tx c =
    if leb r.engine.limits.max_clients (length r.engine.sessions)
    then (r, none)
    else let (random, drawn) =
        draw_session (length r.random) r.random r.engine now address c.node in
      elim drawn [
        | none ↦ (record r { random = random }, none)
        | some (engine, sid) ↦
            let peer : Peer = record {
              id = sid;
              address = address;
              node = c.node;
              ready = false;
              notified = false;
              receiving = false;
              connected = now;
              last = now;
            } in
            (
              record r {
                random = random;
                engine = engine;
                peers = insert sid peer r.peers;
                challenges = delete (address ++ tx) r.challenges;
              },
              some (welcome_packet sid tx (own_id lib r) r.options.display_name),
            )
      ]

-- Whether the request answers this challenge in time and with its two nonces.
unfoldable pub answers_challenge : Packet → ℕ → Challenge → Bool
answers_challenge p now c =
    not (ltb (10 * second) (now - c.at))
    && bytes_equal (find_or_nil p TlvType.client_nonce) c.client
    && bytes_equal (find_or_nil p TlvType.server_nonce) c.server

unfoldable pub authenticate : Library → ℕ → List ℕ → Reflector → Packet → Reflector × Option Packet
authenticate lib now address r p =
    let tx = find_or_nil p TlvType.transaction_id in
    elim (lookup (address ++ tx) r.challenges) [
      | none ↦ (r, none)
      | some c ↦
          if answers_challenge p now c && tag_matches lib r p c
          then admit lib now address r tx c
          else (r, none)
    ]
