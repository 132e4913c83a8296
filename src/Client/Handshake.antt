-- ===== src/Client/Handshake.antt =====
-- pkg/client/udp.go and pkg/server/reflector.go: the two ends of the handshake, set against each other.
use opusref.Base.{
  ℕ, ◌≤◌, ◌<◌, ◌-◌, ◌*◌, ◌≡◌, refl, List, ◌++◌, true, ◌&&◌, length, take, drop, put64, some, ok,
  insert, lookup-insert, Bytes-Key, bytes_equal_refl, capacity, ap, arith,
}
use opusref.Wire.Types.{Packet}
use opusref.Wire.TlvType
use opusref.Wire.Tlv.{valid_padded_identifier}
use opusref.Wire.Types.{callsign_size}
use opusref.Wire.Helpers.{find, find_extension, uint64_tlv, callsign, trim_space}
use opusref.Wire.Helpers.Names.{callsign-trim_space}
use opusref.Engine.Types.{second}
use opusref.Reflector.State.{Challenge, Reflector, Library}
use opusref.Reflector.Packets.{or_nil}
use opusref.Reflector.Admission.{
  find_or_nil, read_random, own_id, challenge_packet, hello, expected_tag, tag_matches,
  answers_challenge, admit, authenticate,
}
use opusref.Client.Packets.{hello_packet, authenticate_packet, authenticated_bytes}

callsign-valid :
    (unicode_upper : List ℕ → List ℕ) (name node : List ℕ)
    → callsign unicode_upper name ≡ ok node
    → valid_padded_identifier node callsign_size ≡ true
unfolding callsign
callsign-valid unicode_upper name node h = ground (arith, h)

module _ (lib : Library) (r : Reflector) (now : ℕ) (address : List ℕ) (tx : ℕ)
    (node nonce : List ℕ) where
  -- The challenge that the reflector keeps, and what it leaves.
  abbrev made : Challenge
  made = record { node = trim_space node; client = nonce; server = take 32 r.random; at = now }

  abbrev challenging : Reflector
  challenging = record r {
    random = drop 32 r.random;
    challenges = insert (address ++ put64 tx) made r.challenges;
  }

  abbrev sent : Packet
  sent = challenge_packet (put64 tx) (take 32 r.random) (own_id lib r) r.options.display_name

  hello-challenges :
      length r.challenges < capacity r.options.max_pending_challenges
      → 32 ≤ length r.random
      → hello lib now address r (hello_packet tx node nonce) ≡ (challenging, some sent)
  unfolding hello hello_packet find_or_nil find find_extension uint64_tlv read_random
  hello-challenges room enough = ground (arith, room, enough)

  same_tag :
      callsign lib.unicode_upper (trim_space node) ≡ ok node
      → expected_tag lib challenging made
        ≡ lib.hmac_sha256 r.options.shared_key (authenticated_bytes node nonce sent)
  unfolding expected_tag authenticated_bytes challenge_packet find find_extension or_nil
  same_tag known = rw (known, expected_tag) refl

  transaction_of_authenticate :
      find_or_nil
        (authenticate_packet lib.hmac_sha256 r.options.shared_key tx node nonce sent)
        TlvType.transaction_id
      ≡ put64 tx
  unfolding authenticate_packet find_or_nil find find_extension uint64_tlv
  transaction_of_authenticate = refl

  answered :
      (later : ℕ)
      → callsign lib.unicode_upper (trim_space node) ≡ ok node
      → later - now ≤ 10 * second
      → (let p = authenticate_packet lib.hmac_sha256 r.options.shared_key tx node nonce sent in
          (answers_challenge p later made && tag_matches lib challenging p made) ≡ true)
  unfolding answers_challenge tag_matches authenticate_packet authenticated_bytes challenge_packet
      find_or_nil find find_extension uint64_tlv
  answered later known soon = ground (
    arith,
    soon,
    same_tag known,
    bytes_equal_refl nonce,
    bytes_equal_refl (take 32 r.random),
    bytes_equal_refl (lib.hmac_sha256 r.options.shared_key (authenticated_bytes node nonce sent)),
  )

  authenticate-admits :
      (later : ℕ)
      → callsign lib.unicode_upper (trim_space node) ≡ ok node
      → later - now ≤ 10 * second
      → (let p = authenticate_packet lib.hmac_sha256 r.options.shared_key tx node nonce sent in
          authenticate lib later address challenging p
          ≡ admit lib later address challenging (put64 tx) made)
  unfolding authenticate
  authenticate-admits later known soon = ground (
    arith,
    answered later known soon,
    transaction_of_authenticate,
    lookup-insert (address ++ put64 tx) (address ++ put64 tx) made r.challenges,
    bytes_equal_refl (address ++ put64 tx),
  )

pub authenticate-hello :
    (lib : Library) (r : Reflector) (now later : ℕ) (address : List ℕ) (tx : ℕ)
    (name node nonce : List ℕ)
    → callsign lib.unicode_upper name ≡ ok node
    → length r.challenges < capacity r.options.max_pending_challenges
    → 32 ≤ length r.random
    → later - now ≤ 10 * second
    → (let challenging = (hello lib now address r (hello_packet tx node nonce)).0 in
        (challenge : Packet) × (c : Challenge) × ((hello lib now address r
            (hello_packet tx node nonce)).1
          ≡ some challenge)
        × (c.node ≡ trim_space node)
        × (authenticate lib later address challenging
              (authenticate_packet lib.hmac_sha256 r.options.shared_key tx node nonce challenge)
            ≡ admit lib later address challenging (put64 tx) c))
authenticate-hello lib r now later address tx name node nonce valid room enough soon =
    let said = hello-challenges lib r now address tx node nonce room enough in
    let known =
      callsign-trim_space lib.unicode_upper node
        (callsign-valid lib.unicode_upper name node valid) in
    (
      sent lib r now address tx node nonce,
      made lib r now address tx node nonce,
      ap (λ x. x.1) said,
      refl,
      rw said (authenticate-admits lib r now address tx node nonce later known soon),
    )
