-- ===== src/Reflector/Invariant/Requests.antt =====
-- pkg/server/reflector.go: what the requests of clients keep of the tables.
use opusref.Base.{
  Option-cases, inl, inr, bytes_equal_iff, ◌*◌, ◌-◌, ◌≢◌, [], First, if_rule, option_rule, ◌≢◌, ℕ,
  ◌≤◌, ◌≡◌, refl, List, ◌++◌, Bool, true, false, ◌&&◌, ◌==◌, leb, if◌then◌else◌, length, some,
  lookup, insert, lookup-insert, length-insert, length-delete-le, ℕ-Key, Bytes-Key, arith, capacity,
  subst,
}
use opusref.Wire.Types.{Packet}
use opusref.Wire.TlvType
use opusref.Wire.Helpers.{trim_space}
use opusref.Engine.Types.{Session, Engine}
use opusref.Engine.Ops.{add_session}
use opusref.Engine.Invariant.{Inv, add_session-Inv}
use opusref.Reflector.State.{Challenge, Peer, NotificationKey-Key, Reflector, Library}
use opusref.Engine.Types.{second}
use opusref.Wire.Helpers.{callsign, find}
use opusref.Reflector.Packets.{or_nil}
use opusref.Reflector.Admission.{
  auth_context, expected_tag, own_id, draw_session, read_random, admit, hello, authenticate,
  answers_challenge, tag_matches, find_or_nil,
}
use opusref.Reflector.Invariant.Tables.{Known, TablesInv, Peered}
use opusref.Reflector.Invariant.Sessions.{draw_session-EngineStep}

-- An AUTHENTICATE packet that answers a challenge, with the tag of the shared key where there is one.
pub record Answers (lib : Library) (r : Reflector) (now : ℕ) (address : List ℕ) (p : Packet)
    (c : Challenge) : Type 0 where
  pub challenged : lookup (address ++ find_or_nil p TlvType.transaction_id) r.challenges ≡ some c
  pub in_time : now - c.at ≤ 10 * second
  pub client_nonce : find_or_nil p TlvType.client_nonce ≡ c.client
  pub server_nonce : find_or_nil p TlvType.server_nonce ≡ c.server
  pub tagged :
      r.options.shared_key ≢ []
      → find p TlvType.authentication_tag
        ≡ some (
            lib.hmac_sha256 r.options.shared_key (
              auth_context
              ++ (or_nil (callsign lib.unicode_upper c.node)
                  ++ (c.client ++ (c.server ++ own_id lib r)))))

answers :
    (lib : Library) (r : Reflector) (now : ℕ) (address : List ℕ) (p : Packet) (c : Challenge)
    → lookup (address ++ find_or_nil p TlvType.transaction_id) r.challenges ≡ some c
    → (answers_challenge p now c && tag_matches lib r p c) ≡ true
    → Answers lib r now address p c
unfolding answers_challenge tag_matches expected_tag
answers lib r now address p c found test = record {
  challenged = found;
  in_time = ground (arith, test);
  client_nonce =
      ground (arith, test, bytes_equal_iff (find_or_nil p TlvType.client_nonce) c.client);
  server_nonce =
      ground (arith, test, bytes_equal_iff (find_or_nil p TlvType.server_nonce) c.server);
  tagged = λ keyed. elim (Option-cases (find p TlvType.authentication_tag)) [
    | inl e ↦ ground (arith, test, keyed, e)
    | inr (tag, e) ↦ ground (arith, test, keyed, e, bytes_equal_iff tag (expected_tag lib r c))
  ];
}

Peered-admitted :
    (s : Session) (q : Peer) (sid j : ℕ) (sessions : List (ℕ × Session)) (peers : List (ℕ × Peer))
    → (q.id ≡ sid) × (s.address ≡ q.address) × (s.callsign ≡ q.node) × (s.ready ≡ q.ready)
    → Peered j (lookup j sessions) (lookup j peers)
    → Peered j (lookup j (insert sid s sessions)) (lookup j (insert sid q peers))
Peered-admitted s q sid j sessions peers same h =
    rw (lookup-insert sid j s sessions, lookup-insert sid j q peers)
      (go (sid == j) (λ e. ground (arith, e)))
  where
    go :
        (b : Bool)
        → (b ≡ true → sid ≡ j)
        → Peered j (if b then some s else lookup j sessions) (if b then some q else lookup j peers)
    go true e = ground (arith, same, e refl)
    go false e = h

add_session-added :
    (e e' : Engine) (now sid : ℕ) (address node : List ℕ)
    → add_session e now sid address node false ≡ (e', true)
    → (e'.sessions
        ≡ insert sid
            (record { address = address; callsign = node; ready = false; last = now })
            e.sessions)
      × (e'.limits ≡ e.limits)
unfolding add_session
add_session-added e e' now sid address node h = ground arith

known_admitted :
    (K : Known) (q : Peer) (peers : List (ℕ × Peer))
    → K q.id q.address q.node
    → ((j : ℕ) (p : Peer) → lookup j peers ≡ some p → K j p.address p.node)
    → (j : ℕ) (p : Peer) → lookup j (insert q.id q peers) ≡ some p
    → K j p.address p.node
known_admitted K q peers knows h j p e =
    ground (arith, knows, e, h j p, lookup-insert q.id j q peers)

module _ {K : Known} (base : Reflector) where
  -- A change of the challenges, and of the random bytes.
  pub TablesInv-challenges :
      (r : Reflector) (challenges : List (List ℕ × Challenge)) (random : List ℕ)
      → length challenges ≤ capacity r.options.max_pending_challenges
      → TablesInv K base r
      → TablesInv K base (record r { challenges = challenges; random = random })
  TablesInv-challenges r challenges random bound v = record {
    options = v.options;
    limits = v.limits;
    challenges_bound = bound;
    transactions = v.transactions;
    engine = v.engine;
    pending_bound = v.pending_bound;
    control_bound = v.control_bound;
    peered = v.peered;
    known = v.known;
  }

  pub TablesInv-random :
      (r : Reflector) (random : List ℕ)
      → TablesInv K base r
      → TablesInv K base (record r { random = random })
  TablesInv-random r random v = TablesInv-challenges r r.challenges random v.challenges_bound v

  pub hello-TablesInv :
      (lib : Library) (now : ℕ) (address : List ℕ) (r : Reflector) (p : Packet)
      → TablesInv K base r
      → TablesInv K base (hello lib now address r p).0
  unfolding hello
  hello-TablesInv lib now address r p v = kept.held
    where
      kept : First (TablesInv K base) (hello lib now address r p)
      kept =
          if_rule (First (TablesInv K base))
            (leb (capacity r.options.max_pending_challenges) (length r.challenges))
            (λ _. record { held = v })
            λ room.
              option_rule (First (TablesInv K base)) (read_random 32 r.random).1
                (λ _. record { held = TablesInv-random r _ v })
                λ server _. record {
                  held =
                      TablesInv-challenges r _ _
                        (ground (
                          arith,
                          room,
                          length-insert (address ++ find_or_nil p TlvType.transaction_id)
                              (record {
                                node = trim_space (find_or_nil p TlvType.node_callsign);
                                client = find_or_nil p TlvType.client_nonce;
                                server = server;
                                at = now;
                              })
                              r.challenges,
                        ))
                        v;
                }

  admitted-TablesInv :
      (r : Reflector) (e : Engine) (s : Session) (q : Peer) (challenges : List (List ℕ × Challenge))
      (random : List ℕ)
      → (q.id ≢ 0) × (e.sessions ≡ insert q.id s r.engine.sessions) × (e.limits ≡ r.engine.limits)
      → (s.address ≡ q.address) × (s.callsign ≡ q.node) × (s.ready ≡ q.ready)
      → K q.id q.address q.node
      → Inv e
      → length challenges ≤ length r.challenges
      → TablesInv K base r
      → TablesInv K base (record r {
        random = random;
        engine = e;
        peers = insert q.id q r.peers;
        challenges = challenges;
      })
  admitted-TablesInv r e s q challenges random added same knows inv fewer v = record {
    options = v.options;
    limits = rw (added.2) v.limits;
    challenges_bound = ground (arith, fewer, v.challenges_bound);
    transactions = v.transactions;
    engine = inv;
    pending_bound = v.pending_bound;
    control_bound = v.control_bound;
    known = known_admitted K q r.peers knows v.known;
    peered = λ j. rw (added.1) (
        Peered-admitted s q q.id j r.engine.sessions r.peers (refl, same.0, same.1, same.2)
          (v.peered j));
  }

  pub admit-TablesInv :
      (lib : Library) (now : ℕ) (address : List ℕ) (r : Reflector) (tx : List ℕ) (c : Challenge)
      → ((id : ℕ) → K id address c.node)
      → TablesInv K base r
      → TablesInv K base (admit lib now address r tx c).0
  unfolding admit
  admit-TablesInv lib now address r tx c knows v = kept.held
    where
      kept : First (TablesInv K base) (admit lib now address r tx c)
      kept =
          if_rule (First (TablesInv K base))
            (leb r.engine.limits.max_clients (length r.engine.sessions)) (λ _. record { held = v })
            λ _.
              option_rule (First (TablesInv K base))
                (draw_session (length r.random) r.random r.engine now address c.node).1
                (λ _. record { held = TablesInv-random r _ v })
                λ (engine, sid) drawn.
                  let (added, nonzero) =
                    draw_session-EngineStep (length r.random) r.random r.engine now address c.node
                      engine sid drawn in
                  let (sessions, limits) =
                    add_session-added r.engine engine now sid address c.node added in
                  record {
                    held =
                        admitted-TablesInv r engine _ _ _ _ (nonzero, sessions, limits)
                          (refl, refl, refl) (knows sid)
                          (subst (λ (x : Engine × Bool). Inv x.0) added
                            (add_session-Inv r.engine now v.engine sid address c.node false))
                          (length-delete-le (address ++ tx) r.challenges) v;
                  }

  pub authenticate-TablesInv :
      (lib : Library) (now : ℕ) (address : List ℕ) (r : Reflector) (p : Packet)
      → ((id : ℕ) (c : Challenge) → Answers lib r now address p c → K id address c.node)
      → TablesInv K base r
      → TablesInv K base (authenticate lib now address r p).0
  unfolding authenticate
  authenticate-TablesInv lib now address r p knows v = kept.held
    where
      tx : List ℕ
      tx = find_or_nil p TlvType.transaction_id

      kept : First (TablesInv K base) (authenticate lib now address r p)
      kept =
          option_rule (First (TablesInv K base)) (lookup (address ++ tx) r.challenges)
            (λ _. record { held = v })
            λ c found.
              if_rule (First (TablesInv K base))
                (answers_challenge p now c && tag_matches lib r p c)
                (λ test. record {
                  held =
                      admit-TablesInv lib now address r tx c
                        (λ id. knows id c (answers lib r now address p c found test)) v;
                })
                (λ _. record { held = v })
