-- ===== src/Engine/Media.antt =====
-- pkg/server/engine.go, Media: its branches, its fan-out and its count of missing packets.
use opusref.Base.{
  ℕ, ◌+◌, ◌%◌, ◌≡◌, List, false, some, Option-cases, Bool-cases, ◌⊎◌, inl, inr, lookup, insert,
  lookup-insert, ℕ-Key, u64_mod, arith, Result, ok, err, bytes_equal, bytes_equal→eq,
}
use opusref.Engine.Types.{
  Session, Floor, Engine, EngineError, invalid_session, address_mismatch, invalid_stream, Fanout,
}
use opusref.Engine.Ops.{held_floor, sequence_gap, record_media, fanout, media}

-- The packet that Media passes on to the listeners.
abbrev pub packet_of : ℕ → ℕ → ℕ → ℕ → List ℕ → Fanout
packet_of id stream sequence timestamp payload = record {
  session_id = id;
  stream_id = stream;
  sequence = sequence;
  timestamp = timestamp;
  payload = payload;
}

module _ (e : Engine) (now id : ℕ) (address : List ℕ) (stream sequence timestamp : ℕ)
    (payload : List ℕ) where
  abbrev outcome : Engine × Result EngineError (List Fanout)
  outcome = media e now id address stream sequence timestamp payload

  -- What an accepted packet has met, and what it leaves.
  pub record IsAccepted : Type 0 where
    pub sender : Session
    pub floor : Floor
    pub missing : ℕ
    pub admitted : lookup id e.sessions ≡ some sender
    pub from_address : sender.address ≡ address
    pub running : e.draining ≡ false
    pub held : e.floor ≡ some floor
    pub owned : floor.owner ≡ id
    pub streamed : floor.stream ≡ stream
    pub in_order : sequence_gap floor sequence ≡ some missing
    pub left : outcome.0 ≡ record e {
      sessions = insert id (record sender { last = now }) e.sessions;
      gaps = (e.gaps + missing) % u64_mod;
      floor = some (record_media floor now sequence timestamp);
    }
    pub sent :
        outcome.1
        ≡ ok (
            fanout id
              (packet_of id stream sequence timestamp payload)
              (insert id (record sender { last = now }) e.sessions))

  pub media-cases : ((x : EngineError) × (outcome ≡ (e, err x))) ⊎ IsAccepted
  unfolding media held_floor
  media-cases = elim (Option-cases (lookup id e.sessions)) [
    | inl h ↦ inl (invalid_session, ground arith)
    | inr (s, h) ↦ elim (Bool-cases (bytes_equal s.address address)) [
      | inr b ↦ inl (address_mismatch, ground arith)
      | inl b ↦ elim (Bool-cases e.draining) [
        | inl d ↦ inl (invalid_stream, ground arith)
        | inr d ↦ elim (Option-cases (held_floor e id stream)) [
          | inl k ↦ inl (invalid_stream, ground arith)
          | inr (f, k) ↦ elim (Option-cases (sequence_gap f sequence)) [
            | inl q ↦ inl (invalid_stream, ground arith)
            | inr (missing, q) ↦ inr (record {
              sender = s;
              floor = f;
              missing = missing;
              admitted = h;
              from_address = bytes_equal→eq _ _ b;
              running = d;
              held = ground arith;
              owned = ground arith;
              streamed = ground arith;
              in_order = q;
              left = ground arith;
              sent = ground arith;
            })
          ]
        ]
      ]
    ]
  ]

  -- A packet that Media refuses changes nothing: not the floor, not the count of gaps, and not the
  -- time of the sender's last activity.
  pub media_refused : {x : EngineError} → outcome.1 ≡ err x → outcome.0 ≡ e
  media_refused h = elim media-cases [ inl (x, k) ↦ cc | inr a ↦ cc (a.sent) ]

  -- Media accepts a packet only from the session that owns the floor, from that session's address,
  -- with the owner's stream, and only while the engine runs; an accepted packet becomes the floor's
  -- prior one and the time of the session's last activity.
  pub media_accepted :
      {packets : List Fanout}
      → outcome.1 ≡ ok packets
      → (s : Session) × (f : Floor) × (lookup id e.sessions ≡ some s)
        × (s.address ≡ address)
        × (e.floor ≡ some f)
        × (f.owner ≡ id)
        × (f.stream ≡ stream)
        × (e.draining ≡ false)
        × (outcome.0.floor ≡ some (record_media f now sequence timestamp))
        × (lookup id outcome.0.sessions ≡ some (record s { last = now }))
  media_accepted h = elim media-cases [
    | inl (x, k) ↦ cc
    | inr a ↦ (
      a.sender,
      a.floor,
      a.admitted,
      a.from_address,
      a.held,
      a.owned,
      a.streamed,
      a.running,
      cc (a.left),
      rw (a.left) (ground (arith, lookup-insert id id (record a.sender { last = now }) e.sessions)),
    )
  ]
