-- ===== src/Engine/Invariant.antt =====
-- pkg/server/engine.go: what holds between two calls, and that every call keeps it.
use opusref.Base.{
  ℕ, ◌<◌, ◌≤◌, ◌≢◌, ◌≡◌, refl, List, [], ◌∷◌, Bool, true, false, length, Option, none, some, lookup,
  insert, delete, lookup-insert, lookup-delete, length-insert, length-delete-le, Distinct,
  Distinct-insert, Distinct-delete, ==_refl, ℕ-Key, Option-cases, inl, inr, u32_mod, u64_mod, arith,
}
use opusref.Engine.Types.{
  Limits, Session, Floor, Engine, EndReason, end_grant_timeout, end_media_inactivity,
  end_transmit_time_limit, TransactionKey, TransactionKey-Key,
}
use opusref.Engine.Ops.{new_engine, add_session, set_ready, touch, request_floor, held_floor, media}
use opusref.Engine.Release.{
  release_locked, end_floor, disconnect, expire_sessions, expire_floor, tick, begin_shutdown,
}
use opusref.Engine.Transactions.{transaction}

-- The session is admitted and has confirmed its ID.
abbrev pub is_ready : Option Session → Bool
is_ready none = false
is_ready (some s) = s.ready

-- A floor that is held is held by a ready session, with a stream that is not 0; once media has
-- come, its sequence is recorded.
abbrev pub FloorOwned : List (ℕ × Session) → Option Floor → Type 0
FloorOwned sessions none = Unit
FloorOwned sessions (some f) =
    (is_ready (lookup f.owner sessions) ≡ true)
    × (f.stream ≢ 0)
    × (f.first_media ≢ 0 → f.has_prior ≡ true)
    × (f.prior < u32_mod)

pub record Inv (e : Engine) : Type 0 where
  pub floor_owned : FloorOwned e.sessions e.floor
  pub distinct : Distinct e.sessions
  pub drained : e.draining ≡ true → e.floor ≡ none
  pub clients_bounded : length e.sessions ≤ e.limits.max_clients
  pub no_session_zero : lookup 0 e.sessions ≡ none
  pub transactions_bounded : length e.tx ≤ e.limits.max_completed_transactions
  pub gaps_fit : e.gaps < u64_mod

pub new_engine-Inv : (l : Limits) → Inv (new_engine l)
unfolding new_engine lookup
new_engine-Inv l = record {
  floor_owned = tt;
  distinct = tt;
  drained = λ _. refl;
  clients_bounded = omega arith;
  no_session_zero = refl;
  transactions_bounded = omega arith;
  gaps_fit = omega arith;
}

FloorOwned-insert :
    (sessions : List (ℕ × Session)) (floor : Option Floor) (id : ℕ) (s : Session)
    → (is_ready (lookup id sessions) ≡ true → s.ready ≡ true)
    → FloorOwned sessions floor
    → FloorOwned (insert id s sessions) floor
FloorOwned-insert sessions none id s keeps h = tt
FloorOwned-insert sessions (some f) id s keeps h =
    ground (arith, lookup-insert id f.owner s sessions)

FloorOwned-delete :
    (sessions : List (ℕ × Session)) (f : Floor) (id : ℕ)
    → f.owner ≢ id
    → FloorOwned sessions (some f)
    → FloorOwned (delete id sessions) (some f)
FloorOwned-delete sessions f id other h = ground (arith, lookup-delete id f.owner sessions)

module _ (e : Engine) (now : ℕ) (v : Inv e) where
  pub add_session-Inv :
      (id : ℕ) (address callsign : List ℕ) (ready : Bool)
      → Inv (add_session e now id address callsign ready).0
  unfolding add_session
  add_session-Inv id address callsign ready =
      let s : Session = record {
        address = address;
        callsign = callsign;
        ready = ready;
        last = now;
      } in
      ground (
        arith,
        FloorOwned-insert e.sessions e.floor id s,
        length-insert id s e.sessions,
        Distinct-insert id s e.sessions v.distinct,
        lookup-insert id 0 s e.sessions,
      )

  pub set_ready-Inv : (id : ℕ) → Inv (set_ready e now id).0
  unfolding set_ready
  set_ready-Inv id = elim (Option-cases (lookup id e.sessions)) [
    | inl h ↦ rw (h, set_ready) v
    | inr (s, h) ↦
        let s' : Session = record s { ready = true; last = now } in
        ground (
          arith,
          FloorOwned-insert e.sessions e.floor id s',
          length-insert id s' e.sessions,
          Distinct-insert id s' e.sessions v.distinct,
          lookup-insert id 0 s' e.sessions,
        )
  ]

  -- The session is there, and it is only its time that changes.
  pub refresh-Inv :
      (id : ℕ) (s : Session)
      → lookup id e.sessions ≡ some s
      → Inv (record e { sessions = insert id (record s { last = now }) e.sessions })
  refresh-Inv id s h =
      let s' : Session = record s { last = now } in
      ground (
        arith,
        FloorOwned-insert e.sessions e.floor id s',
        length-insert id s' e.sessions,
        Distinct-insert id s' e.sessions v.distinct,
        lookup-insert id 0 s' e.sessions,
      )

  pub touch-Inv : (id : ℕ) (address : List ℕ) → Inv (touch e now id address).0
  unfolding touch
  touch-Inv id address = elim (Option-cases (lookup id e.sessions)) [
    | inl h ↦ rw (h, touch) v
    | inr (s, h) ↦ ground (arith, refresh-Inv id s)
  ]

  pub request_floor-Inv :
      (id stream : ℕ) (source : List ℕ) → Inv (request_floor e now id stream source).0
  unfolding request_floor
  request_floor-Inv id stream source = elim (Option-cases (lookup id e.sessions)) [
    | inl h ↦ rw (h, request_floor) v
    | inr (s, h) ↦ ground (
      arith,
      refresh-Inv id s,
      lookup-insert id id (record s { last = now }) e.sessions,
      ==_refl id,
    )
  ]

  held_floor-eq :
      (id stream : ℕ) (f : Floor)
      → held_floor e id stream ≡ some f
      → (e.floor ≡ some f) × (f.owner ≡ id) × (f.stream ≡ stream)
  unfolding held_floor
  held_floor-eq id stream f h = ground arith

  pub media-Inv :
      (id : ℕ) (address : List ℕ) (stream sequence timestamp : ℕ) (payload : List ℕ)
      → sequence < u32_mod
      → Inv (media e now id address stream sequence timestamp payload).0
  unfolding media
  media-Inv id address stream sequence timestamp payload fits =
      elim (Option-cases (lookup id e.sessions)) [
        | inl h ↦ rw (h, media) v
        | inr (s, h) ↦ elim (Option-cases (held_floor e id stream)) [
          | inl k ↦ ground arith
          | inr (f, k) ↦ ground (
            arith,
            refresh-Inv id s,
            held_floor-eq id stream f,
            lookup-insert id f.owner (record s { last = now }) e.sessions,
          )
        ]
      ]

  pub release_locked-Inv : (id : ℕ) (reason : EndReason) → Inv (release_locked e now id reason).0
  unfolding release_locked
  release_locked-Inv id reason = ground arith

  pub end_floor-Inv :
      (id stream sequence timestamp : ℕ) (reason : EndReason)
      → Inv (end_floor e now id stream sequence timestamp reason).0
  unfolding end_floor
  end_floor-Inv id stream sequence timestamp reason = ground (arith, release_locked-Inv id reason)

  pub disconnect-Inv : (id : ℕ) → Inv (disconnect e now id).0
  unfolding disconnect release_locked
  disconnect-Inv id = elim (Option-cases e.floor) [
    | inl h ↦ ground (
      arith,
      length-delete-le id e.sessions,
      Distinct-delete id e.sessions v.distinct,
      lookup-delete id 0 e.sessions,
    )
    | inr (f, h) ↦ ground (
      arith,
      length-delete-le id e.sessions,
      Distinct-delete id e.sessions v.distinct,
      lookup-delete id 0 e.sessions,
      FloorOwned-delete e.sessions f id,
    )
  ]

  pub expire_floor-Inv : Inv (expire_floor e now).0
  unfolding expire_floor
  expire_floor-Inv = elim (Option-cases e.floor) [
    | inl h ↦ rw (h, expire_floor) v
    | inr (f, h) ↦ ground (
      arith,
      release_locked-Inv f.owner end_grant_timeout,
      release_locked-Inv f.owner end_media_inactivity,
      release_locked-Inv f.owner end_transmit_time_limit,
    )
  ]

  pub begin_shutdown-Inv : Inv (begin_shutdown e now).0
  unfolding begin_shutdown release_locked
  begin_shutdown-Inv = ground arith

  pub transaction-Inv :
      (key : TransactionKey) (fingerprint result : List ℕ)
      → Inv (transaction e now key fingerprint result).0
  unfolding transaction
  transaction-Inv key fingerprint result = ground (
    arith,
    length-insert key (record { fingerprint = fingerprint; result = result; at = now }) e.tx,
  )

pub expire_sessions-Inv :
    (e : Engine) (now : ℕ) (rest : List (ℕ × Session)) → Inv e → Inv (expire_sessions e now rest).0
unfolding expire_sessions
expire_sessions-Inv e now [] v = v
expire_sessions-Inv e now ((id, s) ∷ rest) v = ground (
  arith,
  disconnect-Inv e now v id,
  expire_sessions-Inv e now rest v,
  expire_sessions-Inv (disconnect e now id).0 now rest,
)

pub tick-Inv : (e : Engine) (now : ℕ) → Inv e → Inv (tick e now).0
unfolding tick
tick-Inv e now v = ground (
  arith,
  expire_sessions-Inv e now e.sessions v,
  expire_floor-Inv (expire_sessions e now e.sessions).0 now,
)
