-- ===== src/Reflector/Invariant/Sessions.antt =====
-- pkg/server/reflector.go: the calls of the engine keep what holds of the tables.
use opusref.Base.{
  First, if_rule, option_rule, ltb, ◌-◌, [], zero, suc, drop, ◌≢◌, ℕ, ◌<◌, u32_mod, ◌≡◌, refl, List,
  ◌∷◌, Bool, true, false, ◌==◌, if◌then◌else◌, Option, none, some, lookup, insert, lookup-insert,
  lookup-delete, ℕ-Key, arith, Option-cases, inl, inr, delete,
}
use opusref.Engine.Types.{Session, Engine, EndReason}
use opusref.Engine.Ops as EngineOps
use opusref.Engine.Ops.{add_session}
use opusref.Engine.Release as EngineRelease
use opusref.Engine.Release.{release_locked, expire_sessions, expire_floor, tick}
use opusref.Engine.Invariant.{
  Inv, disconnect-Inv, expire_floor-Inv, touch-Inv, request_floor-Inv, media-Inv, end_floor-Inv,
  begin_shutdown-Inv,
}
use opusref.Reflector.State.{Peer, Reflector}
use opusref.Reflector.Admission.{draw_session}
use opusref.Reflector.Invariant.Tables.{Known, TablesInv, Peered, sessions-disconnect}

-- The sessions after a call of the engine: each is gone, or is as it was but for its last activity.
abbrev pub Aged : Option Session → Option Session → Type 0
Aged old none = Unit {0}
Aged none (some s) = ⊥
Aged (some t) (some s) = (s.address ≡ t.address) × (s.callsign ≡ t.callsign) × (s.ready ≡ t.ready)

pub record EngineStep (e : Engine) (e' : Engine) : Type 0 where
  pub inv : Inv e'
  pub limits : e'.limits ≡ e.limits
  pub aged : (id : ℕ) → Aged (lookup id e.sessions) (lookup id e'.sessions)

Aged-refl : (o : Option Session) → Aged o o
Aged-refl none = tt
Aged-refl (some s) = (refl, refl, refl)

Aged-insert :
    (id j now : ℕ) (s : Session) (sessions : List (ℕ × Session))
    → lookup id sessions ≡ some s
    → Aged (lookup j sessions) (lookup j (insert id (record s { last = now }) sessions))
Aged-insert id j now s sessions e =
    ground (arith, lookup-insert id j (record s { last = now }) sessions)

Aged-delete :
    (id j : ℕ) (sessions : List (ℕ × Session))
    → Aged (lookup j sessions) (lookup j (delete id sessions))
Aged-delete id j sessions = rw (lookup-delete id j sessions) (go (id == j))
  where
    go : (b : Bool) → Aged (lookup j sessions) (if b then none else lookup j sessions)
    go true = tt
    go false = Aged-refl _

Peered-Aged :
    (id : ℕ) (old new : Option Session) (o : Option Peer)
    → Aged old new
    → Peered id old o
    → Peered id new o
Peered-Aged id old none none h p = tt
Peered-Aged id none none (some q) h p = p
Peered-Aged id (some t) none (some q) h p = p.0
Peered-Aged id (some t) (some s) none h p = p
Peered-Aged id (some t) (some s) (some q) h p = ground (arith, h, p)
Peered-Aged id none (some s) o h p = elim h [ ]

pub TablesInv-EngineStep :
    {K : Known} (base r : Reflector) (e : Engine)
    → EngineStep r.engine e
    → TablesInv K base r
    → TablesInv K base (record r { engine = e })
TablesInv-EngineStep base r e step v = record {
  options = v.options;
  limits = rw (step.limits) v.limits;
  challenges_bound = v.challenges_bound;
  transactions = v.transactions;
  engine = step.inv;
  pending_bound = v.pending_bound;
  control_bound = v.control_bound;
  known = v.known;
  peered = λ j. Peered-Aged j _ _ _ (step.aged j) (v.peered j);
}

module _ (e : Engine) (now : ℕ) (v : Inv e) where
  EngineStep-refl : EngineStep e e
  EngineStep-refl = record { inv = v; limits = refl; aged = λ j. Aged-refl _ }

  pub touch-EngineStep :
      (id : ℕ) (address : List ℕ) → EngineStep e (EngineOps.touch e now id address).0
  unfolding EngineOps.touch
  touch-EngineStep id address = record {
    inv = touch-Inv e now v id address;
    limits = ground arith;
    aged = λ j. elim (Option-cases (lookup id e.sessions)) [
      | inl h ↦ rw (h, EngineOps.touch) (Aged-refl _)
      | inr (s, h) ↦
          ground (arith, Aged-refl (lookup j e.sessions), Aged-insert id j now s e.sessions h)
    ];
  }

  pub request_floor-EngineStep :
      (id stream : ℕ) (source : List ℕ)
      → EngineStep e (EngineOps.request_floor e now id stream source).0
  unfolding EngineOps.request_floor
  request_floor-EngineStep id stream source = record {
    inv = request_floor-Inv e now v id stream source;
    limits = ground arith;
    aged = λ j. elim (Option-cases (lookup id e.sessions)) [
      | inl h ↦ rw (h, EngineOps.request_floor) (Aged-refl _)
      | inr (s, h) ↦
          ground (arith, Aged-refl (lookup j e.sessions), Aged-insert id j now s e.sessions h)
    ];
  }

  pub media-EngineStep :
      (id : ℕ) (address : List ℕ) (stream sequence timestamp : ℕ) (payload : List ℕ)
      → sequence < u32_mod
      → EngineStep e (EngineOps.media e now id address stream sequence timestamp payload).0
  unfolding EngineOps.media
  media-EngineStep id address stream sequence timestamp payload fits = record {
    inv = media-Inv e now v id address stream sequence timestamp payload fits;
    limits = ground arith;
    aged = λ j. elim (Option-cases (lookup id e.sessions)) [
      | inl h ↦ rw (h, EngineOps.media) (Aged-refl _)
      | inr (s, h) ↦
          ground (arith, Aged-refl (lookup j e.sessions), Aged-insert id j now s e.sessions h)
    ];
  }

  pub end_floor-EngineStep :
      (id stream sequence timestamp : ℕ) (reason : EndReason)
      → EngineStep e (EngineRelease.end_floor e now id stream sequence timestamp reason).0
  unfolding EngineRelease.end_floor release_locked
  end_floor-EngineStep id stream sequence timestamp reason = record {
    inv = end_floor-Inv e now v id stream sequence timestamp reason;
    limits = ground arith;
    aged = λ j. ground (arith, Aged-refl (lookup j e.sessions));
  }

  pub begin_shutdown-EngineStep : EngineStep e (EngineRelease.begin_shutdown e now).0
  unfolding EngineRelease.begin_shutdown release_locked
  begin_shutdown-EngineStep = record {
    inv = begin_shutdown-Inv e now v;
    limits = ground arith;
    aged = λ j. ground (arith, Aged-refl (lookup j e.sessions));
  }

Aged-trans : (a b c : Option Session) → Aged a b → Aged b c → Aged a c
Aged-trans a b none h k = tt
Aged-trans none (some t) (some s) h k = h
Aged-trans a none (some s) h k = elim k [ ]
Aged-trans (some u) (some t) (some s) h k = ground (arith, h, k)

EngineStep-trans : (a b c : Engine) → EngineStep a b → EngineStep b c → EngineStep a c
EngineStep-trans a b c h k = record {
  inv = k.inv;
  limits = ground (arith, h.limits, k.limits);
  aged = λ j. Aged-trans _ _ _ (h.aged j) (k.aged j);
}

disconnect-EngineStep :
    (e : Engine) (now id : ℕ) → Inv e → EngineStep e (EngineRelease.disconnect e now id).0
disconnect-EngineStep e now id v = record {
  inv = disconnect-Inv e now v id;
  limits = (sessions-disconnect e now id).1;
  aged = λ j. rw ((sessions-disconnect e now id).0) (Aged-delete id j e.sessions);
}

expire_floor-EngineStep : (e : Engine) (now : ℕ) → Inv e → EngineStep e (expire_floor e now).0
unfolding expire_floor release_locked
expire_floor-EngineStep e now v = record {
  inv = expire_floor-Inv e now v;
  limits = ground arith;
  aged = λ j. ground (arith, Aged-refl (lookup j e.sessions));
}

-- A round, from the rounds behind it.
expire_session-EngineStep :
    (e : Engine) (now id : ℕ) (s : Session) (rest : List (ℕ × Session))
    → Inv e
    → EngineStep e (expire_sessions e now rest).0
    → (let e' = (EngineRelease.disconnect e now id).0 in
        EngineStep e' (expire_sessions e' now rest).0)
    → EngineStep e (expire_sessions e now ((id, s) ∷ rest)).0
unfolding expire_sessions
expire_session-EngineStep e now id s rest v kept gone = both.held
  where
    both : First (EngineStep e) (expire_sessions e now ((id, s) ∷ rest))
    both =
        if_rule (First (EngineStep e)) (ltb e.limits.session_timeout (now - s.last))
          (λ _.
            option_rule (First (EngineStep e)) (EngineRelease.disconnect e now id).1
              (λ _. record {
                held = EngineStep-trans e _ _ (disconnect-EngineStep e now id v) gone;
              })
              (λ x _. record { held = disconnect-EngineStep e now id v }))
          (λ _. record { held = kept })

expire_sessions-EngineStep :
    (rest : List (ℕ × Session)) (e : Engine) (now : ℕ)
    → Inv e
    → EngineStep e (expire_sessions e now rest).0
unfolding expire_sessions
expire_sessions-EngineStep [] e now v = EngineStep-refl e now v
expire_sessions-EngineStep ((id, s) ∷ rest) e now v =
    expire_session-EngineStep e now id s rest v (expire_sessions-EngineStep rest e now v)
      (expire_sessions-EngineStep rest _ now (disconnect-Inv e now v id))

pub tick-EngineStep : (e : Engine) (now : ℕ) → Inv e → EngineStep e (tick e now).0
unfolding tick
tick-EngineStep e now v = kept.held
  where
    expired : EngineStep e (expire_sessions e now e.sessions).0
    expired = expire_sessions-EngineStep e.sessions e now v

    kept : First (EngineStep e) (tick e now)
    kept =
        option_rule (First (EngineStep e)) (expire_sessions e now e.sessions).1
          (λ _. record {
            held = EngineStep-trans e _ _ expired (expire_floor-EngineStep _ now expired.inv);
          })
          (λ x _. record { held = expired })

-- Drawing a session ID adds a session that the engine did not have.
pub draw_session-EngineStep :
    (fuel : ℕ) (random : List ℕ) (e : Engine) (now : ℕ) (address node : List ℕ) (e' : Engine)
    (sid : ℕ)
    → (draw_session fuel random e now address node).1 ≡ some (e', sid)
    → (add_session e now sid address node false ≡ (e', true)) × (sid ≢ 0)
unfolding draw_session
draw_session-EngineStep zero random e now address node e' sid h = ground arith
draw_session-EngineStep (suc fuel) random e now address node e' sid h =
    ground (arith, draw_session-EngineStep fuel (drop 8 random) e now address node e' sid)
