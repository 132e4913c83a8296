-- ===== src/Engine/Release.antt =====
-- pkg/server/engine.go: the methods that release the floor, with the clock as in Engine/Ops.antt.
use opusref.Base.{
  ℕ, ◌+◌, ◌-◌, ◌%◌, List, [], ◌∷◌, Bool, true, not, ◌&&◌, ◌==◌, ltb, if◌then◌else◌, Option, none,
  some, Result, ok, err, delete, u32_mod, ℕ-Key,
}
use opusref.Engine.Types.{
  Session, EndReason, end_owner_disconnect, end_grant_timeout, end_media_inactivity,
  end_transmit_time_limit, end_server_shutdown, EngineError, invalid_stream, StreamEnd, Floor,
  Engine,
}
use opusref.Engine.Ops.{held_floor}

-- The StreamEnd that releaseLocked makes of a floor.
unfoldable pub stream_end : Floor → ℕ → EndReason → StreamEnd
stream_end f now reason =
    if f.first_media == 0
    then record {
      session_id = f.owner;
      stream_id = f.stream;
      reason = reason;
      sequence = 0;
      timestamp = 0;
      duration = 0;
    }
    else record {
      session_id = f.owner;
      stream_id = f.stream;
      reason = reason;
      sequence = (f.prior + 1) % u32_mod;
      timestamp = f.timestamp;
      duration = now - f.first_media;
    }

unfoldable pub release_locked : Engine → ℕ → ℕ → EndReason → Engine × Option StreamEnd
release_locked e now id reason = elim e.floor [
  | none ↦ (e, none)
  | some f ↦
      if f.owner == id
      then (record e { floor = none }, some (stream_end f now reason))
      else (e, none)
]

-- End: the sequence and timestamp that the request must carry.
unfoldable pub end_matches : Floor → ℕ → ℕ → Bool
end_matches f sequence timestamp =
    if f.has_prior
    then sequence == (f.prior + 1) % u32_mod && timestamp == f.timestamp
    else sequence == 0 && timestamp == 0

unfoldable pub end_floor :
    Engine → ℕ → ℕ → ℕ → ℕ → ℕ → EndReason → Engine × Result EngineError (Option StreamEnd)
end_floor e now id stream sequence timestamp reason = elim (held_floor e id stream) [
  | none ↦ (e, err invalid_stream)
  | some f ↦
      if not (end_matches f sequence timestamp)
      then (e, err invalid_stream)
      else let (e', end) = release_locked e now id reason in (e', ok end)
]

unfoldable pub disconnect : Engine → ℕ → ℕ → Engine × Option StreamEnd
disconnect e now id =
    release_locked (record e { sessions = delete id e.sessions }) now id end_owner_disconnect

-- The loop of Tick over the sessions; it returns as soon as it has released the floor.
unfoldable pub expire_sessions : Engine → ℕ → List (ℕ × Session) → Engine × Option StreamEnd
expire_sessions e now [] = (e, none)
expire_sessions e now ((id, s) ∷ rest) =
    let kept = expire_sessions e now rest in
    if ltb e.limits.session_timeout (now - s.last)
    then (let (e', end) = disconnect e now id in
        elim end [ none ↦ expire_sessions e' now rest | some x ↦ (e', some x) ])
    else kept

-- The three timers of the floor.
unfoldable pub expire_floor : Engine → ℕ → Engine × Option StreamEnd
expire_floor e now = elim e.floor [
  | none ↦ (e, none)
  | some f ↦
      if f.first_media == 0 && ltb e.limits.grant_timeout (now - f.granted)
      then release_locked e now f.owner end_grant_timeout
      else if not (f.first_media == 0) && ltb e.limits.media_timeout (now - f.last_media)
      then release_locked e now f.owner end_media_inactivity
      else if not (f.first_media == 0) && ltb e.limits.transmit_time_limit (now - f.first_media)
      then release_locked e now f.owner end_transmit_time_limit
      else (e, none)
]

unfoldable pub tick : Engine → ℕ → Engine × Option StreamEnd
tick e now =
    let (e', end) = expire_sessions e now e.sessions in
    elim end [ none ↦ expire_floor e' now | some x ↦ (e', some x) ]

unfoldable pub begin_shutdown : Engine → ℕ → Engine × Option StreamEnd
begin_shutdown e now =
    if e.draining
    then (e, none)
    else let e' = record e { draining = true } in
      elim e'.floor [
        | none ↦ (e', none)
        | some f ↦ release_locked e' now f.owner end_server_shutdown
      ]
