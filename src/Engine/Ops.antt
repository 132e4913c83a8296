-- ===== src/Engine/Ops.antt =====
-- pkg/server/engine.go, the methods up to Media. Each takes the reading of the clock that `e.now()`
-- gives during the call, and returns the engine that it leaves; the mutex makes the calls atomic.
use opusref.Base.{
  ℕ, ◌+◌, ◌-◌, ◌%◌, ◌^◌, List, [], ◌∷◌, Bool, true, false, not, ◌&&◌, ◌||◌, ◌==◌, leb,
  if◌then◌else◌, length, Option, none, some, Result, ok, err, lookup, insert, has, bytes_equal,
  u32_mod, u64_mod, ℕ-Key,
}
use opusref.Engine.Types.{
  Limits, defaults, Session, FloorResult, floor_granted, floor_busy, floor_rejected, EngineError,
  invalid_session, address_mismatch, invalid_stream, Fanout, Floor, Engine,
}

unfoldable pub new_engine : Limits → Engine
new_engine l = record {
  limits = defaults l;
  sessions = [];
  floor = none;
  tx = [];
  gaps = 0;
  draining = false;
}

unfoldable pub add_session : Engine → ℕ → ℕ → List ℕ → List ℕ → Bool → Engine × Bool
add_session e now id address callsign ready =
    if e.draining
      || id == 0
      || has (lookup id e.sessions)
      || leb e.limits.max_clients (length e.sessions)
    then (e, false)
    else (record e { sessions = insert id session e.sessions }, true)
  where
    session : Session
    session = record { address = address; callsign = callsign; ready = ready; last = now }

unfoldable pub set_ready : Engine → ℕ → ℕ → Engine × Bool
set_ready e now id = elim (lookup id e.sessions) [
  | none ↦ (e, false)
  | some s ↦
      (record e { sessions = insert id (record s { ready = true; last = now }) e.sessions }, true)
]

unfoldable pub touch : Engine → ℕ → ℕ → List ℕ → Engine × Bool
touch e now id address = elim (lookup id e.sessions) [
  | none ↦ (e, false)
  | some s ↦
      if not (bytes_equal s.address address)
      then (e, false)
      else (record e { sessions = insert id (record s { last = now }) e.sessions }, true)
]

-- The floor that RequestFloor grants.
abbrev pub new_floor : ℕ → ℕ → ℕ → List ℕ → Floor
new_floor now id stream source = record {
  owner = id;
  stream = stream;
  source = source;
  granted = now;
  first_media = 0;
  last_media = 0;
  prior = 0;
  timestamp = 0;
  has_prior = false;
}

unfoldable pub request_floor : Engine → ℕ → ℕ → ℕ → List ℕ → Engine × FloorResult
request_floor e now id stream source = elim (lookup id e.sessions) [
  | none ↦ (e, floor_rejected)
  | some s ↦
      if e.draining || not s.ready || stream == 0
      then (e, floor_rejected)
      else let e' = record e { sessions = insert id (record s { last = now }) e.sessions } in
        if has e.floor
        then (e', floor_busy)
        else (record e' { floor = some (new_floor now id stream source) }, floor_granted)
]

-- `e.floor == nil || e.floor.owner != id || e.floor.stream != stream`, the other way round: the
-- floor, where `id` holds it with this stream.
unfoldable pub held_floor : Engine → ℕ → ℕ → Option Floor
held_floor e id stream = elim e.floor [
  | none ↦ none
  | some f ↦ if f.owner == id && f.stream == stream then some f else none
]

-- `delta := sequence - expected` on uint32, which must be below 1 << 31.
unfoldable pub sequence_delta : ℕ → ℕ → Option ℕ
sequence_delta expected sequence =
    let delta = (sequence + u32_mod - expected) % u32_mod in
    if leb (2 ^ 31) delta then none else some delta

-- The tests of the sequence number: how many packets are missing before this one (`delta`), or
-- `none` where Media refuses it.
unfoldable pub sequence_gap : Floor → ℕ → Option ℕ
sequence_gap f sequence =
    if f.first_media == 0
    then if not (sequence == 0) then none else some 0
    else if f.has_prior
    then sequence_delta ((f.prior + 1) % u32_mod) sequence
    else some 0

-- The floor after a packet that Media accepts.
abbrev pub record_media : Floor → ℕ → ℕ → ℕ → Floor
record_media f now sequence timestamp = record f {
  first_media = if f.first_media == 0 then now else f.first_media;
  prior = sequence;
  timestamp = timestamp;
  has_prior = true;
  last_media = now;
}

-- The loop that makes a Fanout for each ready session but the sender's.
unfoldable pub fanout : ℕ → Fanout → List (ℕ × Session) → List Fanout
fanout id packet [] = []
fanout id packet ((sid, listener) ∷ rest) =
    let more = fanout id packet rest in
    if not (sid == id) && listener.ready then record packet { session_id = sid } ∷ more else more

unfoldable pub media :
    Engine → ℕ → ℕ → List ℕ → ℕ → ℕ → ℕ → List ℕ → Engine × Result EngineError (List Fanout)
media e now id address stream sequence timestamp payload = elim (lookup id e.sessions) [
  | none ↦ (e, err invalid_session)
  | some s ↦
      if not (bytes_equal s.address address)
      then (e, err address_mismatch)
      else if e.draining
      then (e, err invalid_stream)
      else elim (held_floor e id stream) [
        | none ↦ (e, err invalid_stream)
        | some f ↦ elim (sequence_gap f sequence) [
          | none ↦ (e, err invalid_stream)
          | some delta ↦
              let sessions = insert id (record s { last = now }) e.sessions in
              (
                record e {
                  sessions = sessions;
                  gaps = (e.gaps + delta) % u64_mod;
                  floor = some (record_media f now sequence timestamp);
                },
                ok (
                    fanout id
                      (record {
                        session_id = id;
                        stream_id = stream;
                        sequence = sequence;
                        timestamp = timestamp;
                        payload = payload;
                      })
                      sessions),
              )
        ]
      ]
]
