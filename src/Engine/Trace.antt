-- ===== src/Engine/Trace.antt =====
-- pkg/server/engine.go: histories. The mutex makes each method atomic, so a run of the engine is a
-- sequence of calls, each with its reading of the clock; the callers choose both.
use opusref.Base.{ℕ, ◌<◌, List, [], ◌∷◌, Bool, All, u32_mod}
use opusref.Engine.Types.{Limits, Engine, EndReason, TransactionKey}
use opusref.Engine.Ops.{new_engine, add_session, set_ready, touch, request_floor, media}
use opusref.Engine.Release.{end_floor, disconnect, tick, begin_shutdown}
use opusref.Engine.Transactions.{transaction}
use opusref.Engine.Invariant.{
  Inv, new_engine-Inv, add_session-Inv, set_ready-Inv, touch-Inv, request_floor-Inv, media-Inv,
  end_floor-Inv, disconnect-Inv, tick-Inv, begin_shutdown-Inv, transaction-Inv,
}

-- The arguments of a method, without the clock.
pub data Call : Type 0 where
  adds_session : ℕ → List ℕ → List ℕ → Bool → Call
  sets_ready : ℕ → Call
  touches : ℕ → List ℕ → Call
  requests_floor : ℕ → ℕ → List ℕ → Call
  sends_media : ℕ → List ℕ → ℕ → ℕ → ℕ → List ℕ → Call
  ends : ℕ → ℕ → ℕ → ℕ → EndReason → Call
  disconnects : ℕ → Call
  ticks : Call
  begins_shutdown : Call
  transacts : TransactionKey → List ℕ → List ℕ → Call

unfoldable pub step : Engine → ℕ × Call → Engine
step e (now, adds_session id address callsign ready) =
    (add_session e now id address callsign ready).0
step e (now, sets_ready id) = (set_ready e now id).0
step e (now, touches id address) = (touch e now id address).0
step e (now, requests_floor id stream source) = (request_floor e now id stream source).0
step e (now, sends_media id address stream sequence timestamp payload) =
    (media e now id address stream sequence timestamp payload).0
step e (now, ends id stream sequence timestamp reason) =
    (end_floor e now id stream sequence timestamp reason).0
step e (now, disconnects id) = (disconnect e now id).0
step e (now, ticks) = (tick e now).0
step e (now, begins_shutdown) = (begin_shutdown e now).0
step e (now, transacts key fingerprint result) = (transaction e now key fingerprint result).0

unfoldable pub run : Engine → List (ℕ × Call) → Engine
run e [] = e
run e (c ∷ cs) = run (step e c) cs

-- A sequence number is a uint32.
abbrev pub CallFits : ℕ × Call → Type 0
CallFits (now, sends_media id address stream sequence timestamp payload) = sequence < u32_mod
CallFits _ = Unit

pub step-Inv : (e : Engine) (c : ℕ × Call) → CallFits c → Inv e → Inv (step e c)
unfolding step
step-Inv e (now, adds_session id address callsign ready) fits v =
    add_session-Inv e now v id address callsign ready
step-Inv e (now, sets_ready id) fits v = set_ready-Inv e now v id
step-Inv e (now, touches id address) fits v = touch-Inv e now v id address
step-Inv e (now, requests_floor id stream source) fits v =
    request_floor-Inv e now v id stream source
step-Inv e (now, sends_media id address stream sequence timestamp payload) fits v =
    media-Inv e now v id address stream sequence timestamp payload fits
step-Inv e (now, ends id stream sequence timestamp reason) fits v =
    end_floor-Inv e now v id stream sequence timestamp reason
step-Inv e (now, disconnects id) fits v = disconnect-Inv e now v id
step-Inv e (now, ticks) fits v = tick-Inv e now v
step-Inv e (now, begins_shutdown) fits v = begin_shutdown-Inv e now v
step-Inv e (now, transacts key fingerprint result) fits v =
    transaction-Inv e now v key fingerprint result

pub run-Inv : (e : Engine) (cs : List (ℕ × Call)) → All CallFits cs → Inv e → Inv (run e cs)
unfolding run
run-Inv e [] fits v = v
run-Inv e (c ∷ cs) fits v = run-Inv (step e c) cs fits.1 (step-Inv e c fits.0 v)

-- After any history of an engine that NewEngine made, with any readings of the clock: the floor is
-- held by a session that is ready, and by none while the engine drains; sessions and retained
-- transactions stay within their limits, and no two sessions share an ID.
pub run-new_engine-Inv :
    (l : Limits) (cs : List (ℕ × Call)) → All CallFits cs → Inv (run (new_engine l) cs)
run-new_engine-Inv l cs fits = run-Inv (new_engine l) cs fits (new_engine-Inv l)
