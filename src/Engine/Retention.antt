-- ===== src/Engine/Retention.antt =====
-- pkg/server/engine.go, Transaction: a result, once stored, is what every repetition gets.
use opusref.Base.{
  ℕ, ◌≡◌, refl, List, [], ◌∷◌, if◌then◌else◌, some, lookup, delete, lookup-insert, ℕ-Key, arith,
  bytes_equal,
}
use opusref.Engine.Types.{
  Session, Engine, TransactionKey, TransactionKey-Key, Transaction, stored, duplicate, conflict,
}
use opusref.Engine.Ops.{add_session, set_ready, touch, request_floor, media}
use opusref.Engine.Release.{
  release_locked, end_floor, disconnect, expire_sessions, expire_floor, tick, begin_shutdown,
}
use opusref.Engine.Transactions.{transaction}
use opusref.Engine.Trace.{
  Call, adds_session, sets_ready, touches, requests_floor, sends_media, ends, disconnects, ticks,
  begins_shutdown, transacts, step, run,
}

expire_sessions-tx :
    (e : Engine) (now : ℕ) (rest : List (ℕ × Session)) → (expire_sessions e now rest).0.tx ≡ e.tx
unfolding expire_sessions disconnect release_locked
expire_sessions-tx e now [] = refl
expire_sessions-tx e now ((id, s) ∷ rest) = ground (
  arith,
  expire_sessions-tx e now rest,
  expire_sessions-tx (record e { sessions = delete id e.sessions }) now rest,
)

tick-tx : (e : Engine) (now : ℕ) → (tick e now).0.tx ≡ e.tx
unfolding tick expire_floor release_locked
tick-tx e now = ground (arith, expire_sessions-tx e now e.sessions)

module _ (key : TransactionKey) (t : Transaction) where
  step_retains :
      (e : Engine) (c : ℕ × Call) → lookup key e.tx ≡ some t → lookup key (step e c).tx ≡ some t
  unfolding step
  step_retains e (now, adds_session id address callsign ready) h =
      unfold add_session in ground arith
  step_retains e (now, sets_ready id) h = unfold set_ready in ground arith
  step_retains e (now, touches id address) h = unfold touch in ground arith
  step_retains e (now, requests_floor id stream source) h = unfold request_floor in ground arith
  step_retains e (now, sends_media id address stream sequence timestamp payload) h =
      unfold media in ground arith
  step_retains e (now, ends id stream sequence timestamp reason) h =
      unfold end_floor release_locked in ground arith
  step_retains e (now, disconnects id) h = unfold disconnect release_locked in ground arith
  step_retains e (now, ticks) h = rw (tick-tx e now) h
  step_retains e (now, begins_shutdown) h = unfold begin_shutdown release_locked in ground arith
  step_retains e (now, transacts k fingerprint result) h =
      unfold transaction in
      ground (
        arith,
        TransactionKey-Key.same_iff k key,
        lookup-insert k key (record { fingerprint = fingerprint; result = result; at = now }) e.tx,
      )

  run_retains :
      (e : Engine) (cs : List (ℕ × Call))
      → lookup key e.tx ≡ some t
      → lookup key (run e cs).tx ≡ some t
  unfolding run
  run_retains e [] h = h
  run_retains e (c ∷ cs) h = run_retains (step e c) cs (step_retains e c h)

transaction-lookup :
    (e : Engine) (now : ℕ) (key : TransactionKey) (fingerprint result : List ℕ)
    → (transaction e now key fingerprint result).2 ≡ stored
    → lookup key (transaction e now key fingerprint result).0.tx
      ≡ some (record { fingerprint = fingerprint; result = result; at = now })
unfolding transaction
transaction-lookup e now key fingerprint result h = ground (
  arith,
  TransactionKey-Key.same_iff key key,
  lookup-insert key key (record { fingerprint = fingerprint; result = result; at = now }) e.tx,
)

-- Whatever calls come in between, and at any time: once a result is stored under a key, a repetition
-- with the same fingerprint gets that result and is told so, one with another fingerprint is a
-- conflict, and neither changes the engine.
pub transaction_again :
    (e : Engine) (now : ℕ) (key : TransactionKey) (fingerprint result : List ℕ)
    (cs : List (ℕ × Call)) (later : ℕ) (fingerprint' result' : List ℕ)
    → (transaction e now key fingerprint result).2 ≡ stored
    → let e' = run (transaction e now key fingerprint result).0 cs in
      transaction e' later key fingerprint' result' ≡ (
        if bytes_equal fingerprint fingerprint'
        then (e', result, duplicate)
        else (e', [], conflict))
unfolding transaction
transaction_again e now key fingerprint result cs later fingerprint' result' h = ground (
  arith,
  run_retains key (record { fingerprint = fingerprint; result = result; at = now })
      (transaction e now key fingerprint result).0 cs
      (transaction-lookup e now key fingerprint result h),
)
