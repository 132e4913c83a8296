-- ===== src/Engine/Timers.antt =====
-- pkg/server/engine.go, Tick: what it leaves behind.
use opusref.Base.{
  ℕ, ◌-◌, ◌≤◌, ◌≢◌, ◌≡◌, refl, List, [], ◌∷◌, none, some, Option-cases, ltb, Bool-cases, ◌⊎◌, inl,
  inr, lookup, ℕ-Key, arith,
}
use opusref.Engine.Types.{Session, Floor, Engine, TransactionKey-Key}
use opusref.Engine.Release.{release_locked, disconnect, expire_sessions, expire_floor, tick}
use opusref.Base.{lookup-delete, delete}
use opusref.Engine.FloorView.{tick-floor}

-- The floor's timers have not run out.
abbrev pub IsOnTime : Engine → ℕ → Floor → Type 0
IsOnTime e now f =
    (f.first_media ≡ 0 → now - f.granted ≤ e.limits.grant_timeout)
    × (f.first_media ≢ 0
        → (now - f.last_media ≤ e.limits.media_timeout)
          × (now - f.first_media ≤ e.limits.transmit_time_limit))

expire_floor-IsOnTime :
    (e : Engine) (now : ℕ) (f : Floor)
    → (expire_floor e now).0.floor ≡ some f
    → IsOnTime (expire_floor e now).0 now f
unfolding expire_floor release_locked
expire_floor-IsOnTime e now f h = ground arith

-- No floor outlives its timers: where Tick leaves a floor held, the grant is not too old if no media
-- has come, and otherwise neither the last packet nor the first one is.
pub tick-IsOnTime :
    (e : Engine) (now : ℕ) (f : Floor)
    → (tick e now).0.floor ≡ some f
    → IsOnTime (tick e now).0 now f
tick-IsOnTime e now f h = elim (tick-floor e now) [
  | inl (k, _) ↦ rw k (expire_floor-IsOnTime (expire_sessions e now e.sessions).0 now f (rw k at h))
  | inr (_, k) ↦ cc
]

disconnect-sessions :
    (e : Engine) (now id : ℕ)
    → ((disconnect e now id).0.sessions ≡ delete id e.sessions)
      × ((disconnect e now id).0.limits ≡ e.limits)
unfolding disconnect release_locked
disconnect-sessions e now id = (ground arith, ground arith)

-- A session that is in the map and is not among those that the loop has still to visit is recent.
expire_sessions-recent :
    (timeout : ℕ) (e : Engine) (now : ℕ) (rest : List (ℕ × Session))
    → e.limits.session_timeout ≡ timeout
    → ((k : ℕ) (s : Session)
        → lookup k e.sessions ≡ some s
        → (now - s.last ≤ timeout) ⊎ (lookup k rest ≡ some s))
    → (expire_sessions e now rest).1 ≡ none
    → (k : ℕ) (s : Session) → lookup k (expire_sessions e now rest).0.sessions ≡ some s
    → now - s.last ≤ timeout
unfolding expire_sessions lookup
expire_sessions-recent timeout e now [] lim seen h k s found = ground (arith, seen k s found)
expire_sessions-recent timeout e now ((id, x) ∷ rest) lim seen h k s found =
    elim (Bool-cases (ltb e.limits.session_timeout (now - x.last))) [
      | inr b ↦
          expire_sessions-recent timeout e now rest lim (λ j t m. ground (arith, seen j t))
            (ground arith) k s (ground arith)
      | inl b ↦
          let e' = (disconnect e now id).0 in
          let left = disconnect-sessions e now id in
          elim (Option-cases (disconnect e now id).1) [
            | inr (end, q) ↦ absurd (ground arith)
            | inl q ↦
                expire_sessions-recent timeout e' now rest (ground (arith, left.1))
                  (λ j t m. ground (arith, seen j t, left.0, lookup-delete id j e.sessions))
                  (ground arith) k s (ground arith)
          ]
    ]

expire_floor-sessions : (e : Engine) (now : ℕ) → (expire_floor e now).0.sessions ≡ e.sessions
unfolding expire_floor release_locked
expire_floor-sessions e now = ground arith

-- Where Tick ends no stream, every session that it leaves has been active within the timeout.
pub tick-recent :
    (e : Engine) (now k : ℕ) (s : Session)
    → (tick e now).1 ≡ none
    → lookup k (tick e now).0.sessions ≡ some s
    → now - s.last ≤ e.limits.session_timeout
unfolding tick
tick-recent e now k s h found =
    expire_sessions-recent e.limits.session_timeout e now e.sessions refl (λ j t m. inr m)
      (ground arith) k s
      (ground (arith, expire_floor-sessions (expire_sessions e now e.sessions).0 now))
