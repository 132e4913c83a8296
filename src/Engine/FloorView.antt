-- ===== src/Engine/FloorView.antt =====
-- pkg/server/engine.go: every method moves the floor along its state machine.
use opusref.Base.{
  ◌∙◌, ℕ, ◌+◌, ◌%◌, ◌<◌, ◌≢◌, ◌≡◌, refl, ap, List, [], ◌∷◌, true, ◌==◌, none, some, Option-cases,
  inl, inr, delete, ℕ-Key, Bool-cases, subst, ◌⊎◌, u32_mod, arith,
}
use opusref.Engine.Types.{Session, Floor, Engine, EndReason}
use opusref.Engine.Ops.{
  add_session, set_ready, touch, new_floor, request_floor, sequence_gap, sequence_delta, media,
  record_media,
}
use opusref.Engine.Release.{
  release_locked, end_floor, disconnect, expire_sessions, expire_floor, tick, begin_shutdown,
}
use opusref.Engine.Transactions.{transaction}
use opusref.Engine.Media.{media-cases}
use opusref.Engine.Ends.{end_floor_outcome}
use opusref.Engine.Invariant.{Inv, FloorOwned}
use opusref.Engine.Trace.{
  Call, adds_session, sets_ready, touches, requests_floor, sends_media, ends, disconnects, ticks,
  begins_shutdown, transacts, step, CallFits,
}
use opusref.Engine.FloorMachine.{
  view, may_release, FloorStep, stay, grant, start, advance, released-FloorStep,
}

module _ (e : Engine) (now : ℕ) where
  request_floor-floor :
      (id stream : ℕ) (source : List ℕ)
      → let floor = (request_floor e now id stream source).0.floor in
        (floor ≡ e.floor)
        ⊎ ((stream ≢ 0) × (e.floor ≡ none) × (floor ≡ some (new_floor now id stream source)))
  unfolding request_floor
  request_floor-floor id stream source = ground arith

  request_floor-FloorStep :
      (id stream : ℕ) (source : List ℕ)
      → FloorStep
          (requests_floor id stream source)
          (view e.floor)
          (view (request_floor e now id stream source).0.floor)
  unfolding view
  request_floor-FloorStep id stream source = elim (request_floor-floor id stream source) [
    | inl h ↦ rw h (stay refl)
    | inr (s, h, k) ↦ grant id stream source refl s (ap view h) (ap view k)
  ]

  record_media-FloorStep :
      (f : Floor) (sequence timestamp missing : ℕ) (address payload : List ℕ)
      → sequence < u32_mod
      → f.prior < u32_mod
      → (f.first_media ≢ 0 → f.has_prior ≡ true)
      → sequence_gap f sequence ≡ some missing
      → FloorStep
          (sends_media f.owner address f.stream sequence timestamp payload)
          (view (some f))
          (view (some (record_media f now sequence timestamp)))
  unfolding view sequence_gap sequence_delta
  record_media-FloorStep f sequence timestamp missing address payload fits prior has h =
      elim (Bool-cases (f.first_media == 0)) [
        | inl z ↦
            let zero_first : sequence ≡ 0 = ground arith in
            elim (Bool-cases (now == 0)) [
              | inl n ↦ stay (ground arith)
              | inr n ↦
                  start f.owner f.stream timestamp address payload
                    (ap (λ q. sends_media f.owner address f.stream q timestamp payload) zero_first)
                    (ground arith) (ground arith)
            ]
        | inr z ↦
            advance f.owner f.stream ((f.prior + 1) % u32_mod) missing sequence timestamp address
              payload refl (ground arith) (ground arith) (ground arith) (ground arith)
      ]

  media-FloorStep :
      (id : ℕ) (address : List ℕ) (stream sequence timestamp : ℕ) (payload : List ℕ)
      → Inv e
      → sequence < u32_mod
      → FloorStep
          (sends_media id address stream sequence timestamp payload)
          (view e.floor)
          (view (media e now id address stream sequence timestamp payload).0.floor)
  media-FloorStep id address stream sequence timestamp payload v fits =
      elim (media-cases e now id address stream sequence timestamp payload) [
        | inl (x, k) ↦ rw k (stay refl)
        | inr a ↦
            let owned = subst (FloorOwned e.sessions) a.held v.floor_owned in
            let called =
              ap (λ o. sends_media o address a.floor.stream sequence timestamp payload) a.owned
              ∙ ap (λ t. sends_media id address t sequence timestamp payload) a.streamed in
            rw (a.left, a.held)
              (subst
                (λ c.
                  FloorStep c (view (some a.floor))
                    (view (some (record_media a.floor now sequence timestamp))))
                called
                (record_media-FloorStep a.floor sequence timestamp a.missing address payload fits
                  owned.3 owned.2 a.in_order))
      ]

  disconnect-FloorStep :
      (id : ℕ) → FloorStep (disconnects id) (view e.floor) (view (disconnect e now id).0.floor)
  unfolding disconnect release_locked may_release
  disconnect-FloorStep id = released-FloorStep (disconnects id) _ _ (elim (Option-cases e.floor) [
    | inl h ↦ inl (ground arith)
    | inr (f, h) ↦ elim (Option-cases (disconnect e now id).0.floor) [
      | inl gone ↦ inr (f, h, ground (arith, h, gone), gone)
      | inr (g, kept) ↦ inl (ground (arith, h, kept))
    ]
  ])

  end_floor-FloorStep :
      (id stream sequence timestamp : ℕ) (reason : EndReason)
      → FloorStep
          (ends id stream sequence timestamp reason)
          (view e.floor)
          (view (end_floor e now id stream sequence timestamp reason).0.floor)
  end_floor-FloorStep id stream sequence timestamp reason =
      released-FloorStep (ends id stream sequence timestamp reason) _ _
        (elim (end_floor_outcome e now id stream sequence timestamp reason) [
          | inl (f, report, h, owned, streamed, _, k, _, _, _, _) ↦
              inr
                (f, h, unfold may_release in ground (arith, owned, streamed), ap (λ x. x.0.floor) k)
          | inr (_, k) ↦ inl (ap (λ x. x.0.floor) k)
        ])

  expire_floor-FloorStep : FloorStep ticks (view e.floor) (view (expire_floor e now).0.floor)
  unfolding expire_floor release_locked may_release
  expire_floor-FloorStep = released-FloorStep ticks _ _ (elim (Option-cases e.floor) [
    | inl h ↦ inl (ground arith)
    | inr (f, h) ↦ elim (Option-cases (expire_floor e now).0.floor) [
      | inl gone ↦ inr (f, h, ground (arith, h, gone), gone)
      | inr (g, kept) ↦ inl (ground (arith, h, kept))
    ]
  ])

  begin_shutdown-FloorStep :
      FloorStep begins_shutdown (view e.floor) (view (begin_shutdown e now).0.floor)
  unfolding begin_shutdown release_locked may_release
  begin_shutdown-FloorStep = released-FloorStep begins_shutdown _ _ (elim (Option-cases e.floor) [
    | inl h ↦ inl (ground arith)
    | inr (f, h) ↦ elim (Option-cases (begin_shutdown e now).0.floor) [
      | inl gone ↦ inr (f, h, ground (arith, h, gone), gone)
      | inr (g, kept) ↦ inl (ground (arith, h, kept))
    ]
  ])

-- The loop leaves the floor alone, or it releases it and returns.
expire_sessions-floor :
    (e : Engine) (now : ℕ) (rest : List (ℕ × Session))
    → let (e', end) = expire_sessions e now rest in
      ((end ≡ none) × (e'.floor ≡ e.floor)) ⊎ ((end ≢ none) × (e.floor ≢ none) × (e'.floor ≡ none))
unfolding expire_sessions disconnect release_locked
expire_sessions-floor e now [] = inl (refl, refl)
expire_sessions-floor e now ((id, s) ∷ rest) = ground (
  arith,
  expire_sessions-floor e now rest,
  expire_sessions-floor (record e { sessions = delete id e.sessions }) now rest,
)

pub tick-floor :
    (e : Engine) (now : ℕ)
    → let e' = (expire_sessions e now e.sessions).0 in
      ((tick e now).0 ≡ (expire_floor e' now).0) × (e'.floor ≡ e.floor)
      ⊎ (e.floor ≢ none) × ((tick e now).0.floor ≡ none)
unfolding tick
tick-floor e now = ground (arith, expire_sessions-floor e now e.sessions)

tick-FloorStep : (e : Engine) (now : ℕ) → FloorStep ticks (view e.floor) (view (tick e now).0.floor)
unfolding may_release
tick-FloorStep e now = elim (tick-floor e now) [
  | inl (h, k) ↦ rw h (
      subst
        (λ v.
          FloorStep ticks (view v)
            (view (expire_floor (expire_sessions e now e.sessions).0 now).0.floor))
        k (expire_floor-FloorStep (expire_sessions e now e.sessions).0 now))
  | inr (h, k) ↦ released-FloorStep ticks _ _ (elim (Option-cases e.floor) [
    | inl n ↦ inl (absurd (h n))
    | inr (f, held) ↦ inr (f, held, refl, k)
  ])
]

-- Every call moves the floor along its state machine, and only its holder's calls move it on: the
-- floor is granted to the session that asks for it, where it is idle and the stream is not 0; a
-- stream starts with the packet 0 of the session and stream that have the floor; after that each
-- accepted packet is of that session and stream too and comes less than 2 ^ 31 behind the one that is
-- due. The floor is released only by its holder's End of this stream or disconnection, by a tick
-- or by the shutdown. No other call changes its state, whichever sessions send what.
pub step-FloorStep :
    (e : Engine) (c : ℕ × Call)
    → CallFits c
    → Inv e
    → FloorStep c.1 (view e.floor) (view (step e c).floor)
unfolding step
step-FloorStep e (now, adds_session id address callsign ready) fits v =
    stay (unfold add_session in ground arith)
step-FloorStep e (now, sets_ready id) fits v = stay (unfold set_ready in ground arith)
step-FloorStep e (now, touches id address) fits v = stay (unfold touch in ground arith)
step-FloorStep e (now, requests_floor id stream source) fits v =
    request_floor-FloorStep e now id stream source
step-FloorStep e (now, sends_media id address stream sequence timestamp payload) fits v =
    media-FloorStep e now id address stream sequence timestamp payload v fits
step-FloorStep e (now, ends id stream sequence timestamp reason) fits v =
    end_floor-FloorStep e now id stream sequence timestamp reason
step-FloorStep e (now, disconnects id) fits v = disconnect-FloorStep e now id
step-FloorStep e (now, ticks) fits v = tick-FloorStep e now
step-FloorStep e (now, begins_shutdown) fits v = begin_shutdown-FloorStep e now
step-FloorStep e (now, transacts key fingerprint result) fits v =
    stay (unfold transaction in ground arith)
