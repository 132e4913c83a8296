-- ===== src/Engine/Ends.antt =====
-- pkg/server/engine.go, RequestFloor and End: when they succeed, and what End reports.
use opusref.Base.{
  ◌+◌, ◌%◌, u32_mod, ◌∙◌, subst, ℕ, ◌≢◌, ◌↔◌, ◌≡◌, List, true, false, ◌&&◌, ◌==◌, none, some,
  Option-cases, Bool-cases, ◌⊎◌, inl, inr, lookup, ℕ-Key, arith, ok, err,
}
use opusref.Engine.Types.{
  Floor, Engine, EndReason, StreamEnd, floor_granted, invalid_stream, TransactionKey-Key,
}
use opusref.Engine.Ops.{request_floor, held_floor}
use opusref.Engine.Release.{stream_end, release_locked, end_matches, end_floor}
use opusref.Engine.Invariant.{is_ready}

-- The floor is granted exactly where the session is ready, the engine runs, the stream is not 0 and
-- the floor is free.
pub request_floor-granted_iff :
    (e : Engine) (now id stream : ℕ) (source : List ℕ)
    → ((request_floor e now id stream source).1 ≡ floor_granted) ↔ (
        (is_ready (lookup id e.sessions) ≡ true)
        × (e.draining ≡ false)
        × (stream ≢ 0)
        × (e.floor ≡ none))
unfolding request_floor
request_floor-granted_iff e now id stream source = (λ h. ground arith, λ h. ground arith)

-- A request that is turned down leaves the floor and its owner as they are.
pub request_floor_refused :
    (e : Engine) (now id stream : ℕ) (source : List ℕ)
    → (request_floor e now id stream source).1 ≢ floor_granted
    → (request_floor e now id stream source).0.floor ≡ e.floor
unfolding request_floor
request_floor_refused e now id stream source h = ground arith

-- The sequence and timestamp that the end of a stream must carry: 0 and 0 before its first packet,
-- and after that the number behind the last packet's and that packet's timestamp.
abbrev pub IsDue : Floor → ℕ → ℕ → Type 0
IsDue f sequence timestamp =
    ((f.has_prior ≡ false) × (sequence ≡ 0) × (timestamp ≡ 0))
    ⊎ ((f.has_prior ≡ true) × (sequence ≡ (f.prior + 1) % u32_mod) × (timestamp ≡ f.timestamp))

end_matches-IsDue :
    (f : Floor) (sequence timestamp : ℕ)
    → end_matches f sequence timestamp ≡ true
    → IsDue f sequence timestamp
unfolding end_matches
end_matches-IsDue f sequence timestamp h = elim (Bool-cases f.has_prior) [
  | inl b ↦ inr (b, ground arith, ground arith)
  | inr b ↦ inl (b, ground arith, ground arith)
]

end_matches-false :
    (f : Floor) (sequence timestamp : ℕ)
    → end_matches f sequence timestamp ≡ false
    → ¬ IsDue f sequence timestamp
unfolding end_matches
end_matches-false f sequence timestamp h (inl (b, s, t)) = ground (arith, h, b, s, t)
end_matches-false f sequence timestamp h (inr (b, s, t)) = ground (arith, h, b, s, t)

-- What the report of a stream that ends says.
stream_end-report :
    (f : Floor) (now : ℕ) (reason : EndReason)
    → (let report = stream_end f now reason in
        (report.session_id ≡ f.owner)
        × (report.stream_id ≡ f.stream)
        × (report.reason ≡ reason)
        × (f.first_media ≢ 0
            → (report.sequence ≡ (f.prior + 1) % u32_mod) × (report.timestamp ≡ f.timestamp)))
unfolding stream_end
stream_end-report f now reason = (ground arith, ground arith, ground arith, λ h. ground (arith, h))

-- End succeeds exactly where `id` holds the floor with this stream and the request carries the
-- sequence and timestamp that are due: 0 and 0 before the first packet, and otherwise the number behind
-- that of the last packet and its timestamp. It then frees the floor and reports that session and
-- stream with the reason, and once media has come also that sequence and timestamp; it never returns
-- success with no report, which its caller would dereference. Otherwise it changes nothing.
pub end_floor_outcome :
    (e : Engine) (now id stream sequence timestamp : ℕ) (reason : EndReason)
    → let r = end_floor e now id stream sequence timestamp reason in
      ((f : Floor) × (report : StreamEnd) × (e.floor ≡ some f)
        × (f.owner ≡ id)
        × (f.stream ≡ stream)
        × IsDue f sequence timestamp
        × (r ≡ (record e { floor = none }, ok (some report)))
        × (report.session_id ≡ id)
        × (report.stream_id ≡ stream)
        × (report.reason ≡ reason)
        × (f.first_media ≢ 0
            → (report.sequence ≡ (f.prior + 1) % u32_mod) × (report.timestamp ≡ f.timestamp)))
      ⊎ (((f : Floor)
            → e.floor ≡ some f
            → f.owner ≡ id
            → f.stream ≡ stream
            → ¬ IsDue f sequence timestamp)
          × (r ≡ (e, err invalid_stream)))
unfolding end_floor held_floor release_locked
end_floor_outcome e now id stream sequence timestamp reason = elim (Option-cases e.floor) [
  | inl h ↦ inr (λ f k _ _. cc, ground arith)
  | inr (f, h) ↦
      elim (Bool-cases
        ((f.owner == id && f.stream == stream) && end_matches f sequence timestamp)) [
          | inl b ↦
              let (owner, of_stream, because, last) = stream_end-report f now reason in
              let owned : f.owner ≡ id = ground arith in
              let streamed : f.stream ≡ stream = ground arith in
              inl (
                f,
                stream_end f now reason,
                h,
                owned,
                streamed,
                end_matches-IsDue f sequence timestamp (ground arith),
                ground arith,
                owner ∙ owned,
                of_stream ∙ streamed,
                because,
                last,
              )
          | inr b ↦ inr (
            λ g k o t due. elim (Bool-cases (end_matches f sequence timestamp)) [
              | inl m ↦ ground (arith, h, k, o, t, b, m)
              | inr m ↦
                  let same : g ≡ f = ground (arith, h, k) in
                  end_matches-false f sequence timestamp m
                    (subst (λ x. IsDue x sequence timestamp) same due)
            ],
            ground arith,
          )
        ]
]
