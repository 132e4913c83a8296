-- ===== src/Engine/Gaps.antt =====
-- pkg/server/engine.go, Media: the count of missing packets over a stream.
use opusref.Base.{
  ℕ, ◌+◌, ◌%◌, ◌<◌, ◌≢◌, ◌≡◌, List, [], ◌∷◌, true, ◌==◌, if◌then◌else◌, some, inl, inr, ℕ-Key,
  u32_mod, u64_mod, arith, Result, ok, err,
}
use opusref.Engine.Types.{Floor, Engine, EngineError}
use opusref.Engine.Ops.{sequence_gap, sequence_delta, record_media, media}
use opusref.Engine.Invariant.{Inv}
use opusref.Engine.Media.{media-cases}
use opusref.Base.{All, subst}
use opusref.Engine.Invariant.{FloorOwned, media-Inv}

-- The sequence number that the floor waits for.
abbrev pub due : Floor → ℕ
due f = if f.first_media == 0 then 0 else f.prior + 1

-- One packet as it comes in, for a given session and stream.
pub record Arrival : Type 0 where
  pub now : ℕ
  pub address : List ℕ
  pub sequence : ℕ
  pub timestamp : ℕ
  pub payload : List ℕ

abbrev pub was_accepted {ℓ} : {A : Type ℓ} → Result EngineError A → ℕ
was_accepted (ok a) = 1
was_accepted (err x) = 0

-- The packets of one stream, one after the other: the engine that they leave, and how many of them
-- were accepted.
unfoldable pub play : ℕ → ℕ → Engine → List Arrival → Engine × ℕ
play id stream e [] = (e, 0)
play id stream e (a ∷ rest) =
    let (e', r) = media e a.now id a.address stream a.sequence a.timestamp a.payload in
    let (e'', n) = play id stream e' rest in (e'', was_accepted r + n)

sequence_gap-due :
    (f : Floor) (now sequence timestamp missing gaps : ℕ)
    → now ≢ 0
    → sequence < u32_mod
    → f.prior < u32_mod
    → (f.first_media ≢ 0 → f.has_prior ≡ true)
    → sequence_gap f sequence ≡ some missing
    → (due f + 1 + (gaps + missing) % u64_mod) % u32_mod
      ≡ (due (record_media f now sequence timestamp) + gaps) % u32_mod
unfolding sequence_gap sequence_delta
sequence_gap-due f now sequence timestamp missing gaps clock fits prior has h = ground arith

abbrev pub Fits : Arrival → Type 0
Fits a = (a.now ≢ 0) × (a.sequence < u32_mod)

media-due :
    (id stream : ℕ) (e : Engine) (f : Floor) (a : Arrival)
    → Inv e
    → e.floor ≡ some f
    → Fits a
    → let (e', r) = media e a.now id a.address stream a.sequence a.timestamp a.payload in
      (f' : Floor) × (e'.floor ≡ some f')
      × ((due f + was_accepted r + e'.gaps) % u32_mod ≡ (due f' + e.gaps) % u32_mod)
media-due id stream e f a v held fits =
    elim (media-cases e a.now id a.address stream a.sequence a.timestamp a.payload) [
      | inl (x, k) ↦ rw k (f, held, omega arith)
      | inr c ↦
          let owned = subst (FloorOwned e.sessions) c.held v.floor_owned in
          let q : f ≡ c.floor = cc (held, c.held) in
          (
            record_media c.floor a.now a.sequence a.timestamp,
            rw c.left,
            rw (c.left, c.sent, q)
                (sequence_gap-due c.floor a.now a.sequence a.timestamp c.missing e.gaps fits.0
                  fits.1 owned.3 owned.2 c.in_order),
          )
    ]

-- However the packets of a stream are lost, repeated or put out of order on their way: the sequence
-- number that the floor waits for has moved, modulo 2 ^ 32, by the number of packets accepted and
-- the number counted as missing.
pub due-play :
    (id stream : ℕ) (e : Engine) (f : Floor) (arrivals : List Arrival)
    → Inv e
    → e.floor ≡ some f
    → All Fits arrivals
    → let (e', accepted) = play id stream e arrivals in
      (f' : Floor) × (e'.floor ≡ some f')
      × ((due f + accepted + e'.gaps) % u32_mod ≡ (due f' + e.gaps) % u32_mod)
unfolding play
due-play id stream e f [] v held fits = (f, held, omega arith)
due-play id stream e f (a ∷ rest) v held fits =
    let (f1, held1, eq1) = media-due id stream e f a v held fits.0 in
    let e1 = (media e a.now id a.address stream a.sequence a.timestamp a.payload).0 in
    let v1 = media-Inv e a.now v id a.address stream a.sequence a.timestamp a.payload fits.0.1 in
    let (f2, held2, eq2) = due-play id stream e1 f1 rest v1 held1 fits.1 in (f2, held2, omega arith)
