-- ===== src/Client/Numbering.antt =====
-- pkg/client/client.go against pkg/server/engine.go: the numbers that the client gives its frames
-- are those that the engine's floor waits for.
use opusref.Base.{
  ℕ, zero, suc, ◌+◌, ◌%◌, ◌≡◌, ◌≢◌, refl, List, [], ◌∷◌, true, false, not, ◌==◌, Option, none, some,
  has, if◌then◌else◌, ok, u32_mod, arith, Bool-cases, inl, inr,
}
use opusref.Engine.Types.{Floor}
use opusref.Engine.Ops.{new_floor, sequence_delta, sequence_gap, record_media}
use opusref.Engine.Release.{end_matches}
use opusref.Client.Types.{Outbound, Client}
use opusref.Client.Queue.{request_finish, release_control, enqueue_media}
use opusref.Client.Sending.{end_request, end_begin}

-- The client that has offered these frames, and those of them that it accepted, as it queued them.
unfoldable pub speak : Client → List Outbound → Client × List Outbound
speak c [] = (c, [])
speak c (out ∷ outs) =
    let (c', e) = enqueue_media c out in
    let (end, sent) = speak c' outs in
    (
      end,
      if has e then sent else record out { stream_id = c.stream_id; sequence = c.sequence } ∷ sent,
    )

-- The floor behind these frames, where none comes out of turn and none is missing; `clock` gives
-- the times at which they come.
unfoldable pub hear : Floor → (ℕ → ℕ) → ℕ → List Outbound → Option Floor
hear f clock n [] = some f
hear f clock n (out ∷ outs) = elim (sequence_gap f out.sequence) [
  | none ↦ none
  | some zero ↦ hear (record_media f (clock n) out.sequence out.timestamp) clock (suc n) outs
  | some (suc missing) ↦ none
]

record Synced (c : Client) (f : Floor) : Type 0 where
  active : c.stream ≡ true
  stream : f.stream ≡ c.stream_id
  started : (f.first_media == 0) ≡ not f.has_prior
  first : f.has_prior ≡ false → (c.sequence ≡ 0) × (c.last_timestamp ≡ 0)
  next :
      f.has_prior ≡ true → (c.sequence ≡ (f.prior + 1) % u32_mod) × (c.last_timestamp ≡ f.timestamp)

sequence_delta_refl : (n : ℕ) → n % u32_mod ≡ n → sequence_delta n n ≡ some 0
unfolding sequence_delta
sequence_delta_refl n h = ground arith

Synced-sequence_gap : (c : Client) (f : Floor) → Synced c f → sequence_gap f c.sequence ≡ some 0
unfolding sequence_gap
Synced-sequence_gap c f s =
    ground (arith, s.started, s.first, s.next, sequence_delta_refl c.sequence)

-- A frame that the client accepts keeps the two in step; one that it refuses changes nothing.
Synced-enqueue_media :
    (c : Client) (f : Floor) (out : Outbound) (now : ℕ)
    → now ≢ 0
    → Synced c f
    → has (enqueue_media c out).1 ≡ false
    → Synced (enqueue_media c out).0 (record_media f now c.sequence out.timestamp)
unfolding enqueue_media
Synced-enqueue_media c f out now positive s accepted = ground (arith, s.active, s.stream, s.started)

enqueue_media_refused :
    (c : Client) (out : Outbound) → has (enqueue_media c out).1 ≡ true → (enqueue_media c out).0 ≡ c
unfolding enqueue_media
enqueue_media_refused c out refused = ground arith

speak-∷_refused :
    (c : Client) (out : Outbound) (outs : List Outbound)
    → has (enqueue_media c out).1 ≡ true
    → speak c (out ∷ outs) ≡ speak c outs
unfolding speak
speak-∷_refused c out outs refused = rw (refused, enqueue_media_refused c out refused)

speak-∷_accepted :
    (c : Client) (out : Outbound) (outs : List Outbound)
    → has (enqueue_media c out).1 ≡ false
    → speak c (out ∷ outs) ≡ (
      (speak (enqueue_media c out).0 outs).0,
      record out { stream_id = c.stream_id; sequence = c.sequence }
          ∷ (speak (enqueue_media c out).0 outs).1,
    )
unfolding speak
speak-∷_accepted c out outs accepted = rw accepted

hear-∷ :
    (f : Floor) (clock : ℕ → ℕ) (n : ℕ) (out : Outbound) (outs : List Outbound)
    → sequence_gap f out.sequence ≡ some 0
    → hear f clock n (out ∷ outs)
      ≡ hear (record_media f (clock n) out.sequence out.timestamp) clock (suc n) outs
unfolding hear
hear-∷ f clock n out outs gap = rw (hear, gap)

hear-speak :
    (c : Client) (f : Floor) (clock : ℕ → ℕ) (n : ℕ) (outs : List Outbound)
    → ((i : ℕ) → clock i ≢ 0)
    → Synced c f
    → (f' : Floor) × (hear f clock n (speak c outs).1 ≡ some f') × Synced (speak c outs).0 f'
hear-speak c f clock n [] positive s = unfold hear speak in (f, refl, s)
hear-speak c f clock n (out ∷ outs) positive s = elim (Bool-cases (has (enqueue_media c out).1)) [
  | inl refused ↦ rw (speak-∷_refused c out outs refused) (hear-speak c f clock n outs positive s)
  | inr accepted ↦
      rw
        (
          speak-∷_accepted c out outs accepted,
          hear-∷ f clock n (record out { stream_id = c.stream_id; sequence = c.sequence })
              (speak (enqueue_media c out).0 outs).1 (Synced-sequence_gap c f s),
        )
        (hear-speak (enqueue_media c out).0 (record_media f (clock n) c.sequence out.timestamp)
          clock (suc n) outs positive
          (Synced-enqueue_media c f out (clock n) (positive n) s accepted))
]

-- The client whose request was granted and the floor that the grant made.
Synced-request_finish :
    (c : Client) (out : Outbound) (now id : ℕ) (source : List ℕ)
    → Synced (request_finish c out none).0 (new_floor now id out.stream_id source)
unfolding request_finish release_control
Synced-request_finish c out now id source = ground arith

end_begin-end_matches :
    (c : Client) (f : Floor)
    → Synced c f
    → ((end_begin c).1 ≡ ok (end_request c, c.media_accepted))
      × (f.stream ≡ (end_request c).stream_id)
      × (end_matches f (end_request c).sequence (end_request c).timestamp ≡ true)
unfolding end_begin end_matches
end_begin-end_matches c f s = (ground (arith, s.active), s.stream, ground (arith, s.first, s.next))

pub speak-hear :
    (c : Client) (grant : Outbound) (now id : ℕ) (source : List ℕ) (clock : ℕ → ℕ)
    (outs : List Outbound)
    → ((i : ℕ) → clock i ≢ 0)
    → let (c', sent) = speak (request_finish c grant none).0 outs in
      (f : Floor) × (hear (new_floor now id grant.stream_id source) clock 0 sent ≡ some f)
      × ((end_begin c').1 ≡ ok (end_request c', c'.media_accepted))
      × (f.stream ≡ (end_request c').stream_id)
      × (end_matches f (end_request c').sequence (end_request c').timestamp ≡ true)
speak-hear c grant now id source clock outs positive =
    let (f, heard, synced) =
      hear-speak (request_finish c grant none).0 (new_floor now id grant.stream_id source) clock 0
        outs positive (Synced-request_finish c grant now id source) in
    let (request, stream, matches) = end_begin-end_matches _ f synced in
    (f, heard, request, stream, matches)
