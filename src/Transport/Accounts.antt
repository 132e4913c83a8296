-- ===== src/Transport/Accounts.antt =====
-- internal/transport/udp.go: what becomes of the datagrams and batches that are handed over.
use opusref.Base.{
  ℕ, suc, ◌+◌, ◌%◌, ◌≡◌, refl, List, [], ◌∷◌, ◌==◌, if◌then◌else◌, length, lookup, insert,
  lookup-insert, ℕ-Key, u64_mod, arith, ==_iff,
}
use opusref.Transport.{MediaBatch, MediaDrops, Udp, drops_of, count_batches, disable_media}

-- Of the batches of a kind: how many, and how many recipients they have.
unfoldable pub frames_of : ℕ → List MediaBatch → ℕ
frames_of kind [] = 0
frames_of kind (b ∷ rest) =
    if b.kind == kind then suc (frames_of kind rest) else frames_of kind rest

unfoldable pub recipients_of : ℕ → List MediaBatch → ℕ
recipients_of kind [] = 0
recipients_of kind (b ∷ rest) =
    if b.kind == kind
    then length b.recipients + recipients_of kind rest
    else recipients_of kind rest

drops_of-insert :
    (kind k : ℕ) (count : MediaDrops) (drops : List (ℕ × MediaDrops))
    → drops_of kind (insert k count drops) ≡ (if k == kind then count else drops_of kind drops)
unfolding drops_of
drops_of-insert kind k count drops = ground (arith, lookup-insert k kind count drops)

count_batches-drops_of :
    (kind : ℕ) (batches : List MediaBatch) (drops : List (ℕ × MediaDrops))
    → ((drops_of kind (count_batches batches drops)).frames % u64_mod
        ≡ ((drops_of kind drops).frames + frames_of kind batches) % u64_mod)
      × ((drops_of kind (count_batches batches drops)).recipients % u64_mod
          ≡ ((drops_of kind drops).recipients + recipients_of kind batches) % u64_mod)
unfolding count_batches frames_of recipients_of
count_batches-drops_of kind [] drops = (omega arith, omega arith)
count_batches-drops_of kind (b ∷ rest) drops =
    let count : MediaDrops = record {
      frames = ((drops_of b.kind drops).frames + 1) % u64_mod;
      recipients = ((drops_of b.kind drops).recipients + length b.recipients) % u64_mod;
    } in
    ground (
      arith,
      ==_iff b.kind kind,
      drops_of-insert kind b.kind count drops,
      count_batches-drops_of kind rest (insert b.kind count drops),
    )

drops_of-nil : (kind : ℕ) → ((drops_of kind []).frames ≡ 0) × ((drops_of kind []).recipients ≡ 0)
unfolding drops_of lookup
drops_of-nil kind = (refl, refl)

-- What DisableMedia reports for a kind is what stood in the media queue of that kind, the batches
-- and their recipients, modulo 2 ^ 64; and nothing stands in the queue any more.
pub disable_media-drops_of :
    (u : Udp) (kind : ℕ)
    → ((drops_of kind (disable_media u).1).frames % u64_mod ≡ frames_of kind u.media % u64_mod)
      × ((drops_of kind (disable_media u).1).recipients % u64_mod
          ≡ recipients_of kind u.media % u64_mod)
      × ((disable_media u).0.media ≡ [])
unfolding disable_media
disable_media-drops_of u kind =
    let (frames, recipients) = count_batches-drops_of kind u.media [] in
    let (no_frames, no_recipients) = drops_of-nil kind in
    (omega (arith, frames, no_frames), omega (arith, recipients, no_recipients), refl)
