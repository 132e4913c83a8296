-- ===== src/Wire/Codec/HeaderBytes.antt =====
-- pkg/wire/codec.go: the header that Decode reads, put again by Encode.
use opusref.Base.{
  ℕ, ◌≤◌, ◌≡◌, refl, sym, ap, ◌∙◌, be16-lt, List, ◌∷◌, ◌++◌, length, drop, slice, IsByte, IsBytes,
  be16, put16, get_or, put32, put64, be32, be64, arith, be16-lt, All-drop, All-get_or,
}
use opusref.Base.{opening_six, slice-IsBytes, word16, word32, word64, be32-lt}
use opusref.Wire.Types.{HeaderFits, magic}
use opusref.Wire.Codec.{put_header, get_header}

module _ (d : List ℕ) (bytes : IsBytes d) where
  pub put_header-get_header :
      32 ≤ length d
      → slice d 0 4 ≡ magic
      → put_header (get_header d) (get_header d).header_length (get_header d).payload_length
          ++ drop 32 d
        ≡ d
  unfolding put_header get_header
  put_header-get_header h m =
      ap (λ x. magic ++ (get_or d 4 0 ∷ get_or d 5 0 ∷ x)) fields
      ∙ ap (λ x. x ++ (get_or d 4 0 ∷ get_or d 5 0 ∷ drop 6 d)) (sym m)
      ∙ opening_six d (omega arith)
    where
      media :
          put32 (be32 (slice d 20 24))
            ++ (put32 (be32 (slice d 24 28)) ++ (put32 (be32 (slice d 28 32)) ++ drop 32 d))
          ≡ drop 20 d
      media =
          ap (◌++◌ (put32 (be32 (slice d 20 24)))) (
            ap (◌++◌ (put32 (be32 (slice d 24 28)))) (word32 d bytes 28 32 refl h)
            ∙ word32 d bytes 24 28 refl (omega arith))
          ∙ word32 d bytes 20 24 refl (omega arith)

      fields :
          put16 (be16 (slice d 6 8))
            ++ (put16 (be16 (slice d 8 10))
                ++ (put16 (be16 (slice d 10 12))
                    ++ (put64 (be64 (slice d 12 20))
                        ++ (put32 (be32 (slice d 20 24))
                            ++ (put32 (be32 (slice d 24 28))
                                ++ (put32 (be32 (slice d 28 32)) ++ drop 32 d))))))
          ≡ drop 6 d
      fields =
          rw
            (
              media,
              word64 d bytes 12 20 refl (omega arith),
              word16 d bytes 10 12 refl (omega arith),
              word16 d bytes 8 10 refl (omega arith),
            )
            (word16 d bytes 6 8 refl (omega arith))

  pub get_header-HeaderFits : HeaderFits (get_header d)
  unfolding get_header
  get_header-HeaderFits = record {
    version_fits = All-get_or IsByte d 4 0 bytes (omega arith);
    typ_fits = All-get_or IsByte d 5 0 bytes (omega arith);
    flags_fits = be16-lt _ (slice-IsBytes d bytes 6 8);
    session_fits = omega (
      arith,
      be32-lt _ (slice-IsBytes d bytes 12 20),
      be32-lt (drop 4 (slice d 12 20)) (All-drop IsByte 4 _ (slice-IsBytes d bytes 12 20)),
    );
    stream_fits = be32-lt _ (slice-IsBytes d bytes 20 24);
    sequence_fits = be32-lt _ (slice-IsBytes d bytes 24 28);
    timestamp_fits = be32-lt _ (slice-IsBytes d bytes 28 32);
  }
