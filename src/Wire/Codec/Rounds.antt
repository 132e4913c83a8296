-- ===== src/Wire/Codec/Rounds.antt =====
-- pkg/wire/codec.go: Encode's extension loop puts back what Decode's loop has read.
use opusref.Base.{
  ℕ, zero, suc, ◌+◌, ◌-◌, ◌≤◌, ◌<◌, ◌≡◌, refl, ap, ap₂, subst, be16-lt, List, [], ◌∷◌, ◌++◌, true,
  not, ◌&&◌, leb, leb→le, le→leb, length, drop, replicate, All, IsByte, IsBytes, be16, put16,
  put16-be16, contains, ok, guard-eq-ok, >>=-eq-ok, arith, length-slice, length-drop,
  slice-append-drop, All-drop, All-take,
}
use opusref.Wire.Types.{Tlv, TlvFits}
use opusref.Wire.TlvType.{base_type, is_critical, known_tlv}
use opusref.Wire.Tlv.{aligned_tlv_size, validate_tlv_value}
use opusref.Wire.Codec.{
  validate_extensions, put_extensions, all_zero, value_length, value_of, padding_of, get_extensions,
}

replicate_of_all_zero : (bs : List ℕ) → all_zero bs ≡ true → replicate (length bs) 0 ≡ bs
unfolding all_zero
replicate_of_all_zero [] h = refl
replicate_of_all_zero (b ∷ bs) h = ground (arith, replicate_of_all_zero bs)

-- What a successful round of Decode's loop has found, in `rest`.
record IsRound (fuel : ℕ) (rest : List ℕ) (seen : List ℕ) (ts : List Tlv) : Type 0 where
  whole : 4 ≤ length rest
  inside : aligned_tlv_size (value_length rest) ≤ length rest
  fresh : not (contains seen (base_type (be16 rest))) ≡ true
  known : not (is_critical (be16 rest) && not (known_tlv (base_type (be16 rest)))) ≡ true
  zeros : all_zero (padding_of rest) ≡ true
  valid : validate_tlv_value (base_type (be16 rest)) (value_of rest) ≡ ok tt
  more : List Tlv
  next :
      get_extensions fuel
        (drop (aligned_tlv_size (value_length rest)) rest)
        (base_type (be16 rest) ∷ seen)
      ≡ ok more
  result : record { typ = be16 rest; value = value_of rest } ∷ more ≡ ts

get_extensions-IsRound :
    (fuel b : ℕ) (bs seen : List ℕ) {ts : List Tlv}
    → get_extensions (suc fuel) (b ∷ bs) seen ≡ ok ts
    → IsRound fuel (b ∷ bs) seen ts
unfolding get_extensions
get_extensions-IsRound fuel b bs seen h =
    let (whole, h1) = guard-eq-ok _ _ _ h in
    let (inside, h2) = guard-eq-ok _ _ _ h1 in
    let (fresh, h3) = guard-eq-ok _ _ _ h2 in
    let (known, h4) = guard-eq-ok _ _ _ h3 in
    let (zeros, h5) = guard-eq-ok _ _ _ h4 in
    let (_, valid, h6) = >>=-eq-ok _ _ h5 in
    let (more, next, h7) = >>=-eq-ok _ _ h6 in
    record {
      whole = leb→le _ _ whole;
      inside = leb→le _ _ inside;
      fresh = fresh;
      known = known;
      zeros = zeros;
      valid = valid;
      more = more;
      next = next;
      result = cc;
    }

put16_twice :
    (bs : List ℕ)
    → 4 ≤ length bs
    → IsBytes bs
    → put16 (be16 bs) ++ (put16 (be16 (drop 2 bs)) ++ drop 4 bs) ≡ bs
put16_twice [] h _ = absurd (omega arith)
put16_twice (a ∷ []) h _ = absurd (omega arith)
put16_twice (a ∷ b ∷ []) h _ = absurd (omega arith)
put16_twice (a ∷ b ∷ c ∷ []) h _ = absurd (omega arith)
put16_twice (a ∷ b ∷ c ∷ d ∷ bs) h v =
    ap₂ (λ x y. x ++ (y ++ bs)) (put16-be16 (a ∷ b ∷ []) refl (v.0, (v.1.0, tt)))
      (put16-be16 (c ∷ d ∷ []) refl (v.1.1.0, (v.1.1.1.0, tt)))

-- The bytes of one extension are those that Encode puts for it.
module _ (rest : List ℕ) (bytes : IsBytes rest) (whole : 4 ≤ length rest)
    (inside : aligned_tlv_size (value_length rest) ≤ length rest)
    (zeros : all_zero (padding_of rest) ≡ true) where
  length-value_of : length (value_of rest) ≡ value_length rest
  unfolding value_of
  length-value_of =
      omega (arith, length-slice rest 4 (4 + value_length rest) (omega arith) (omega arith))

  length-padding_of :
      length (padding_of rest) ≡ aligned_tlv_size (value_length rest) - (4 + value_length rest)
  unfolding padding_of
  length-padding_of = length-slice rest _ _ (omega arith) inside

  put_rest :
      put16 (be16 rest)
        ++ (put16 (length (value_of rest))
            ++ (value_of rest
                ++ (replicate
                      (aligned_tlv_size (length (value_of rest)) - (4 + length (value_of rest)))
                      0
                    ++ drop (aligned_tlv_size (value_length rest)) rest)))
      ≡ rest
  put_rest =
      rw
        (
          length-value_of,
          ← length-padding_of,
          replicate_of_all_zero (padding_of rest) zeros,
          pad,
          val,
        )
        (unfold value_length in put16_twice rest whole bytes)
    where
      size : ℕ
      size = aligned_tlv_size (value_length rest)

      pad :
          padding_of rest ++ drop (aligned_tlv_size (value_length rest)) rest
          ≡ drop (4 + value_length rest) rest
      pad = unfold padding_of in slice-append-drop rest _ _ (omega arith)

      val : value_of rest ++ drop (4 + value_length rest) rest ≡ drop 4 rest
      val = unfold value_of in slice-append-drop rest _ _ (omega arith)

-- Encode's check accepts what Decode's loop has read, and its loop puts the same bytes back.
pub record PutsBack (ts : List Tlv) (rest seen : List ℕ) : Type 0 where
  pub puts : put_extensions ts ≡ rest
  pub accepts : validate_extensions ts seen ≡ ok (length rest)
  pub fits : All TlvFits ts

round-PutsBack :
    (fuel : ℕ) (rest seen : List ℕ) {ts : List Tlv} (r : IsRound fuel rest seen ts)
    → IsBytes rest
    → PutsBack r.more
        (drop (aligned_tlv_size (value_length rest)) rest)
        (base_type (be16 rest) ∷ seen)
    → PutsBack (record { typ = be16 rest; value = value_of rest } ∷ r.more) rest seen
unfolding put_extensions validate_extensions
round-PutsBack fuel rest seen r bytes p =
    let len = length-value_of rest bytes r.whole r.inside r.zeros in
    let short : value_length rest < 65536 =
      unfold value_length in be16-lt (drop 2 rest) (All-drop IsByte 2 rest bytes) in
    let fits16 : leb (length (value_of rest)) 65535 ≡ true = le→leb _ _ (omega arith) in
    record {
      puts = rw p.puts (put_rest rest bytes r.whole r.inside r.zeros);
      accepts =
          rw (fits16, r.fresh, r.known, r.valid, p.accepts, len)
            (ap ok (omega (arith, length-drop (aligned_tlv_size (value_length rest)) rest)));
      fits = (
        (be16-lt rest bytes, unfold value_of in All-take IsByte _ _ (All-drop IsByte 4 rest bytes)),
        p.fits,
      );
    }

pub get_extensions-PutsBack :
    (fuel : ℕ) (rest seen : List ℕ) {ts : List Tlv}
    → IsBytes rest
    → get_extensions fuel rest seen ≡ ok ts
    → PutsBack ts rest seen
get_extensions-PutsBack fuel [] seen bytes h =
    subst (λ ts. PutsBack ts [] seen) {x = []} (unfold get_extensions in cc)
      (record {
        puts = unfold put_extensions in refl;
        accepts = unfold validate_extensions in refl;
        fits = tt;
      })
get_extensions-PutsBack zero (b ∷ bs) seen bytes h = unfold get_extensions in cc
get_extensions-PutsBack (suc fuel) (b ∷ bs) seen bytes h =
    let r = get_extensions-IsRound fuel b bs seen h in
    subst (λ ts. PutsBack ts (b ∷ bs) seen) r.result
      (round-PutsBack fuel (b ∷ bs) seen r bytes
        (get_extensions-PutsBack fuel _ _ (All-drop IsByte _ (b ∷ bs) bytes) r.next))
