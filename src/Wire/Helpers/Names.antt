-- ===== src/Wire/Helpers/Names.antt =====
-- pkg/wire/helpers.go: a callsign from the wire, trimmed and encoded again.
use opusref.Base.{
  ℕ, suc, ◌≤◌, ◌-◌, ◌<◌, ◌≡◌, List, [], ◌∷◌, ◌++◌, Bool, true, false, ◌==◌, if◌then◌else◌, length,
  ltb, subst, map, replicate, ok, arith,
}
use opusref.Wire.Types.{callsign_size}
use opusref.Wire.Tlv.{identifier_char, all_spaces, content, valid_padded_identifier}
use opusref.Wire.Helpers.{
  all_ascii, upper_byte, to_upper, callsign, reflector_id, is_space, trim_left, trim_right,
  trim_space,
}

-- What stands before the first space.
name : List ℕ → List ℕ
name [] = []
name (c ∷ cs) = let rest = name cs in if c == b' ' then [] else c ∷ rest

trim_right-spaces : (d : List ℕ) → all_spaces d ≡ true → trim_right d ≡ []
unfolding all_spaces trim_right is_space
trim_right-spaces [] h = ground arith
trim_right-spaces (c ∷ cs) h = ground (arith, trim_right-spaces cs)

replicate-spaces : (d : List ℕ) → all_spaces d ≡ true → replicate (length d) b' ' ≡ d
unfolding all_spaces
replicate-spaces [] h = ground arith
replicate-spaces (c ∷ cs) h = ground (arith, replicate-spaces cs)

trim_right-name : (seen : Bool) (d : List ℕ) → content seen d ≡ true → trim_right d ≡ name d
unfolding content all_spaces trim_right is_space name identifier_char
trim_right-name seen [] h = ground arith
trim_right-name seen (c ∷ cs) h = ground (arith, trim_right-name true cs, trim_right-spaces cs)

name-padding :
    (seen : Bool) (d : List ℕ)
    → content seen d ≡ true
    → name d ++ replicate (length d - length (name d)) b' ' ≡ d
unfolding content all_spaces name
name-padding seen [] h = ground arith
name-padding seen (c ∷ cs) h = ground (arith, name-padding true cs, replicate-spaces cs)

name-upper :
    (seen : Bool) (d : List ℕ)
    → content seen d ≡ true
    → (all_ascii (name d) ≡ true) × (map upper_byte (name d) ≡ name d)
unfolding content name all_ascii upper_byte identifier_char
name-upper seen [] h = ground arith
name-upper seen (c ∷ cs) h = ground (arith, name-upper true cs)

trim_space-name :
    (d : List ℕ) (size : ℕ) → valid_padded_identifier d size ≡ true → trim_space d ≡ name d
unfolding valid_padded_identifier content name trim_left trim_space identifier_char is_space
trim_space-name [] size h = ground arith
trim_space-name (c ∷ cs) size h = ground (arith, trim_right-name false (c ∷ cs))

name-shorter : (d : List ℕ) → length (name d) ≤ length d
unfolding name
name-shorter [] = ground arith
name-shorter (c ∷ cs) = ground (arith, name-shorter cs)

name_bounds :
    (d : List ℕ) (size : ℕ)
    → valid_padded_identifier d size ≡ true
    → (0 < length (name d))
      × (length (name d) < suc size)
      × (length d ≡ size)
      × (content false d ≡ true)
unfolding valid_padded_identifier content name
name_bounds [] size h = ground arith
name_bounds (c ∷ cs) size h = ground (arith, name-shorter cs)

module _ (unicode_upper : List ℕ → List ℕ) (d : List ℕ) where
  to_upper-name : content false d ≡ true → to_upper unicode_upper (name d) ≡ name d
  unfolding to_upper
  to_upper-name h = let (ascii, same) = name-upper false d h in rw (ascii, same)

  padded :
      (size : ℕ)
      → valid_padded_identifier d size ≡ true
      → (name d ++ replicate (size - length (name d)) b' ' ≡ d)
        × (ltb (length (name d)) 1 ≡ false)
        × (ltb size (length (name d)) ≡ false)
  padded size h =
      let (positive, short, long, inner) = name_bounds d size h in
      (
        subst (λ n. name d ++ replicate (n - length (name d)) b' ' ≡ d) long
            (name-padding false d inner),
        ground arith,
        ground arith,
      )

  -- A callsign in its form on the wire, trimmed as the reflector stores it and encoded again, is
  -- the same ten bytes, whatever ToUpper does to strings that are not ASCII.
  pub callsign-trim_space :
      valid_padded_identifier d callsign_size ≡ true → callsign unicode_upper (trim_space d) ≡ ok d
  unfolding callsign
  callsign-trim_space h =
      let (pad, positive, short) = padded callsign_size h in
      let (_, _, _, inner) = name_bounds d callsign_size h in
      rw (trim_space-name d callsign_size h, to_upper-name inner, positive, short, pad, h)

  -- So is a reflector ID.
  pub reflector_id-trim_space :
      valid_padded_identifier d 16 ≡ true → reflector_id unicode_upper (trim_space d) ≡ ok d
  unfolding reflector_id
  reflector_id-trim_space h =
      let (pad, positive, short) = padded 16 h in
      let (_, _, _, inner) = name_bounds d 16 h in
      rw (trim_space-name d 16 h, to_upper-name inner, positive, short, pad, h)
