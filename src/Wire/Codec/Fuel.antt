-- ===== src/Wire/Codec/Fuel.antt =====
-- pkg/wire/codec.go: the rounds that Decode's loop is given are enough.
use opusref.Base.{
  ℕ, zero, suc, ◌-◌, ◌≤◌, ◌≢◌, List, [], ◌∷◌, length, drop, slice, be16, err, arith, length-drop,
  length-take, length-take,
}
use opusref.Wire.Types.{out_of_fuel, base_header_size}
use opusref.Wire.Codec.{get_extensions, decode}
use opusref.Wire.Tlv.{aligned_tlv_size, validate_tlv_value}
use opusref.Wire.TlvType.{base_type}
use opusref.Wire.Codec.{value_length, value_of}

valid-ne-out_of_fuel : (typ : ℕ) (value : List ℕ) → validate_tlv_value typ value ≢ err out_of_fuel
unfolding validate_tlv_value
valid-ne-out_of_fuel typ value = ground arith

get_extensions-ne-out_of_fuel :
    (fuel : ℕ) (rest seen : List ℕ)
    → length rest ≤ fuel
    → get_extensions fuel rest seen ≢ err out_of_fuel
unfolding get_extensions
get_extensions-ne-out_of_fuel fuel [] seen enough = λ q. cc
get_extensions-ne-out_of_fuel zero (b ∷ bs) seen enough = absurd (omega arith)
get_extensions-ne-out_of_fuel (suc fuel) (b ∷ bs) seen enough = ground (
  arith,
  valid-ne-out_of_fuel (base_type (be16 (b ∷ bs))) (value_of (b ∷ bs)),
  length-drop (aligned_tlv_size (value_length (b ∷ bs))) (b ∷ bs),
  get_extensions-ne-out_of_fuel fuel (drop (aligned_tlv_size (value_length (b ∷ bs))) (b ∷ bs))
      (base_type (be16 (b ∷ bs)) ∷ seen),
)

-- Decode always gives one of Go's results: on no datagram does the loop stop for want of rounds.
pub decode-ne-out_of_fuel : (datagram : List ℕ) → decode datagram ≢ err out_of_fuel
unfolding decode
decode-ne-out_of_fuel datagram = ground (
  arith,
  length-take (be16 (slice datagram 8 10) - base_header_size) (drop base_header_size datagram),
  length-drop base_header_size datagram,
  get_extensions-ne-out_of_fuel (length datagram)
      (slice datagram base_header_size (be16 (slice datagram 8 10))) [],
)
