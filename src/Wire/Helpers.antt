-- ===== src/Wire/Helpers.antt =====
-- pkg/wire/helpers.go: extensions found and made, callsigns and reflector IDs. The texts of the two
-- errors are their constructors. The proofs are below.
pub mod Names
pub mod Found
use opusref.Base.{
  ℕ, ◌-◌, List, [], ◌∷◌, ◌++◌, Bool, true, not, ◌&&◌, ◌||◌, ◌==◌, leb, ltb, if◌then◌else◌, length,
  map, replicate, Option, none, some, put16, put32, put64, Result, ok, ◌>>=◌, ◌>>◌, guard,
}
use opusref.Wire.Types.{Tlv, Packet, callsign_size}
use opusref.Wire.TlvType.{base_type}
use opusref.Wire.Tlv.{valid_padded_identifier}

-- The loop of Find; `none` is that nothing was found.
unfoldable pub find_extension : List Tlv → ℕ → Option (List ℕ)
find_extension [] typ = none
find_extension (tlv ∷ rest) typ =
    if base_type tlv.typ == typ then some tlv.value else find_extension rest typ

unfoldable pub find : Packet → ℕ → Option (List ℕ)
find p typ = find_extension p.extensions typ

unfoldable pub uint64_tlv : ℕ → ℕ → Tlv
uint64_tlv typ value = record { typ = typ; value = put64 value }

unfoldable pub uint32_tlv : ℕ → ℕ → Tlv
uint32_tlv typ value = record { typ = typ; value = put32 value }

unfoldable pub uint16_tlv : ℕ → ℕ → Tlv
uint16_tlv typ value = record { typ = typ; value = put16 value }

pub data IdentifierError : Type 0 where
  bad_length invalid_character : IdentifierError

unfoldable pub all_ascii : List ℕ → Bool
all_ascii [] = true
all_ascii (c ∷ cs) = ltb c 128 && all_ascii cs

unfoldable pub upper_byte : ℕ → ℕ
upper_byte c = if leb b'a' c && leb c b'z' then c - 32 else c

-- strings.ToUpper goes byte by byte over an ASCII string, and through Unicode's tables over any
-- other: `unicode_upper` stands for those.
module _ (unicode_upper : List ℕ → List ℕ) where
  unfoldable pub to_upper : List ℕ → List ℕ
  to_upper value = if all_ascii value then map upper_byte value else unicode_upper value

  unfoldable pub callsign : List ℕ → Result IdentifierError (List ℕ)
  callsign value = do
    let upper = to_upper value
    guard (not (ltb (length upper) 1 || ltb callsign_size (length upper))) bad_length
    let padded = upper ++ replicate (callsign_size - length upper) b' '
    guard (valid_padded_identifier padded callsign_size) invalid_character
    ok padded

  unfoldable pub reflector_id : List ℕ → Result IdentifierError (List ℕ)
  reflector_id value = do
    let upper = to_upper value
    guard (not (ltb (length upper) 1 || ltb 16 (length upper))) bad_length
    let padded = upper ++ replicate (16 - length upper) b' '
    guard (valid_padded_identifier padded 16) invalid_character
    ok padded

-- strings.TrimSpace on ASCII strings.
unfoldable pub is_space : ℕ → Bool
is_space c = c == b' ' || (leb 9 c && leb c 13)

unfoldable pub trim_left : List ℕ → List ℕ
trim_left [] = []
trim_left (c ∷ cs) = let rest = trim_left cs in if is_space c then rest else c ∷ cs

unfoldable pub trim_right : List ℕ → List ℕ
trim_right [] = []
trim_right (c ∷ cs) =
    let rest = trim_right cs in if is_space c && length rest == 0 then [] else c ∷ rest

unfoldable pub trim_space : List ℕ → List ℕ
trim_space value = trim_right (trim_left value)
