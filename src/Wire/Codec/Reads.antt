-- ===== src/Wire/Codec/Reads.antt =====
-- pkg/wire/codec.go: Decode's extension loop reads back what Encode's loop has put.
use opusref.Base.{
  ◌%◌, ℕ, zero, suc, ◌+◌, ◌-◌, ◌≤◌, ◌<◌, ◌≡◌, refl, ap, ◌∙◌, List, [], ◌∷◌, ◌++◌, true, not, ◌&&◌,
  leb, leb→le, le→leb, length, drop, replicate, All, be16, put16, be16-put16, contains, ok, ◌>>=◌,
  guard-eq-ok, >>=-eq-ok, arith, length-append, length-replicate, take-append, drop-append,
  drop-add, u16_mod,
}
use opusref.Wire.Types.{Tlv, TlvFits}
use opusref.Wire.TlvType.{base_type, is_critical, known_tlv}
use opusref.Wire.Tlv.{aligned_tlv_size, validate_tlv_value}
use opusref.Wire.Codec.{
  validate_extensions, put_extensions, all_zero, value_length, value_of, padding_of, get_extensions,
}

all_zero-replicate : (n : ℕ) → all_zero (replicate n 0) ≡ true
unfolding all_zero
all_zero-replicate zero = refl
all_zero-replicate (suc n) = all_zero-replicate n

-- The bytes of one extension, taken apart again.
module _ (typ : ℕ) (value rest : List ℕ) (typ_fits : typ < u16_mod)
    (short : length value ≤ 65535) where
  padding : List ℕ
  padding = replicate (aligned_tlv_size (length value) - (4 + length value)) 0

  abbrev layout : List ℕ
  layout = put16 typ ++ (put16 (length value) ++ (value ++ (padding ++ rest)))

  value_length-layout : value_length layout ≡ length value
  unfolding value_length
  value_length-layout = omega (arith, be16-put16 (length value))

  value_of-layout : value_of layout ≡ value
  unfolding value_of
  value_of-layout =
      rw value_length-layout
        (take-append (4 + length value - 4) value (padding ++ rest) (omega arith))

  drop_value : drop (4 + length value) layout ≡ padding ++ rest
  drop_value = drop-add 4 (length value) layout ∙ drop-append (length value) value _ refl

  length-padding : length padding ≡ aligned_tlv_size (length value) - (4 + length value)
  unfolding padding
  length-padding = length-replicate _ 0

  padding_of-layout : padding_of layout ≡ padding
  unfolding padding_of
  padding_of-layout =
      rw (value_length-layout, drop_value) (take-append _ padding rest length-padding)

  drop_size : drop (aligned_tlv_size (length value)) layout ≡ rest
  drop_size =
      ap (λ k. drop k layout) {x = aligned_tlv_size (length value)}
        {y = 4 + length value + (aligned_tlv_size (length value) - (4 + length value))}
        (omega arith)
      ∙ drop-add (4 + length value) _ layout
      ∙ ap (drop _) drop_value
      ∙ drop-append _ padding rest length-padding

  length-layout : length layout ≡ aligned_tlv_size (length value) + length rest
  length-layout =
      omega
        (arith, length-append value (padding ++ rest), length-append padding rest, length-padding)

  all_zero-padding : all_zero padding ≡ true
  unfolding padding
  all_zero-padding = all_zero-replicate _

  typ-layout : be16 layout ≡ typ
  typ-layout = omega arith

  size-le : leb (aligned_tlv_size (length value)) (length layout) ≡ true
  size-le = le→leb _ _ (omega (arith, length-layout))

  four-le : leb 4 (length layout) ≡ true
  four-le = le→leb 4 _ (omega arith)

  -- One round of the loop of Decode over the bytes that one round of Encode's loop has put.
  get_layout :
      (fuel : ℕ) (seen : List ℕ)
      → not (contains seen (base_type typ)) ≡ true
      → not (is_critical typ && not (known_tlv (base_type typ))) ≡ true
      → validate_tlv_value (base_type typ) value ≡ ok tt
      → get_extensions (suc fuel) layout seen ≡ (
          get_extensions fuel rest (base_type typ ∷ seen) >>= λ more.
          ok (record { typ = typ; value = value } ∷ more))
  unfolding get_extensions
  get_layout fuel seen fresh known valid = rw (
    value_length-layout, typ-layout, four-le, size-le, fresh, known, padding_of-layout,
    all_zero-padding, value_of-layout, valid, drop_size,
  )

-- What a successful check of an extension has found.
record IsChecked (t : Tlv) (seen : List ℕ) : Type 0 where
  short : length t.value ≤ 65535
  fresh : not (contains seen (base_type t.typ)) ≡ true
  known : not (is_critical t.typ && not (known_tlv (base_type t.typ))) ≡ true
  valid : validate_tlv_value (base_type t.typ) t.value ≡ ok tt

validate_extensions-cons :
    (t : Tlv) (ts : List Tlv) (seen : List ℕ) {n : ℕ}
    → validate_extensions (t ∷ ts) seen ≡ ok n
    → IsChecked t seen
      × ((total : ℕ) × (validate_extensions ts (base_type t.typ ∷ seen) ≡ ok total)
          × (aligned_tlv_size (length t.value) + total ≡ n))
unfolding validate_extensions
validate_extensions-cons t ts seen h =
    let (short, h1) = guard-eq-ok _ _ _ h in
    let (fresh, h2) = guard-eq-ok _ _ _ h1 in
    let (known, h3) = guard-eq-ok _ _ _ h2 in
    let (_, valid, h4) = >>=-eq-ok _ _ h3 in
    let (total, rest, h5) = >>=-eq-ok _ _ h4 in
    (
      record { short = leb→le _ _ short; fresh = fresh; known = known; valid = valid },
      (total, rest, cc),
    )

-- Encode's check computes the number of bytes that its loop puts.
pub length-put_extensions :
    (ts : List Tlv) (seen : List ℕ) {n : ℕ}
    → All TlvFits ts
    → validate_extensions ts seen ≡ ok n
    → length (put_extensions ts) ≡ n
unfolding put_extensions validate_extensions padding
length-put_extensions [] seen fits h = cc
length-put_extensions (t ∷ ts) seen fits h =
    let (c, (total, rest, e)) = validate_extensions-cons t ts seen h in
    omega (
      arith,
      length-layout t.typ t.value (put_extensions ts) fits.0.0 c.short,
      length-put_extensions ts _ fits.1 rest,
    )

-- The extensions fill whole groups of four bytes.
pub validate_extensions_aligned :
    (ts : List Tlv) (seen : List ℕ) {n : ℕ} → validate_extensions ts seen ≡ ok n → n % 4 ≡ 0
validate_extensions_aligned [] seen {n} h =
    let e : 0 ≡ n = unfold validate_extensions in cc in omega arith
validate_extensions_aligned (t ∷ ts) seen h =
    let (_, (_, rest, e)) = validate_extensions-cons t ts seen h in
    omega (arith, validate_extensions_aligned ts _ rest)

-- Decode's loop reads back what Encode's loop has put.
pub get_extensions-put_extensions :
    (ts : List Tlv) (seen : List ℕ) (fuel : ℕ) {n : ℕ}
    → All TlvFits ts
    → validate_extensions ts seen ≡ ok n
    → n ≤ fuel
    → get_extensions fuel (put_extensions ts) seen ≡ ok ts
unfolding put_extensions padding get_extensions
get_extensions-put_extensions [] seen fuel fits h enough = refl
get_extensions-put_extensions (t ∷ ts) seen zero fits h enough =
    let (_, (_, _, e)) = validate_extensions-cons t ts seen h in absurd (omega arith)
get_extensions-put_extensions (t ∷ ts) seen (suc fuel) fits h enough =
    let (c, (total, rest, e)) = validate_extensions-cons t ts seen h in
    get_layout t.typ t.value (put_extensions ts) fits.0.0 c.short fuel seen c.fresh c.known c.valid
    ∙ rw (get_extensions-put_extensions ts (base_type t.typ ∷ seen) fuel fits.1 rest (omega arith))
