-- ===== src/Wire/Helpers/Found.antt =====
-- pkg/wire/helpers.go: what Find gives of a packet that Decode has returned.
use opusref.Base.{
  ℕ, ◌≡◌, refl, List, [], ◌∷◌, true, false, none, some, ok, contains, >>=-eq-ok, arith, IsBytes,
  ==_iff, Memᴰ, not, ◌&&◌, leb, length, guard-eq-ok,
}
use opusref.Wire.Types.{Tlv, Packet, malformed_packet}
use opusref.Wire.TlvType.{base_type, is_critical, known_tlv}
use opusref.Wire.Tlv.{valid_value, validate_tlv_value}
use opusref.Wire.Codec.{validate_extensions, encode, decode}
use opusref.Wire.Codec.Canonical.{encode-decode}
use opusref.Wire.Helpers.{find_extension, find}

-- What validateExtensions has found of the first extension and of those behind it.
validate_extensions-eq-ok :
    (tlv : Tlv) (rest : List Tlv) (seen : List ℕ) {n : ℕ}
    → validate_extensions (tlv ∷ rest) seen ≡ ok n
    → (contains seen (base_type tlv.typ) ≡ false)
      × (valid_value (base_type tlv.typ) tlv.value ≡ true)
      × ((m : ℕ) × (validate_extensions rest (base_type tlv.typ ∷ seen) ≡ ok m))
unfolding validate_extensions validate_tlv_value
validate_extensions-eq-ok tlv rest seen h =
    let (_, h1) = guard-eq-ok (leb (length tlv.value) 65535) malformed_packet _ h in
    let (fresh, h2) = guard-eq-ok (not (contains seen (base_type tlv.typ))) malformed_packet _ h1 in
    let (_, h3) =
      guard-eq-ok (not (is_critical tlv.typ && not (known_tlv (base_type tlv.typ))))
        malformed_packet _ h2 in
    let (valid, h4) =
      guard-eq-ok (valid_value (base_type tlv.typ) tlv.value) malformed_packet _ h3 in
    let (m, more, _) = >>=-eq-ok (validate_extensions rest (base_type tlv.typ ∷ seen)) _ h4 in
    (ground arith, valid, (m, more))

-- A type met before is not met again.
seen-none :
    (xs : List Tlv) (seen : List ℕ) (typ : ℕ) {n : ℕ}
    → validate_extensions xs seen ≡ ok n
    → contains seen typ ≡ true
    → find_extension xs typ ≡ none
unfolding find_extension contains
seen-none [] seen typ h k = refl
seen-none (tlv ∷ rest) seen typ h k =
    let (fresh, valid, (m, more)) = validate_extensions-eq-ok tlv rest seen h in
    ground
      (arith, ==_iff (base_type tlv.typ) typ, seen-none rest (base_type tlv.typ ∷ seen) typ more)

find_extension-valid :
    (xs : List Tlv) (seen : List ℕ) (typ : ℕ) {n : ℕ} {value : List ℕ}
    → validate_extensions xs seen ≡ ok n
    → find_extension xs typ ≡ some value
    → valid_value typ value ≡ true
unfolding find_extension
find_extension-valid [] seen typ h k = cc
find_extension-valid (tlv ∷ rest) seen typ {value = value} h k =
    let (fresh, valid, (m, more)) = validate_extensions-eq-ok tlv rest seen h in
    ground (
      arith,
      ==_iff (base_type tlv.typ) typ,
      find_extension-valid rest (base_type tlv.typ ∷ seen) typ {value = value} more,
    )

find_extension-Mem :
    (xs : List Tlv) (seen : List ℕ) (tlv : Tlv) {n : ℕ}
    → validate_extensions xs seen ≡ ok n
    → Memᴰ tlv xs
    → find_extension xs (base_type tlv.typ) ≡ some tlv.value
unfolding find_extension contains
find_extension-Mem [] seen tlv h inside = elim inside [ ]
find_extension-Mem (x ∷ rest) seen tlv h (Memᴰ.head e) = ground (arith, e)
find_extension-Mem (x ∷ rest) seen tlv h (Memᴰ.tail inside) =
    let (fresh, valid, (m, more)) = validate_extensions-eq-ok x rest seen h in
    ground (
      arith,
      ==_iff (base_type x.typ) (base_type tlv.typ),
      find_extension-Mem rest (base_type x.typ ∷ seen) tlv more inside,
      seen-none rest (base_type x.typ ∷ seen) (base_type tlv.typ) more,
    )

module _ (datagram : List ℕ) {p : Packet} (bytes : IsBytes datagram)
    (h : decode datagram ≡ ok p) where
  accepted : (n : ℕ) × (validate_extensions p.extensions [] ≡ ok n)
  unfolding encode
  accepted =
      let (n, h, _) =
        >>=-eq-ok (validate_extensions p.extensions []) _ (encode-decode datagram bytes h) in
      (n, h)

  -- What Find gives of a packet that Decode has returned has the form of its type: a transaction
  -- ID is 8 bytes, a nonce 32, a callsign a padded identifier, and so on.
  pub find-decode :
      (typ : ℕ) {value : List ℕ} → find p typ ≡ some value → valid_value typ value ≡ true
  unfolding find
  find-decode typ k = find_extension-valid p.extensions [] typ accepted.1 k

  -- Find loses nothing of it: each extension is what Find gives for its type, wherever it stands.
  pub find-Mem : (tlv : Tlv) → Memᴰ tlv p.extensions → find p (base_type tlv.typ) ≡ some tlv.value
  unfolding find
  find-Mem tlv inside = find_extension-Mem p.extensions [] tlv accepted.1 inside
