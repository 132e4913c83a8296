-- ===== src/Record/Examples.antt =====
-- The theorems on diagnostic records at the record of the repository's golden test.
use opusref.Base.{ℕ, ◌≡◌, refl, List, [], ◌∷◌, ◌++◌, ok, arith, bytes_equal}
use opusref.Record.{Record, bad_kind, max_payload, read, write}
use opusref.Record.RoundTrip.{RecordFits, read-write, write-read}

abbrev golden : Record
golden = record {
  kind = 1;
  data_type = 0;
  timestamp = 0x01020304;
  payload = 0xf8 ∷ 0xff ∷ 0xfe ∷ [];
}

abbrev golden_bytes : List ℕ
golden_bytes =
    0x4f ∷ 0x52 ∷ 0x52 ∷ 0x31 ∷ 1 ∷ 0 ∷ 0 ∷ 0 ∷ 1 ∷ 2 ∷ 3 ∷ 4 ∷ 0 ∷ 0 ∷ 0 ∷ 3 ∷ 0xf8 ∷ 0xff ∷ 0xfe
    ∷ []

write-golden : write golden ≡ ok golden_bytes
unfolding write bad_kind max_payload
write-golden = refl

read-golden : read (golden_bytes ++ (7 ∷ [])) ≡ ok (golden, 7 ∷ [])
unfolding read bad_kind max_payload bytes_equal
read-golden = refl

golden_fits : RecordFits golden
golden_fits = omega arith

read-write_example : read (golden_bytes ++ (7 ∷ [])) ≡ ok (golden, 7 ∷ [])
read-write_example = read-write golden (7 ∷ []) golden_fits write-golden

write-read_example :
    (bytes : List ℕ) × (write golden ≡ ok bytes) × (bytes ++ (7 ∷ []) ≡ golden_bytes ++ (7 ∷ []))
write-read_example = write-read (golden_bytes ++ (7 ∷ [])) (omega arith) read-golden
