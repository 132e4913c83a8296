-- ===== src/Record/RoundTrip.antt =====
-- internal/record/record.go: what Write gives, Read takes back, and the other way round.
use opusref.Base.{
  ℕ, ◌<◌, ◌≡◌, refl, sym, subst, List, [], ◌∷◌, ◌++◌, true, false, not, ◌||◌, ◌==◌, leb, ltb,
  length, take, drop, slice, get_or, be16, be32, put16, put32, bytes_equal, bytes_equal→eq, IsByte,
  IsBytes, ap, ap₂, ◌∙◌, drop-all, append-nil, All-take, word16, word32, opening_six, append_assoc,
  ok, guard-eq-ok, ok-injective, u8_mod, u16_mod, u32_mod, arith, take-append, drop-append,
  take-append-drop, length-append, length-take,
}
use opusref.Record.{
  Record, magic, end_of_file, truncated_header, bad_magic, invalid_header, invalid_payload_length,
  truncated_payload, bad_kind, max_payload, read, header, write,
}

-- The ranges of a record's fields.
pub record RecordFits (rec : Record) : Type 0 where
  pub kind_fits : rec.kind < u8_mod
  pub data_type_fits : rec.data_type < u16_mod
  pub timestamp_fits : rec.timestamp < u32_mod

-- What Write has found.
write-eq-ok :
    (rec : Record) {bytes : List ℕ}
    → write rec ≡ ok bytes
    → (bad_kind rec.kind rec.data_type ≡ false)
      × ((length rec.payload == 0) ≡ false)
      × (ltb (max_payload rec.kind) (length rec.payload) ≡ false)
      × (header rec ++ rec.payload ≡ bytes)
unfolding write
write-eq-ok rec h = ground arith

max_payload-lt : (kind n : ℕ) → ltb (max_payload kind) n ≡ false → n < u32_mod
unfolding max_payload
max_payload-lt kind n h = ground arith

-- The words of the header, read again.
word :
    (rec : Record) (more : List ℕ)
    → RecordFits rec
    → length rec.payload < u32_mod
    → (be16 (slice (header rec ++ more) 6 8) ≡ rec.data_type)
      × (be32 (slice (header rec ++ more) 8 12) ≡ rec.timestamp)
      × (be32 (slice (header rec ++ more) 12 16) ≡ length rec.payload)
word rec more fits h =
    (omega (arith, fits.data_type_fits), omega (arith, fits.timestamp_fits), omega arith)

-- A record that Write accepts is what Read gives of its bytes, and Read stops behind them.
pub read-write :
    (rec : Record) (rest : List ℕ) {bytes : List ℕ}
    → RecordFits rec
    → write rec ≡ ok bytes
    → read (bytes ++ rest) ≡ ok (rec, rest)
unfolding read bytes_equal
read-write rec rest fits h =
    let (kind, nonempty, fitting, e) = write-eq-ok rec h in
    let (typ, timestamp, size) =
      word rec [] fits (max_payload-lt rec.kind (length rec.payload) fitting) in
    subst (λ b. read (b ++ rest) ≡ ok (rec, rest)) e
      (ground (
        arith,
        typ,
        timestamp,
        size,
        length-append rec.payload rest,
        take-append (length rec.payload) rec.payload rest refl,
        drop-append (length rec.payload) rec.payload rest refl,
      ))

-- The length that the header announces, the record it starts and what stands behind that.
size_of : List ℕ → ℕ
size_of input = be32 (slice (take 16 input) 12 16)

parsed : List ℕ → Record
unfolding size_of
parsed input = record {
  kind = get_or (take 16 input) 4 0;
  data_type = be16 (slice (take 16 input) 6 8);
  timestamp = be32 (slice (take 16 input) 8 12);
  payload = take (size_of input) (drop 16 input);
}

-- What Read has found where it returns a record.
record IsRead (input : List ℕ) : Type 0 where
  whole : leb 16 (length input) ≡ true
  opening : bytes_equal (slice (take 16 input) 0 4) magic ≡ true
  fields :
      not (
        not (get_or (take 16 input) 5 0 == 0)
        || bad_kind (get_or (take 16 input) 4 0) (be16 (slice (take 16 input) 6 8)))
      ≡ true
  fitting :
      not (size_of input == 0 || ltb (max_payload (get_or (take 16 input) 4 0)) (size_of input))
      ≡ true
  complete : leb (size_of input) (length (drop 16 input)) ≡ true

read-IsRead :
    (input : List ℕ) {rec : Record} {rest : List ℕ}
    → read input ≡ ok (rec, rest)
    → IsRead input × (parsed input ≡ rec) × (drop (size_of input) (drop 16 input) ≡ rest)
unfolding read size_of parsed
read-IsRead input {rec} {rest} h =
    let (start, h1) = guard-eq-ok (not (length input == 0)) end_of_file _ h in
    let (whole, h2) = guard-eq-ok (leb 16 (length input)) truncated_header _ h1 in
    let (opening, h3) =
      guard-eq-ok (bytes_equal (slice (take 16 input) 0 4) magic) bad_magic _ h2 in
    let (fields, h4) =
      guard-eq-ok
        (not (
          not (get_or (take 16 input) 5 0 == 0)
          || bad_kind (get_or (take 16 input) 4 0) (be16 (slice (take 16 input) 6 8))))
        invalid_header _ h3 in
    let (fitting, h5) =
      guard-eq-ok
        (not (size_of input == 0 || ltb (max_payload (get_or (take 16 input) 4 0)) (size_of input)))
        invalid_payload_length _ h4 in
    let (complete, h6) =
      guard-eq-ok (leb (size_of input) (length (drop 16 input))) truncated_payload _ h5 in
    (
      record {
        whole = whole;
        opening = opening;
        fields = fields;
        fitting = fitting;
        complete = complete;
      },
      ap (λ x. x.0) (ok-injective h6),
      ap (λ x. x.1) (ok-injective h6),
    )

length-payload : (input : List ℕ) → IsRead input → length (parsed input).payload ≡ size_of input
unfolding parsed
length-payload input r = ground (arith, r.complete, length-take (size_of input) (drop 16 input))

words :
    (d : List ℕ)
    → IsBytes d
    → length d ≡ 16
    → slice d 0 4 ≡ magic
    → get_or d 5 0 ≡ 0
    → magic
        ++ (get_or d 4 0
            ∷ 0
            ∷ (put16 (be16 (slice d 6 8))
                ++ (put32 (be32 (slice d 8 12)) ++ put32 (be32 (slice d 12 16)))))
      ≡ d
words d bytes size m flags =
    ap (λ x. magic ++ (get_or d 4 0 ∷ 0 ∷ x)) fields
    ∙ ap (λ x. magic ++ (get_or d 4 0 ∷ x ∷ drop 6 d)) (sym flags)
    ∙ ap (λ x. x ++ (get_or d 4 0 ∷ get_or d 5 0 ∷ drop 6 d)) (sym m)
    ∙ opening_six d (omega arith)
  where
    last : put32 (be32 (slice d 12 16)) ≡ drop 12 d
    last =
        sym (append-nil (put32 (be32 (slice d 12 16))))
        ∙ ap (◌++◌ (put32 (be32 (slice d 12 16)))) (sym (drop-all d 16 size))
        ∙ word32 d bytes 12 16 refl (omega arith)

    fields :
        put16 (be16 (slice d 6 8)) ++ (put32 (be32 (slice d 8 12)) ++ put32 (be32 (slice d 12 16)))
        ≡ drop 6 d
    fields =
        ap (◌++◌ (put16 (be16 (slice d 6 8))))
          (ap (◌++◌ (put32 (be32 (slice d 8 12)))) last ∙ word32 d bytes 8 12 refl (omega arith))
        ∙ word16 d bytes 6 8 refl (omega arith)

header-parsed :
    (input : List ℕ) → IsBytes input → IsRead input → header (parsed input) ≡ take 16 input
unfolding parsed size_of
header-parsed input h r =
    ap
      (λ n.
        magic
        ++ ((parsed input).kind
            ∷ 0
            ∷ (put16 (parsed input).data_type ++ (put32 (parsed input).timestamp ++ put32 n))))
      (length-payload input r)
    ∙ words (take 16 input) (All-take IsByte 16 input h)
        (ground (arith, r.whole, length-take 16 input)) (bytes_equal→eq _ _ r.opening)
        (ground (arith, r.fields))

-- The bytes of a record that Read accepts are those that Write gives of it: there is one encoding.
pub write-read :
    (input : List ℕ) {rec : Record} {rest : List ℕ}
    → IsBytes input
    → read input ≡ ok (rec, rest)
    → (bytes : List ℕ) × (write rec ≡ ok bytes) × (bytes ++ rest ≡ input)
unfolding write parsed
write-read input {rec} {rest} h e =
    let (r, same, left) = read-IsRead input e in
    subst (λ x. (bytes : List ℕ) × (write x ≡ ok bytes) × (bytes ++ rest ≡ input)) same
      (
        header (parsed input) ++ (parsed input).payload,
        ground (arith, r.fields, r.fitting, length-payload input r),
        append_assoc (header (parsed input)) _ rest
            ∙ ap₂ (λ x y. x ++ y) (header-parsed input h r)
                (ap (◌++◌ (parsed input).payload) (sym left)
                  ∙ take-append-drop (size_of input) (drop 16 input))
            ∙ take-append-drop 16 input,
      )
