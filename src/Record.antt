-- ===== src/Record.antt =====
-- internal/record/record.go: diagnostic records. A reader is the list of bytes it has yet to give,
-- a writer the list of those it has got; errors of the system under them are left out.
pub mod RoundTrip
mod Examples
use opusref.Base.{
  ℕ, List, [], ◌∷◌, ◌++◌, Bool, not, ◌&&◌, ◌||◌, ◌==◌, leb, ltb, if◌then◌else◌, length, take, drop,
  slice, get_or, be16, be32, put16, put32, bytes_equal, Result, ok, ◌>>=◌, ◌>>◌, guard,
}

abbrev pub header_size : ℕ
header_size = 16

abbrev pub kind_audio : ℕ
kind_audio = 1

abbrev pub kind_data : ℕ
kind_data = 2

-- "ORR1".
abbrev pub magic : List ℕ
magic = b'O' ∷ b'R' ∷ b'R' ∷ b'1' ∷ []

pub record Record : Type 0 where
  pub kind : ℕ
  pub data_type : ℕ
  pub timestamp : ℕ
  pub payload : List ℕ

-- The errors of Read, by their texts, and the one of Write.
pub data RecordError : Type 0 where
  end_of_file truncated_header bad_magic invalid_header invalid_payload_length : RecordError
  truncated_payload invalid_record : RecordError

-- The largest payload of a kind.
unfoldable pub max_payload : ℕ → ℕ
max_payload kind = if kind == kind_data then 1160 else 1168

-- The kind is known, and only data records have a data type.
unfoldable pub bad_kind : ℕ → ℕ → Bool
bad_kind kind typ =
    ltb kind kind_audio
    || ltb kind_data kind
    || (kind == kind_audio && not (typ == 0))
    || (kind == kind_data && typ == 0)

-- The record read and what the reader still has.
unfoldable pub read : List ℕ → Result RecordError (Record × List ℕ)
read input = do
  guard (not (length input == 0)) end_of_file
  guard (leb header_size (length input)) truncated_header
  let h = take header_size input
  guard (bytes_equal (slice h 0 4) magic) bad_magic
  let kind = get_or h 4 0
  let typ = be16 (slice h 6 8)
  let size = be32 (slice h 12 16)
  guard (not (not (get_or h 5 0 == 0) || bad_kind kind typ)) invalid_header
  guard (not (size == 0 || ltb (max_payload kind) size)) invalid_payload_length
  let body = drop header_size input
  guard (leb size (length body)) truncated_payload
  ok (
    record {
      kind = kind;
      data_type = typ;
      timestamp = be32 (slice h 8 12);
      payload = take size body;
    },
    drop size body,
  )

abbrev pub header : Record → List ℕ
header rec =
    magic
    ++ (rec.kind ∷ 0 ∷ (put16 rec.data_type ++ (put32 rec.timestamp ++ put32 (length rec.payload))))

unfoldable pub write : Record → Result RecordError (List ℕ)
write rec = do
  guard
      (not (
        bad_kind rec.kind rec.data_type
        || ltb (length rec.payload) 1
        || ltb (max_payload rec.kind) (length rec.payload)))
      invalid_record
  ok (header rec ++ rec.payload)
