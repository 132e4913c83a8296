-- ===== src/Config/Key.antt =====
-- internal/config/config.go: which keys SharedKey returns, and how a key file is read.
use opusref.Base.{
  ℕ, zero, suc, ◌>>=◌, ◌-◌, ◌≤◌, ◌≡◌, ◌⊎◌, inl, inr, refl, List, [], ◌∷◌, ◌++◌, length, take,
  bytes_equal, Option, Option-cases, ok, err, take-append, drop-append, length-append, >>=-eq-ok,
  arith, ap, length-take,
}
use opusref.Config.{
  too_large, Authentication, KeyFile, validate_key, has_suffix, crlf, trim_line,
  read_shared_key_file, shared_key,
}

validate_key-length :
    (bytes : List ℕ) {key : List ℕ}
    → validate_key bytes ≡ ok key
    → (16 ≤ length key) × (length key ≤ 64)
unfolding validate_key
validate_key-length bytes h = ground arith

file-length :
    (contents : List ℕ) {key : List ℕ}
    → (read_shared_key_file contents >>= validate_key) ≡ ok key
    → (16 ≤ length key) × (length key ≤ 64)
file-length contents h =
    let (bytes, _, k) = >>=-eq-ok (read_shared_key_file contents) validate_key h in
    validate_key-length bytes k

-- A key that SharedKey returns is none at all or 16 to 64 bytes long, wherever it comes from.
pub shared_key-length :
    (env : List ℕ → List ℕ) (files : List ℕ → Option KeyFile) (a : Authentication) {key : List ℕ}
    → shared_key env files a ≡ ok key
    → (key ≡ []) ⊎ ((16 ≤ length key) × (length key ≤ 64))
unfolding shared_key
shared_key-length env files a {key} h = elim (Option-cases (files a.shared_key_file)) [
  | inl e ↦ ground (arith, h, e, validate_key-length (env a.shared_key_env) {key = key})
  | inr (f, e) ↦ ground (
    arith,
    h,
    e,
    validate_key-length (env a.shared_key_env) {key = key},
    file-length f.contents {key = key},
  )
]

take-short : (n : ℕ) (xs : List ℕ) → length xs ≤ n → take n xs ≡ xs
take-short zero [] h = refl
take-short zero (x ∷ xs) h = absurd (omega arith)
take-short (suc n) [] h = refl
take-short (suc n) (x ∷ xs) h = ap (◌∷◌ x) (take-short n xs (omega arith))

trim_line-crlf : (key : List ℕ) → trim_line (key ++ crlf) ≡ key
unfolding trim_line has_suffix bytes_equal
trim_line-crlf key = ground (
  arith,
  length-append key crlf,
  drop-append (length (key ++ crlf) - 2) key crlf (omega (arith, length-append key crlf)),
  take-append (length (key ++ crlf) - 2) key crlf (omega (arith, length-append key crlf)),
)

-- A key file of one line that ends with a carriage return and a line feed is read without them, up
-- to a key of 63 bytes.
read_shared_key_file-crlf :
    (key : List ℕ) → length key ≤ 63 → read_shared_key_file (key ++ crlf) ≡ ok key
unfolding read_shared_key_file
read_shared_key_file-crlf key h = ground (
  arith,
  length-append key crlf,
  take-short 66 (key ++ crlf) (omega (arith, length-append key crlf)),
  trim_line-crlf key,
)

-- A key file of one line that ends with a carriage return and a line feed is refused as too large
-- when its key has 64 bytes, although validateKey would take that key.
pub read_shared_key_file-crlf_refused :
    (key : List ℕ)
    → length key ≡ 64
    → (validate_key key ≡ ok key) × (read_shared_key_file (key ++ crlf) ≡ err too_large)
unfolding read_shared_key_file validate_key
read_shared_key_file-crlf_refused key h =
    (ground (arith, h), ground (arith, h, length-append key crlf, length-take 66 (key ++ crlf)))
