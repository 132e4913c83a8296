-- ===== src/Config/Examples.antt =====
-- The theorems on shared keys at concrete keys.
use opusref.Base.{
  ℕ, ◌≡◌, ◌≤◌, ◌⊎◌, refl, List, [], ◌∷◌, ◌++◌, true, length, replicate, Option, some, ok, err,
  bytes_equal,
}
use opusref.Config.{
  too_large, Authentication, KeyFile, validate_key, has_suffix, crlf, trim_line,
  read_shared_key_file, shared_key,
}
use opusref.Config.Key.{shared_key-length, read_shared_key_file-crlf_refused}

abbrev key_bytes : ℕ → List ℕ
key_bytes size = replicate size b'k'

abbrev authentication : Authentication
authentication = record { shared_key_env = b'K' ∷ []; shared_key_file = b'f' ∷ [] }

abbrev files : List ℕ → Option KeyFile
files name = some (record { regular = true; perm = 384; contents = key_bytes 16 ++ crlf })

read_key : shared_key (λ name. []) files authentication ≡ ok (key_bytes 16)
unfolding shared_key validate_key read_shared_key_file trim_line has_suffix bytes_equal
read_key = refl

shared_key-length_example :
    (key_bytes 16 ≡ []) ⊎ ((16 ≤ length (key_bytes 16)) × (length (key_bytes 16) ≤ 64))
shared_key-length_example = shared_key-length (λ name. []) files authentication read_key

read_shared_key_file-crlf_refused_example :
    (validate_key (key_bytes 64) ≡ ok (key_bytes 64))
    × (read_shared_key_file (key_bytes 64 ++ crlf) ≡ err too_large)
read_shared_key_file-crlf_refused_example = read_shared_key_file-crlf_refused (key_bytes 64) refl
