-- ===== src/Config.antt =====
-- internal/config/config.go: the shared key. The proofs are below.
pub mod Key
mod Examples
use opusref.Base.{
  ℕ, ◌-◌, ◌%◌, List, [], ◌∷◌, Bool, not, ◌&&◌, ◌||◌, ◌==◌, leb, ltb, if◌then◌else◌, length, take,
  drop, bytes_equal, Option, none, some, Result, ok, err, ◌>>=◌, ◌>>◌, guard,
}

-- The errors, by their texts; `stat_failed` is that of os.Stat.
pub data KeyError : Type 0 where
  bad_length too_large not_private stat_failed : KeyError

pub record Authentication : Type 0 where
  pub shared_key_env : List ℕ
  pub shared_key_file : List ℕ

-- What os.Stat and os.Open give of a file: whether it is regular, its permission bits and its
-- contents.
pub record KeyFile : Type 0 where
  pub regular : Bool
  pub perm : ℕ
  pub contents : List ℕ

unfoldable pub validate_key : List ℕ → Result KeyError (List ℕ)
validate_key key = do guard (not (ltb (length key) 16 || ltb 64 (length key))) bad_length; ok key

-- bytes.HasSuffix.
unfoldable pub has_suffix : List ℕ → List ℕ → Bool
has_suffix bytes suffix =
    leb (length suffix) (length bytes)
    && bytes_equal (drop (length bytes - length suffix) bytes) suffix

abbrev pub crlf : List ℕ
crlf = 13 ∷ 10 ∷ []

abbrev pub lf : List ℕ
lf = 10 ∷ []

unfoldable pub trim_line : List ℕ → List ℕ
trim_line bytes =
    if has_suffix bytes crlf
    then take (length bytes - 2) bytes
    else if has_suffix bytes lf
    then take (length bytes - 1) bytes
    else bytes

-- ReadSharedKeyFile of a file with these contents.
unfoldable pub read_shared_key_file : List ℕ → Result KeyError (List ℕ)
read_shared_key_file contents = do
  let bytes = take 66 contents
  guard (not (ltb 65 (length bytes))) too_large
  ok (trim_line bytes)

-- SharedKey, with the environment and the file system; [] is its nil key.
unfoldable pub shared_key :
    (List ℕ → List ℕ) → (List ℕ → Option KeyFile) → Authentication → Result KeyError (List ℕ)
shared_key env files a =
    let from_file : Result KeyError (List ℕ) =
      if length a.shared_key_file == 0 then ok [] else elim (files a.shared_key_file) [
        | none ↦ err stat_failed
        | some f ↦
            if not f.regular || not (f.perm % 64 == 0)
            then err not_private
            else (read_shared_key_file f.contents >>= validate_key)
      ] in
    if not (length a.shared_key_env == 0) && not (length (env a.shared_key_env) == 0)
    then validate_key (env a.shared_key_env)
    else from_file
