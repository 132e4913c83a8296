-- ===== src/Base/Words.antt =====
-- Bytes and big-endian words. A byte is a number below 256, a slice of bytes a list of them.
use Prim.Native.Nat.{ℕ, ◌+◌, ◌*◌, ◌/◌, ◌%◌, ◌<◌}
use mathlib.Core.Path.{◌≡◌, ap₂}
use mathlib.Core.List.{List, [], ◌∷◌, ◌++◌}
use native.Mathlib.Omega.{arith}
use opusref.Base.Lists.{length, drop, All}

abbrev pub u8_mod : ℕ
u8_mod = 256

abbrev pub u16_mod : ℕ
u16_mod = 65536

abbrev pub u32_mod : ℕ
u32_mod = 4294967296

abbrev pub u64_mod : ℕ
u64_mod = 18446744073709551616

abbrev pub IsByte : ℕ → Type 0
IsByte b = b < u8_mod

abbrev pub IsBytes : List ℕ → Type 0
IsBytes bs = All IsByte bs

-- binary.BigEndian.PutUint16 and its wider forms; each byte is cut to 8 bits.
abbrev pub put16 : ℕ → List ℕ
put16 v = (v / 256 % 256) ∷ (v % 256) ∷ []

abbrev pub put32 : ℕ → List ℕ
put32 v = put16 (v / u16_mod) ++ put16 v

abbrev pub put64 : ℕ → List ℕ
put64 v = put32 (v / u32_mod) ++ put32 v

-- binary.BigEndian.Uint16 and its wider forms. Go panics on a slice that is too short: each call
-- of the program stands behind a test of the length.
abbrev pub be16 : List ℕ → ℕ
be16 [] = 0
be16 (a ∷ []) = 0
be16 (a ∷ b ∷ bs) = a * 256 + b

abbrev pub be32 : List ℕ → ℕ
be32 bs = be16 bs * u16_mod + be16 (drop 2 bs)

abbrev pub be64 : List ℕ → ℕ
be64 bs = be32 bs * u32_mod + be32 (drop 4 bs)

pub be16-put16 : (v : ℕ) → be16 (put16 v) ≡ v % u16_mod
be16-put16 v = omega arith

pub be32-put32 : (v : ℕ) → be32 (put32 v) ≡ v % u32_mod
be32-put32 v = omega (arith, be16-put16 v, be16-put16 (v / u16_mod))

pub be64-put64 : (v : ℕ) → be64 (put64 v) ≡ v % u64_mod
be64-put64 v = omega (arith, be32-put32 v, be32-put32 (v / u32_mod))

pub put16-be16 : (bs : List ℕ) → length bs ≡ 2 → IsBytes bs → put16 (be16 bs) ≡ bs
put16-be16 [] e h = absurd (omega arith)
put16-be16 (a ∷ []) e h = absurd (omega arith)
put16-be16 (a ∷ b ∷ []) e h =
    ap₂ (λ x y. x ∷ y ∷ []) {x = (a * 256 + b) / 256 % 256} (omega arith) (omega arith)
put16-be16 (a ∷ b ∷ c ∷ bs) e h = absurd (omega arith)

pub be16-lt : (bs : List ℕ) → IsBytes bs → be16 bs < u16_mod
be16-lt [] h = omega arith
be16-lt (a ∷ []) h = omega arith
be16-lt (a ∷ b ∷ bs) h = omega arith
