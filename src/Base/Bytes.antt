-- ===== src/Base/Bytes.antt =====
-- Words read from a slice of bytes and put again, byte for byte.
use Prim.Native.Nat.{ℕ, ◌+◌, ◌*◌, ◌/◌, ◌%◌, ◌≤◌, ◌<◌}
use mathlib.Core.Path.{◌≡◌, refl, sym, ap, ap₂, ◌∙◌}
use mathlib.Core.List.{List, [], ◌∷◌, ◌++◌}
use native.Mathlib.Omega.{arith}
use opusref.Base.Lists.{
  get_or, length, take, drop, slice, length-slice, length-drop, slice-append-drop, take-append-drop,
  length-take, All-drop, All-take,
}
use opusref.Base.Words.{
  IsByte, IsBytes, be16, be32, be64, put16, put32, put64, put16-be16, be16-lt, u16_mod, u32_mod,
}

pub put32-join : (hi lo : ℕ) → lo < u16_mod → put32 (hi * u16_mod + lo) ≡ put16 hi ++ put16 lo
put32-join hi lo h =
    ap₂ (λ x y. put16 x ++ y) {x = (hi * u16_mod + lo) / u16_mod} {y = hi} (omega arith)
      (ap₂ (λ x y. x ∷ y ∷ []) {x = (hi * u16_mod + lo) / 256 % 256} (omega arith) (omega arith))

pub put64-join : (hi lo : ℕ) → lo < u32_mod → put64 (hi * u32_mod + lo) ≡ put32 hi ++ put32 lo
put64-join hi lo h =
    ap₂ (λ x y. put32 x ++ y) {x = (hi * u32_mod + lo) / u32_mod} {y = hi} (omega arith)
      (ap₂ (λ x y. x ++ y)
        (ap₂ (λ x y. x ∷ y ∷ []) {x = (hi * u32_mod + lo) / u16_mod / 256 % 256} (omega arith)
          (omega arith))
        (ap₂ (λ x y. x ∷ y ∷ []) {x = (hi * u32_mod + lo) / 256 % 256} (omega arith) (omega arith)))

pub put32-be32 : (bs : List ℕ) → length bs ≡ 4 → IsBytes bs → put32 (be32 bs) ≡ bs
put32-be32 [] e h = absurd (omega arith)
put32-be32 (a ∷ []) e h = absurd (omega arith)
put32-be32 (a ∷ b ∷ []) e h = absurd (omega arith)
put32-be32 (a ∷ b ∷ c ∷ []) e h = absurd (omega arith)
put32-be32 (a ∷ b ∷ c ∷ d ∷ []) e h =
    put32-join (a * 256 + b) (c * 256 + d) (omega arith)
    ∙ ap₂ (λ x y. x ++ y) (put16-be16 (a ∷ b ∷ []) refl (h.0, (h.1.0, tt)))
        (put16-be16 (c ∷ d ∷ []) refl (h.1.1.0, (h.1.1.1.0, tt)))
put32-be32 (a ∷ b ∷ c ∷ d ∷ x ∷ bs) e h = absurd (omega arith)

pub be32-take : (bs : List ℕ) → be32 (take 4 bs) ≡ be32 bs
be32-take [] = refl
be32-take (a ∷ []) = refl
be32-take (a ∷ b ∷ []) = refl
be32-take (a ∷ b ∷ c ∷ []) = refl
be32-take (a ∷ b ∷ c ∷ d ∷ bs) = refl

pub be32-lt : (bs : List ℕ) → IsBytes bs → be32 bs < u32_mod
be32-lt bs h = omega (arith, be16-lt bs h, be16-lt (drop 2 bs) (All-drop IsByte 2 bs h))

pub put64-be64 : (bs : List ℕ) → length bs ≡ 8 → IsBytes bs → put64 (be64 bs) ≡ bs
put64-be64 bs e h =
    put64-join (be32 bs) (be32 (drop 4 bs)) (be32-lt _ (All-drop IsByte 4 bs h))
    ∙ ap₂ (λ x y. x ++ y)
        (ap put32 (sym (be32-take bs))
          ∙ put32-be32 (take 4 bs) (omega (arith, length-take 4 bs)) (All-take IsByte 4 bs h))
        (put32-be32 (drop 4 bs) (omega (arith, length-drop 4 bs)) (All-drop IsByte 4 bs h))
    ∙ take-append-drop 4 bs

pub opening_six :
    (d : List ℕ) → 6 ≤ length d → slice d 0 4 ++ (get_or d 4 0 ∷ get_or d 5 0 ∷ drop 6 d) ≡ d
opening_six [] h = absurd (omega arith)
opening_six (a ∷ []) h = absurd (omega arith)
opening_six (a ∷ b ∷ []) h = absurd (omega arith)
opening_six (a ∷ b ∷ c ∷ []) h = absurd (omega arith)
opening_six (a ∷ b ∷ c ∷ e ∷ []) h = absurd (omega arith)
opening_six (a ∷ b ∷ c ∷ e ∷ f ∷ []) h = absurd (omega arith)
opening_six (a ∷ b ∷ c ∷ e ∷ f ∷ g ∷ d) h = refl

module _ (d : List ℕ) (bytes : IsBytes d) where
  pub slice-IsBytes : (a b : ℕ) → IsBytes (slice d a b)
  slice-IsBytes a b = All-take IsByte _ _ (All-drop IsByte a d bytes)

  -- A field read and put again, before the bytes that follow it.
  pub word16 :
      (a b : ℕ) → a + 2 ≡ b → b ≤ length d → put16 (be16 (slice d a b)) ++ drop b d ≡ drop a d
  word16 a b e h =
      ap (λ x. x ++ drop b d)
        (put16-be16 _ (omega (arith, length-slice d a b (omega arith) h)) (slice-IsBytes a b))
      ∙ slice-append-drop d a b (omega arith)

  pub word32 :
      (a b : ℕ) → a + 4 ≡ b → b ≤ length d → put32 (be32 (slice d a b)) ++ drop b d ≡ drop a d
  word32 a b e h =
      ap (λ x. x ++ drop b d)
        (put32-be32 _ (omega (arith, length-slice d a b (omega arith) h)) (slice-IsBytes a b))
      ∙ slice-append-drop d a b (omega arith)

  pub word64 :
      (a b : ℕ) → a + 8 ≡ b → b ≤ length d → put64 (be64 (slice d a b)) ++ drop b d ≡ drop a d
  word64 a b e h =
      ap (λ x. x ++ drop b d)
        (put64-be64 _ (omega (arith, length-slice d a b (omega arith) h)) (slice-IsBytes a b))
      ∙ slice-append-drop d a b (omega arith)
