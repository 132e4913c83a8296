-- ===== src/Wire/Utf8.antt =====
-- unicode/utf8.Valid of Go's standard library, as the codec uses it: no overlong forms, no
-- surrogates, nothing above U+10FFFF.
use opusref.Base.{ℕ, ◌-◌, List, [], ◌∷◌, Bool, true, false, ◌&&◌, ◌==◌, leb, ltb, if◌then◌else◌}
use opusref.Base.{◌≡◌, refl}

-- What a byte asks of those behind it: how many follow, and the range of the next one.
record Rune : Type 0 where
  need : ℕ
  low : ℕ
  high : ℕ

abbrev between : ℕ → ℕ → ℕ → Bool
between lo hi b = leb lo b && leb b hi

-- `none` of Go's table `first` is a need above 3.
lead : ℕ → Rune
lead b =
    if ltb b 0x80
    then record { need = 0; low = 0; high = 0 }
    else if between 0xc2 0xdf b
    then record { need = 1; low = 0x80; high = 0xbf }
    else if b == 0xe0
    then record { need = 2; low = 0xa0; high = 0xbf }
    else if b == 0xed
    then record { need = 2; low = 0x80; high = 0x9f }
    else if between 0xe1 0xef b
    then record { need = 2; low = 0x80; high = 0xbf }
    else if b == 0xf0
    then record { need = 3; low = 0x90; high = 0xbf }
    else if between 0xf1 0xf3 b
    then record { need = 3; low = 0x80; high = 0xbf }
    else if b == 0xf4
    then record { need = 3; low = 0x80; high = 0x8f }
    else record { need = 4; low = 1; high = 0 }

follow : Rune → ℕ → Rune
unfolding lead
follow r b =
    if r.need == 0
    then lead b
    else if between r.low r.high b
    then record { need = r.need - 1; low = 0x80; high = 0xbf }
    else record { need = 4; low = 1; high = 0 }

scan : Rune → List ℕ → Bool
unfolding follow
scan r [] = r.need == 0
scan r (b ∷ bs) = ltb r.need 4 && scan (follow r b) bs

unfoldable pub utf8_valid : List ℕ → Bool
unfolding scan
utf8_valid = scan (record { need = 0; low = 0; high = 0 })

accepts_umlaut : utf8_valid (0x44 ∷ 0xc3 ∷ 0xa4 ∷ 0x41 ∷ []) ≡ true
unfolding utf8_valid
accepts_umlaut = refl

rejects_surrogate : utf8_valid (0xed ∷ 0xa0 ∷ 0x80 ∷ []) ≡ false
unfolding utf8_valid
rejects_surrogate = refl

rejects_cut : utf8_valid (0xf0 ∷ 0x9f ∷ 0x98 ∷ []) ≡ false
unfolding utf8_valid
rejects_cut = refl
