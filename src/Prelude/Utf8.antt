-- ===== src/Prelude/Utf8.antt =====
-- `core::str::from_utf8`: the well-formed byte sequences of Unicode's table 3-7.
use mathlib.Core.Path.{◌≡◌, refl}
use Prim.Native.Nat.{◌<◌}
use trackone.Prelude.Lists.{All}
use trackone.Prelude.Tests.{ltb, leb, ◌==◌, if◌then◌else◌, lt→ltb}
use Prim.Native.Nat.{ℕ, zero, suc}
use mathlib.Core.Bool.{Bool, true, false, ◌&&◌}
use mathlib.Core.List.{List, [], ◌∷◌}

abbrev within : ℕ → ℕ → ℕ → Bool
within lo hi b = leb lo b && leb b hi

-- `more` continuation bytes are due, the first of them from `lo` to `hi`.
pub utf8_from : ℕ → ℕ → ℕ → List ℕ → Bool
utf8_from zero lo hi [] = true
utf8_from (suc more) lo hi [] = false
utf8_from (suc more) lo hi (b ∷ bs) =
    let rest = utf8_from more 0x80 0xbf bs in if within lo hi b then rest else false
utf8_from zero lo hi (b ∷ bs) =
    let ascii = utf8_from 0 0x80 0xbf bs in
    let two = utf8_from 1 0x80 0xbf bs in
    let three_e0 = utf8_from 2 0xa0 0xbf bs in
    let three = utf8_from 2 0x80 0xbf bs in
    let three_ed = utf8_from 2 0x80 0x9f bs in
    let four_f0 = utf8_from 3 0x90 0xbf bs in
    let four = utf8_from 3 0x80 0xbf bs in
    let four_f4 = utf8_from 3 0x80 0x8f bs in
    if ltb b 0x80
    then ascii
    else if within 0xc2 0xdf b
    then two
    else if b == 0xe0
    then three_e0
    else if b == 0xed
    then three_ed
    else if within 0xe1 0xef b
    then three
    else if b == 0xf0
    then four_f0
    else if within 0xf1 0xf3 b
    then four
    else if b == 0xf4
    then four_f4
    else false

unfoldable pub valid_utf8 : List ℕ → Bool
unfolding utf8_from
valid_utf8 bytes = utf8_from 0 0x80 0xbf bytes

-- Bytes below 128 are a text.
pub utf8_ascii : (bytes : List ℕ) → All (λ b. b < 128) bytes → valid_utf8 bytes ≡ true
unfolding valid_utf8
utf8_ascii [] h = refl
utf8_ascii (b ∷ bs) h = rw (lt→ltb b 128 h.0, utf8_from) (utf8_ascii bs h.1)
