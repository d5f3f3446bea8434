-- ===== src/Decompress/Utf8.antt =====
-- `core::str::from_utf8`: which bytes are UTF-8.
use mathlib.Core.Bool.{Bool, true, false, ◌&&◌}
use ns_pixels.Prelude.{
  ℕ, zero, suc, Option, none, some, List, [], ◌∷◌, if◌then◌else◌, leb, ltb, ◌==◌,
}

-- How many bytes follow a first byte, and the range of the next.
abbrev lead : ℕ → Option (ℕ × ℕ × ℕ)
lead b =
    if ltb b 0x80
    then some (0, 0x80, 0xbf)
    else if ltb b 0xc2
    then none
    else if ltb b 0xe0
    then some (1, 0x80, 0xbf)
    else if b == 0xe0
    then some (2, 0xa0, 0xbf)
    else if b == 0xed
    then some (2, 0x80, 0x9f)
    else if ltb b 0xf0
    then some (2, 0x80, 0xbf)
    else if b == 0xf0
    then some (3, 0x90, 0xbf)
    else if ltb b 0xf4
    then some (3, 0x80, 0xbf)
    else if b == 0xf4
    then some (3, 0x80, 0x8f)
    else none

unfoldable pub scan : ℕ → ℕ → ℕ → List ℕ → Bool
scan zero lo hi [] = true
scan (suc n) lo hi [] = false
scan (suc n) lo hi (b ∷ bs) = leb lo b && leb b hi && scan n 0x80 0xbf bs
scan zero lo hi (b ∷ bs) = elim (lead b) [ none ↦ false | some (n, lo2, hi2) ↦ scan n lo2 hi2 bs ]

unfoldable pub is_utf8 : List ℕ → Bool
unfolding scan
is_utf8 bs = scan 0 0x80 0xbf bs
