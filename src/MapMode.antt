-- ===== src/MapMode.antt =====
-- map_mode.rs: the two views of the canvas.
pub mod Windows
use ns_pixels.Prelude.{
  ℕ, ◌*◌, ◌/◌, ◌%◌, ◌-◌, Option, none, some, Bool, ◌||◌, not, if◌then◌else◌, leb,
}
use ns_pixels.Projection.{PixelCoord, is_on_canvas, display_side}

pub data MapMode : Type 0 where
  netherlands randstad : MapMode

-- `MapMode::next`
unfoldable pub next : MapMode → MapMode
next netherlands = randstad
next randstad = netherlands

-- `mode as u8`
unfoldable pub mode_as_u8 : MapMode → ℕ
mode_as_u8 netherlands = 0
mode_as_u8 randstad = 1

abbrev pub randstad_offset_x : ℕ
randstad_offset_x = 62

abbrev pub randstad_offset_y : ℕ
randstad_offset_y = 73

-- `u8::checked_sub`
abbrev pub checked_sub_u8 : ℕ → ℕ → Option ℕ
checked_sub_u8 a b = if leb b a then some (a - b) else none

infixl 5 ◌>>=◌
abbrev ◌>>=◌ : {A B : Type 0} → Option A → (A → Option B) → Option B
none >>= f = none
some a >>= f = f a

-- The last test of `canvas_to_display`.
within_display : ℕ → ℕ → Option PixelCoord
within_display dx dy =
    if leb display_side dx || leb display_side dy then none else some (record { x = dx; y = dy })

-- The `match mode`.
project : MapMode → PixelCoord → Option (ℕ × ℕ)
project netherlands p = some (p.x * 2 / 7 % 256, p.y * 2 / 7 % 256)
project randstad p = do
  x ← checked_sub_u8 p.x randstad_offset_x
  y ← checked_sub_u8 p.y randstad_offset_y
  some (x, y)

unfoldable pub canvas_to_display : PixelCoord → MapMode → Option PixelCoord
unfolding is_on_canvas within_display project
canvas_to_display p mode =
    if not (is_on_canvas p) then none else project mode p >>= λ d. within_display d.0 d.1
