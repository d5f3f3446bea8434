-- ===== src/MapMode/Windows.antt =====
-- What part of the canvas each view shows, and where.
use ns_pixels.Prelude.{◌+◌, ◌*◌, ◌/◌, ◌<◌, ◌≡◌, ◌↔◌, none, some, true, false, arith}
use ns_pixels.Projection.{PixelCoord, is_on_canvas, display_side}
use ns_pixels.MapMode.{
  MapMode, netherlands, randstad, randstad_offset_x, randstad_offset_y, canvas_to_display,
}

-- Whatever is shown lies on the display.
pub canvas_to_display_bounds :
    (p : PixelCoord) (mode : MapMode) {d : PixelCoord}
    → canvas_to_display p mode ≡ some d
    → (d.x < display_side) × (d.y < display_side)
unfolding canvas_to_display
canvas_to_display_bounds p netherlands e = ground arith
canvas_to_display_bounds p randstad e = ground arith

-- The country view shows every pixel of the canvas, at two sevenths of its coordinates.
pub netherlands_total :
    (p : PixelCoord)
    → is_on_canvas p ≡ true
    → canvas_to_display p netherlands ≡ some (record { x = p.x * 2 / 7; y = p.y * 2 / 7 })
unfolding canvas_to_display
netherlands_total p h = ground arith

-- No pixel of the display is left dark by the country view: each shows some pixel of the canvas.
pub netherlands_onto :
    (d : PixelCoord)
    → d.x < display_side
    → d.y < display_side
    → (p : PixelCoord) × (is_on_canvas p ≡ true) × (canvas_to_display p netherlands ≡ some d)
unfolding canvas_to_display
netherlands_onto d hx hy =
    (record { x = (7 * d.x + 1) / 2; y = (7 * d.y + 1) / 2 }, ground arith, ground arith)

-- A pixel of the canvas is in the Randstad view exactly when it lies in the 64 × 64 window whose
-- corner is the offset, and each display pixel shows the one pixel at its distance from the corner.
pub randstad_window :
    (p d : PixelCoord)
    → (canvas_to_display p randstad ≡ some d) ↔ (
        (p.x ≡ d.x + randstad_offset_x)
        × (p.y ≡ d.y + randstad_offset_y)
        × (d.x < display_side)
        × (d.y < display_side))
unfolding canvas_to_display
randstad_window p d = ground arith

-- A pixel that is off the canvas is in neither view.
pub off_canvas :
    (p : PixelCoord) (mode : MapMode) → is_on_canvas p ≡ false → canvas_to_display p mode ≡ none
unfolding canvas_to_display
off_canvas p mode h = ground arith
