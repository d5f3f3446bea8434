-- ===== src/Display/Colors.antt =====
-- The colours of display.rs: the tables, dimming and blending, and the colour of a pixel.
use ns_pixels.Prelude.{
  ℕ, ◌+◌, ◌-◌, ◌*◌, ◌/◌, ◌%◌, ◌^◌, if◌then◌else◌, leb, ◌==◌, List, [], ◌∷◌, get_or, length, bit_and,
}
use ns_pixels.Display.{ColorMode, by_type, by_service}
use ns_pixels.Train.{PixelData}

abbrev pub slot_ms : ℕ
slot_ms = 1500

abbrev pub fade_ms : ℕ
fade_ms = 500

abbrev pub dim_div : ℕ
dim_div = 6

pub record Rgb : Type 0 where
  pub red : ℕ
  pub green : ℕ
  pub blue : ℕ

abbrev pub rgb : ℕ → ℕ → ℕ → Rgb
rgb r g b = record { red = r; green = g; blue = b }

-- One channel, in u16 arithmetic, cast to u8.
unfoldable pub lerp : ℕ → ℕ → ℕ → ℕ
lerp t x y = let v = (x * (255 - t) % 2 ^ 16 + y * t % 2 ^ 16) % 2 ^ 16 in v / 255 % 2 ^ 8

unfoldable pub blend : Rgb → Rgb → ℕ → Rgb
unfolding lerp
blend a b t = rgb (lerp t a.red b.red) (lerp t a.green b.green) (lerp t a.blue b.blue)

unfoldable pub dim : Rgb → Rgb
dim c = rgb (c.red / dim_div) (c.green / dim_div) (c.blue / dim_div)

-- The colours of the type bits.
unfoldable pub color_for_type_bit : ℕ → Rgb
color_for_type_bit bit =
    if bit == 1
    then rgb 10 10 10
    else if bit == 2
    then rgb 255 80 0
    else if bit == 4
    then rgb 0 200 255
    else if bit == 8
    then rgb 255 0 200
    else if bit == 16
    then rgb 255 220 0
    else if bit == 32
    then rgb 0 255 80
    else if bit == 64
    then rgb 80 80 255
    else if bit == 128
    then rgb 255 255 255
    else rgb 0 0 0

unfoldable pub color_for_service_bit : ℕ → Rgb
color_for_service_bit bit =
    if bit == 1
    then rgb 10 10 10
    else if bit == 2
    then rgb 0 200 255
    else if bit == 4
    then rgb 255 220 0
    else if bit == 8
    then rgb 255 40 40
    else rgb 0 0 0

-- `wrapping_neg` of a byte.
abbrev pub wrapping_neg : ℕ → ℕ
wrapping_neg m = (2 ^ 8 - m) % 2 ^ 8

abbrev pub extract : ColorMode → PixelData → ℕ
extract by_type p = p.types
extract by_service p = p.services

abbrev pub color_for : ColorMode → ℕ → Rgb
color_for by_type bit = color_for_type_bit bit
color_for by_service bit = color_for_service_bit bit

abbrev pub active : ColorMode → List ℕ
active by_type = 2 ∷ 4 ∷ 8 ∷ 16 ∷ 32 ∷ 64 ∷ 128 ∷ []
active by_service = 2 ∷ 4 ∷ 8 ∷ []

unfoldable pub pixel_color : ℕ → ℕ → ColorMode → Rgb
unfolding dim
pixel_color bits act axis =
    if bits == 0
    then rgb 0 0 0
    else if bit_and bits act == 0
    then dim (color_for axis (bit_and bits (wrapping_neg bits)))
    else color_for axis act

-- One pixel of the global pulse at a time: its column, its row and its colour.
unfoldable pub pulse_pixel : ℕ → ColorMode → PixelData → ℕ × ℕ × Rgb
unfolding pixel_color blend
pulse_pixel now_ms axis e =
    let n = length (active axis) in
    let phase = now_ms % (n * slot_ms) in
    let slot = phase / slot_ms in
    let in_slot = phase % slot_ms in
    let bits = extract axis e in
    let a = pixel_color bits (get_or (active axis) slot 0) axis in
    let color =
      if leb (in_slot + fade_ms) slot_ms
      then a
      else blend a (pixel_color bits (get_or (active axis) ((slot + 1) % n) 0) axis)
          ((in_slot + fade_ms - slot_ms) * 255 / fade_ms % 2 ^ 8) in
    (e.coord_key / 2 ^ 8, bit_and e.coord_key 0xff, color)

unfoldable pub draw_global_pulse : ℕ → ColorMode → List PixelData → List (ℕ × ℕ × Rgb)
unfolding pulse_pixel
draw_global_pulse now_ms axis [] = []
draw_global_pulse now_ms axis (e ∷ es) =
    pulse_pixel now_ms axis e ∷ draw_global_pulse now_ms axis es
