-- ===== src/Display/Fading.antt =====
-- Blending stays between the colours, and a pixel that both slots colour alike does not change.
use Prim.Native.Nat.{min, max}
use native.Mathlib.Nat.{mul-add, mul-le-mul_right}
use ns_pixels.Prelude.{
  ℕ, ◌+◌, ◌-◌, ◌*◌, ◌/◌, ◌%◌, ◌^◌, ◌≤◌, ◌<◌, ◌≡◌, sym, ap, ◌∙◌, arith, get_or, length, bit_and,
}
use ns_pixels.Train.{PixelData}
use ns_pixels.Display.{ColorMode}
use ns_pixels.Display.Colors.{
  slot_ms, fade_ms, Rgb, lerp, blend, pixel_color, pulse_pixel, active, extract,
}

weighted : (x t : ℕ) → t < 256 → x * (255 - t) + x * t ≡ x * 255
weighted x t h =
    sym (mul-add x (255 - t) t) ∙ ap (λ (k : ℕ). x * k) {x = 255 - t + t} {y = 255} (omega arith)

-- A blended channel lies between the two channels, so its u16 arithmetic does not wrap.
pub lerp_between :
    (t x y : ℕ) → t < 256 → x < 256 → y < 256 → (min x y ≤ lerp t x y) × (lerp t x y ≤ max x y)
unfolding lerp
lerp_between t x y h a b =
    let m : ℕ = min x y in
    let n : ℕ = max x y in
    let low_x : m * (255 - t) ≤ x * (255 - t) = mul-le-mul_right (255 - t) (omega arith) in
    let low_y : m * t ≤ y * t = mul-le-mul_right t (omega arith) in
    let high_x : x * (255 - t) ≤ n * (255 - t) = mul-le-mul_right (255 - t) (omega arith) in
    let high_y : y * t ≤ n * t = mul-le-mul_right t (omega arith) in
    let wm = weighted m t h in let wn = weighted n t h in (omega arith, omega arith)

-- A colour of three bytes.
pub record IsRgb (c : Rgb) : Type 0 where
  pub red_byte : c.red < 256
  pub green_byte : c.green < 256
  pub blue_byte : c.blue < 256

blend_same : (c : Rgb) (t : ℕ) → t < 256 → IsRgb c → blend c c t ≡ c
unfolding blend
blend_same c t h i =
    let r = lerp_between t c.red c.red h i.red_byte i.red_byte in
    let g = lerp_between t c.green c.green h i.green_byte i.green_byte in
    let b = lerp_between t c.blue c.blue h i.blue_byte i.blue_byte in
    let er : lerp t c.red c.red ≡ c.red = omega (arith, r) in
    let eg : lerp t c.green c.green ≡ c.green = omega (arith, g) in
    let eb : lerp t c.blue c.blue ≡ c.blue = omega (arith, b) in ground (arith, er, eg, eb)

-- The slot of a moment, and the one behind it.
abbrev pub slot_at : ColorMode → ℕ → ℕ
slot_at axis now_ms = now_ms % (length (active axis) * slot_ms) / slot_ms

-- A pixel that has one colour under the active bits of a slot and of the next keeps it for the whole slot,
-- the fade included.
pub pulse_pixel_steady :
    (now_ms : ℕ) (axis : ColorMode) (e : PixelData) (c : Rgb)
    → IsRgb c
    → pixel_color (extract axis e) (get_or (active axis) (slot_at axis now_ms) 0) axis ≡ c
    → pixel_color
        (extract axis e)
        (get_or (active axis) ((slot_at axis now_ms + 1) % length (active axis)) 0)
        axis
      ≡ c
    → pulse_pixel now_ms axis e ≡ (e.coord_key / 2 ^ 8, bit_and e.coord_key 0xff, c)
unfolding pulse_pixel
pulse_pixel_steady now_ms axis e c i p q =
    let t : ℕ =
      (now_ms % (length (active axis) * slot_ms) % slot_ms + fade_ms - slot_ms)
      * 255
      / fade_ms
      % 2 ^ 8 in
    ground (arith, p, q, blend_same c t (omega arith) i)
