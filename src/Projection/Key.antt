-- ===== src/Projection/Key.antt =====
-- The 16-bit sort key of a pixel: both bytes can be read back, so it names the pixel.
use ns_pixels.Prelude.{ℕ, ◌+◌, ◌*◌, ◌/◌, ◌%◌, ◌^◌, ◌<◌, ◌≡◌, ap, ◌∙◌, arith, bit_and, bit_or}
use ns_pixels.Prelude.Bits.{bit_or_byte, bit_and_byte}
use ns_pixels.Projection.{PixelCoord, IsBytes, as_u16}

pub as_u16-eq : (p : PixelCoord) → IsBytes p → as_u16 p ≡ p.x * 256 + p.y
unfolding as_u16
as_u16-eq p b =
    ap (λ (k : ℕ). bit_or k p.y) {x = p.x * 2 ^ 8 % 2 ^ 16} {y = p.x * 256}
      (ground (arith, b.x_byte))
    ∙ bit_or_byte p.x p.y b.y_byte

-- The key of a pixel fits 16 bits, and `key >> 8` and `key & 0xff`, as the renderer takes a key
-- apart, give back the pixel's coordinates.
pub as_u16_unpack :
    (p : PixelCoord)
    → IsBytes p
    → (as_u16 p < 2 ^ 16) × (as_u16 p / 2 ^ 8 ≡ p.x) × (bit_and (as_u16 p) 255 ≡ p.y)
as_u16_unpack p b = omega (arith, as_u16-eq p b, bit_and_byte (as_u16 p), b.x_byte, b.y_byte)

-- Pixels with one key are one pixel.
pub as_u16-injective : (p q : PixelCoord) → IsBytes p → IsBytes q → as_u16 p ≡ as_u16 q → p ≡ q
as_u16-injective p q b d e =
    let (_, px, py) = as_u16_unpack p b in
    let (_, qx, qy) = as_u16_unpack q d in ground (arith, px, py, qx, qy)
