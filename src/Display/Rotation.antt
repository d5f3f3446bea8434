-- ===== src/Display/Rotation.antt =====
-- The rotation against turned coordinates, over any sequence of frames.
use ns_pixels.Prelude.{
  ℕ, zero, suc, ◌+◌, ◌-◌, ◌*◌, ◌/◌, ◌%◌, ◌^◌, ◌<◌, ◌≤◌, ◌≡◌, refl, ap, ◌∙◌, List, [], ◌∷◌, arith,
  bit_and, bit_or,
}
use ns_pixels.Prelude.Bits.{bit_or_byte, bit_and_byte, bit_and_step, bit_or_step}
use ns_pixels.Train.{PixelData}
use ns_pixels.Accel.{Direction, x_up, x_down, y_up, y_down}
use ns_pixels.Display.{flipped, turn_ccw, turn_cw, transform, rotate}

bit_or_swap : (n a b : ℕ) → a + b ≤ n → bit_or a b ≡ bit_or b a
bit_or_swap zero zero zero h = refl
bit_or_swap zero (suc a) b h = absurd (omega arith)
bit_or_swap zero zero (suc b) h = absurd (omega arith)
bit_or_swap (suc n) a b h =
    omega (arith, bit_or_step a b, bit_or_step b a, bit_or_swap n (a / 2) (b / 2) (omega arith))

bit_or_comm : (a b : ℕ) → bit_or a b ≡ bit_or b a
bit_or_comm a b = bit_or_swap (a + b) a b (omega arith)

abbrev weight : ℕ → ℕ
weight zero = 1
weight (suc k) = weight k * 2

bit_and_double : (a b : ℕ) → bit_and (a * 2) (b * 2) ≡ bit_and a b * 2
bit_and_double a b = omega (arith, bit_and_step (a * 2) (b * 2), half_and)
  where
    half_and : bit_and (a * 2 / 2) (b * 2 / 2) ≡ bit_and a b
    half_and =
        ap (λ (t : ℕ). bit_and t (b * 2 / 2)) {x = a * 2 / 2} {y = a} (omega arith)
        ∙ ap (λ (t : ℕ). bit_and a t) {x = b * 2 / 2} {y = b} (omega arith)

-- `& 0xff00` keeps the high byte.
bit_and_field : (k q r : ℕ) → bit_and (q * weight k) (r * weight k) ≡ bit_and q r * weight k
bit_and_field zero q r = ground arith
bit_and_field (suc k) q r =
    ap (λ (t : ℕ). bit_and t (r * weight (suc k))) {x = q * weight (suc k)} {y = q * weight k * 2}
      (omega arith)
    ∙ ap (λ (t : ℕ). bit_and (q * weight k * 2) t) {x = r * weight (suc k)} {y = r * weight k * 2}
        (omega arith)
    ∙ bit_and_double (q * weight k) (r * weight k)
    ∙ omega (arith, bit_and_field k q r)

bit_and_high : (q : ℕ) → q < 256 → bit_and (q * 256) 0xff00 ≡ q * 256
bit_and_high q h = omega (arith, bit_and_field 8 q 255, bit_and_byte q)

-- The key of a pixel of the display.
abbrev pub key : ℕ → ℕ → ℕ
key x y = x * 256 + y

flipped-key : (x y : ℕ) → x < 64 → y < 64 → flipped (key x y) ≡ key (63 - x) (63 - y)
unfolding flipped
flipped-key x y a b = ground arith

turn_ccw-key : (x y : ℕ) → x < 64 → y < 64 → turn_ccw (key x y) ≡ key (63 - y) x
unfolding turn_ccw
turn_ccw-key x y a b =
    ap (λ (t : ℕ). bit_or t (bit_and (flipped (key x y) * 2 ^ 8 % 2 ^ 16) 0xff00))
      {x = key x y / 2 ^ 8} {y = x} (omega arith)
    ∙ ap (λ (t : ℕ). bit_or x (bit_and t 0xff00)) {x = flipped (key x y) * 2 ^ 8 % 2 ^ 16}
        {y = (63 - y) * 256} (omega (arith, flipped-key x y a b))
    ∙ ap (λ (t : ℕ). bit_or x t) (bit_and_high (63 - y) (omega arith))
    ∙ bit_or_comm x ((63 - y) * 256)
    ∙ bit_or_byte (63 - y) x (omega arith)

turn_cw-key : (x y : ℕ) → x < 64 → y < 64 → turn_cw (key x y) ≡ key y (63 - x)
unfolding turn_cw
turn_cw-key x y a b =
    ap (λ (t : ℕ). bit_or t (bit_and (flipped (key x y) / 2 ^ 8) 0x00ff))
      {x = key x y * 2 ^ 8 % 2 ^ 16} {y = y * 256} (omega arith)
    ∙ ap (λ (t : ℕ). bit_or (y * 256) t) {x = bit_and (flipped (key x y) / 2 ^ 8) 0x00ff}
        {y = 63 - x} (omega (arith, bit_and_byte (flipped (key x y) / 2 ^ 8), flipped-key x y a b))
    ∙ bit_or_byte y (63 - x) (omega arith)

-- Where a pixel of the upright display stands under a direction.
abbrev pub seen_x : Direction → ℕ → ℕ → ℕ
seen_x x_up x y = x
seen_x x_down x y = 63 - x
seen_x y_up x y = 63 - y
seen_x y_down x y = y

abbrev pub seen_y : Direction → ℕ → ℕ → ℕ
seen_y x_up x y = y
seen_y x_down x y = 63 - y
seen_y y_up x y = x
seen_y y_down x y = 63 - x

pub transform-key :
    (a b : Direction) (x y : ℕ)
    → x < 64
    → y < 64
    → transform a b (key (seen_x a x y) (seen_y a x y)) ≡ key (seen_x b x y) (seen_y b x y)
unfolding transform
transform-key x_up x_up x y h k = refl
transform-key x_up x_down x y h k = omega (arith, flipped-key x y (omega arith) (omega arith))
transform-key x_up y_up x y h k = omega (arith, turn_ccw-key x y (omega arith) (omega arith))
transform-key x_up y_down x y h k = omega (arith, turn_cw-key x y (omega arith) (omega arith))
transform-key x_down x_up x y h k =
    omega (arith, flipped-key (63 - x) (63 - y) (omega arith) (omega arith))
transform-key x_down x_down x y h k = refl
transform-key x_down y_up x y h k =
    omega (arith, turn_cw-key (63 - x) (63 - y) (omega arith) (omega arith))
transform-key x_down y_down x y h k =
    omega (arith, turn_ccw-key (63 - x) (63 - y) (omega arith) (omega arith))
transform-key y_up x_up x y h k = omega (arith, turn_cw-key (63 - y) x (omega arith) (omega arith))
transform-key y_up x_down x y h k =
    omega (arith, turn_ccw-key (63 - y) x (omega arith) (omega arith))
transform-key y_up y_up x y h k = refl
transform-key y_up y_down x y h k =
    omega (arith, flipped-key (63 - y) x (omega arith) (omega arith))
transform-key y_down x_up x y h k =
    omega (arith, turn_ccw-key y (63 - x) (omega arith) (omega arith))
transform-key y_down x_down x y h k =
    omega (arith, turn_cw-key y (63 - x) (omega arith) (omega arith))
transform-key y_down y_up x y h k =
    omega (arith, flipped-key y (63 - x) (omega arith) (omega arith))
transform-key y_down y_down x y h k = refl

-- An upright pixel with its masks, and the entry that shows it under a direction.
pub record Pixel : Type 0 where
  pub x : ℕ
  pub y : ℕ
  pub type_mask : ℕ
  pub service_mask : ℕ

abbrev pub OnDisplay : List Pixel → Type 0
OnDisplay [] = Unit
OnDisplay (p ∷ ps) = (p.x < 64) × (p.y < 64) × OnDisplay ps

abbrev pub seen : Direction → List Pixel → List PixelData
seen d [] = []
seen d (p ∷ ps) =
    record {
      coord_key = key (seen_x d p.x p.y) (seen_y d p.x p.y);
      types = p.type_mask;
      services = p.service_mask;
    }
    ∷ seen d ps

pub rotate-seen :
    (ps : List Pixel) (a b : Direction) → OnDisplay ps → rotate (seen a ps) a b ≡ seen b ps
unfolding rotate
rotate-seen [] a b o = refl
rotate-seen (p ∷ ps) a b o =
    let e = transform-key a b p.x p.y o.0 o.1 in
    let f = rotate-seen ps a b o.2 in ground (arith, e, f)
