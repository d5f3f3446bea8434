-- ===== src/Display/Bright.antt =====
-- The colour of a pixel in a turn of the global pulse: the turn's, exactly for the masks that have its bit.
use ns_pixels.Prelude.{
  ℕ, zero, suc, ◌+◌, ◌*◌, ◌/◌, ◌%◌, ◌^◌, ◌<◌, ◌≤◌, ◌≡◌, ap, ◌∙◌, Bool, true, false, not, ◌&&◌,
  arith, ◌==◌, get_or, length, bit_and, Bool-cases, inl, inr,
}
use ns_pixels.Prelude.Bits.{bit, bit-zero, bit-le-one, weight, no_common_digit, bit_and_step}
use ns_pixels.Train.{PixelData}
use ns_pixels.Display.{ColorMode, by_type, by_service}
use ns_pixels.Display.Colors.{
  Rgb, rgb, slot_ms, fade_ms, active, color_for, wrapping_neg, color_for_type_bit,
  color_for_service_bit, dim, extract, pixel_color, pulse_pixel,
}
use ns_pixels.Display.Turns.{moment, moment_phase}

abbrev pub same_rgb : Rgb → Rgb → Bool
same_rgb a b = a.red == b.red && a.green == b.green && a.blue == b.blue

-- The bits that have turns.
abbrev pub last_turn : ColorMode → ℕ
last_turn by_type = 7
last_turn by_service = 3

bit_and-bit : (i a : ℕ) → bit_and a (weight i) ≡ bit i a * weight i
bit_and-bit zero a = omega (arith, bit_and_step a 1, no_common_digit (a / 2) (a / 2))
bit_and-bit (suc i) a = omega (
  arith,
  bit_and_step a (weight (suc i)),
  ap (λ (t : ℕ). bit_and (a / 2) t) {x = weight (suc i) / 2} {y = weight i} (omega arith),
  bit_and-bit i (a / 2),
)

turns_below : (axis : ColorMode) (k : ℕ) → k < last_turn axis → k < length (active axis)
turns_below by_type k h = h
turns_below by_service k h = h

weight-pos : (i : ℕ) → 0 < weight i
weight-pos zero = omega arith
weight-pos (suc i) = omega (arith, weight-pos i)

turn_bit :
    (axis : ColorMode) (k : ℕ) → k < last_turn axis → get_or (active axis) k 0 ≡ weight (suc k)
turn_bit by_type k h = ground arith
turn_bit by_service k h = ground arith

abbrev brightness : Rgb → ℕ
brightness c = c.red + c.green + c.blue

brightness-dim : (axis : ColorMode) (b : ℕ) → brightness (dim (color_for axis b)) ≤ 127
unfolding dim color_for_type_bit color_for_service_bit
brightness-dim by_type b = ground arith
brightness-dim by_service b = ground arith

brightness-color_for :
    (axis : ColorMode) (k : ℕ)
    → k < last_turn axis
    → 127 < brightness (color_for axis (get_or (active axis) k 0))
unfolding color_for_type_bit color_for_service_bit
brightness-color_for by_type k h = ground arith
brightness-color_for by_service k h = ground arith

same_rgb_refl : (c : Rgb) → same_rgb c c ≡ true
same_rgb_refl c = ground arith

darker : (a b : Rgb) → brightness a ≤ 127 → 127 < brightness b → same_rgb a b ≡ false
darker a b h l = ground arith

-- The colour of the turn, exactly for the masks that have its bit.
module _ (axis : ColorMode) (k : ℕ) (h : k < last_turn axis) where
  abbrev turn_mask : ℕ
  turn_mask = get_or (active axis) k 0

  abbrev coloured : ℕ → Bool
  coloured bits = same_rgb (pixel_color bits turn_mask axis) (color_for axis turn_mask)

  and_turn : (bits : ℕ) → bit_and bits turn_mask ≡ bit (suc k) bits * weight (suc k)
  and_turn bits = ap (bit_and bits) (turn_bit axis k h) ∙ bit_and-bit (suc k) bits

  -- A mask meets the turn in its bit.
  and_turn-bit : (bits : ℕ) → (bit_and bits turn_mask == 0) ≡ not (bit (suc k) bits == 1)
  and_turn-bit bits =
      met (bit (suc k) bits) (bit_and bits turn_mask) (bit-le-one (suc k) bits) (and_turn bits)
    where
      met : (b a : ℕ) → b ≤ 1 → a ≡ b * weight (suc k) → (a == 0) ≡ not (b == 1)
      met zero a l e = ground (arith, e)
      met (suc zero) a l e = ground (arith, e, weight-pos (suc k))
      met (suc (suc b)) a l e = absurd (omega arith)

  pub pixel_color_turn : (bits : ℕ) → coloured bits ≡ (bit (suc k) bits == 1)
  unfolding pixel_color
  pixel_color_turn bits = elim (Bool-cases (bits == 0)) [
    | inl none_set ↦
        let zero_bits : bits ≡ 0 = ground arith in
        ap coloured zero_bits
        ∙ darker (rgb 0 0 0) (color_for axis turn_mask) (omega arith)
            (brightness-color_for axis k h)
        ∙ ground (arith, ap (bit (suc k)) zero_bits, bit-zero (suc k))
    | inr some_set ↦ elim (Bool-cases (bit (suc k) bits == 1)) [
      | inl has ↦
          ground (arith, some_set, has, and_turn-bit bits, same_rgb_refl (color_for axis turn_mask))
      | inr lacks ↦
          let fallback = color_for axis (bit_and bits (wrapping_neg bits)) in
          ground (
            arith,
            some_set,
            lacks,
            and_turn-bit bits,
            darker (dim fallback) (color_for axis turn_mask)
                (brightness-dim axis (bit_and bits (wrapping_neg bits)))
                (brightness-color_for axis k h),
          )
    ]
  ]

  -- In its turn, before the fade, a pixel has the colour of its mask for the turn.
  pub pulse_pixel_turn :
      (cycle d : ℕ) (e : PixelData)
      → d + fade_ms ≤ slot_ms
      → pulse_pixel (moment (length (active axis)) cycle k d) axis e ≡ (
        e.coord_key / 2 ^ 8,
        bit_and e.coord_key 0xff,
        pixel_color (extract axis e) turn_mask axis,
      )
  unfolding pulse_pixel
  pulse_pixel_turn cycle d e steady =
      let n = length (active axis) in
      let phase = moment_phase n cycle k d (turns_below axis k h) (omega arith) in
      ground (
        arith,
        phase,
        ap (λ (t : ℕ). pixel_color (extract axis e) (get_or (active axis) t 0) axis)
            {x = moment n cycle k d % (n * slot_ms) / slot_ms} {y = k} (omega arith),
      )
