-- ===== src/Display/Lit.antt =====
-- Which pixels the global pulse sets to the colour whose turn it is, in a frame of the display task.
use ns_pixels.Prelude.{
  ℕ, suc, ◌+◌, ◌/◌, ◌^◌, ◌<◌, ◌≤◌, ◌≡◌, refl, ap, ◌∙◌, Bool, ◌&&◌, List, [], ◌∷◌, arith, ◌==◌,
  get_or, length, bit_and,
}
use ns_pixels.Prelude.Bits.{bit_and_byte}
use ns_pixels.Train.{PixelData}
use ns_pixels.Accel.{Direction, x_up, x_down, y_up, y_down}
use ns_pixels.Display.{ColorMode, by_type, by_service, transform, rotate}
use ns_pixels.Display.Rotation.{key, seen_x, seen_y, transform-key}
use ns_pixels.Display.Colors.{
  Rgb, slot_ms, fade_ms, active, color_for, extract, pulse_pixel, draw_global_pulse,
}
use ns_pixels.Display.Turns.{moment}
use ns_pixels.Snapshot.Content.{any, shows}
use ns_pixels.Snapshot.Placed.{PlacedKey, AllPlaced}
use ns_pixels.Display.Bright.{same_rgb, last_turn, pixel_color_turn, pulse_pixel_turn}

-- A pixel that is set at a column and a row, to a colour.
abbrev pub lit : ℕ → ℕ → Rgb → ℕ × ℕ × Rgb → Bool
lit x y c (px, py, pc) = (px == x && py == y) && same_rgb pc c

seen_below :
    (dir : Direction) (x y : ℕ) → x < 64 → y < 64 → (seen_x dir x y < 64) × (seen_y dir x y < 64)
seen_below x_up x y h l = omega arith
seen_below x_down x y h l = omega arith
seen_below y_up x y h l = omega arith
seen_below y_down x y h l = omega arith

-- Two pixels of the display stand at one place under a direction exactly when they are one pixel.
same_place :
    (dir : Direction) (a b x y : ℕ)
    → a < 64
    → b < 64
    → x < 64
    → y < 64
    → (seen_x dir a b == seen_x dir x y && seen_y dir a b == seen_y dir x y) ≡ (key a b == key x y)
same_place x_up a b x y h1 h2 h3 h4 = ground arith
same_place x_down a b x y h1 h2 h3 h4 = ground arith
same_place y_up a b x y h1 h2 h3 h4 = ground arith
same_place y_down a b x y h1 h2 h3 h4 = ground arith

-- The key is no mask.
extract_moved :
    (axis : ColorMode) (e : PixelData) (c : ℕ)
    → extract axis (record { coord_key = c; types = e.types; services = e.services })
      ≡ extract axis e
extract_moved by_type e c = refl
extract_moved by_service e c = refl

module _ (axis : ColorMode) (k cycle d : ℕ) (dir : Direction) (x y : ℕ) where
  abbrev now_ms : ℕ
  now_ms = moment (length (active axis)) cycle k d

  abbrev turn_color : Rgb
  turn_color = color_for axis (get_or (active axis) k 0)

  abbrev set_here : ℕ × ℕ × Rgb → Bool
  set_here = lit (seen_x dir x y) (seen_y dir x y) turn_color

  abbrev turned : PixelData → PixelData
  turned e = record {
    coord_key = transform x_up dir e.coord_key;
    types = e.types;
    services = e.services;
  }

  drawn_entry :
      (e : PixelData)
      → k < last_turn axis
      → d + fade_ms ≤ slot_ms
      → x < 64
      → y < 64
      → PlacedKey e.coord_key
      → set_here (pulse_pixel now_ms axis (turned e)) ≡ shows (extract axis) (key x y) (suc k) e
  drawn_entry e h steady hx hy (p, px, py, at) =
      let (bx, by) = seen_below dir p.x p.y px py in
      let moved : transform x_up dir e.coord_key ≡ key (seen_x dir p.x p.y) (seen_y dir p.x p.y) =
        ap (transform x_up dir) at ∙ transform-key x_up dir p.x p.y px py in
      ap set_here (pulse_pixel_turn axis k h cycle d (turned e) steady)
      ∙ ground (
        arith,
        ap (λ (t : ℕ). t / 2 ^ 8 == seen_x dir x y) moved,
        ap (λ (t : ℕ). bit_and t 0xff == seen_y dir x y) moved,
        bit_and_byte (key (seen_x dir p.x p.y) (seen_y dir p.x p.y)),
        extract_moved axis e (transform x_up dir e.coord_key),
        same_place dir p.x p.y x y px py hx hy,
        pixel_color_turn axis k h (extract axis e),
        at,
      )

  -- The pulse sets a pixel to the colour of the turn exactly when an entry for that pixel has the bit of the turn.
  pub draw_global_pulse-shows :
      (es : List PixelData)
      → k < last_turn axis
      → d + fade_ms ≤ slot_ms
      → x < 64
      → y < 64
      → AllPlaced es
      → any set_here (draw_global_pulse now_ms axis (rotate es x_up dir))
        ≡ any (shows (extract axis) (key x y) (suc k)) es
  unfolding draw_global_pulse rotate
  draw_global_pulse-shows [] h steady hx hy a = refl
  draw_global_pulse-shows (e ∷ es) h steady hx hy (placed, all) =
      ground
        (arith, drawn_entry e h steady hx hy placed, draw_global_pulse-shows es h steady hx hy all)
