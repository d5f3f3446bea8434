-- ===== src/Projection.antt =====
-- projection.rs: canvas-pixel coordinates, and the projection of a position onto the canvas over
-- abstract f32 arithmetic.
pub mod Key
pub mod Saturation
use ns_pixels.Prelude.{ℕ, ◌*◌, ◌/◌, ◌%◌, ◌^◌, ◌<◌, Bool, ◌&&◌, bit_or, if◌then◌else◌, ltb}
use ns_pixels.Extern.Floats.{Floats}

-- Both fields are bytes, as `IsBytes` says.
pub record PixelCoord : Type 0 where
  pub x : ℕ
  pub y : ℕ

pub record IsBytes (p : PixelCoord) : Type 0 where
  pub x_byte : p.x < 256
  pub y_byte : p.y < 256

abbrev pub canvas_side : ℕ
canvas_side = 224

abbrev pub display_side : ℕ
display_side = 64

unfoldable pub is_on_canvas : PixelCoord → Bool
is_on_canvas p = ltb p.x canvas_side && ltb p.y canvas_side

-- `((self.x as u16) << 8) | self.y as u16`
unfoldable pub as_u16 : PixelCoord → ℕ
as_u16 p = bit_or (p.x * 2 ^ 8 % 2 ^ 16) p.y

module _ (fl : Floats) where
  open fl use {F32, literal, neg, add, sub, mul, div, is_nan, le, ge, as_u8}

  unfoldable pub sat_u8 : F32 → ℕ
  sat_u8 v =
      if is_nan v
      then 255
      else if le v (literal 0 0)
      then 0
      else if ge v (literal 255 0)
      then 255
      else as_u8 v

  -- The easting, in metres, from the deltas in centidegrees.
  unfoldable pub easting : F32 → F32 → F32
  easting d_phi d_lam =
      let p2 = mul d_phi d_phi in
      let p3 = mul p2 d_phi in
      let l2 = mul d_lam d_lam in
      let l3 = mul l2 d_lam in
      let x0 = literal 155000 0 in
      let x1 = add x0 (
        mul d_lam (
          sub
            (sub (sub (literal 19009494 2) (mul (literal 11832228 3) d_phi))
              (mul (literal 114221 3) p2))
            (mul (literal 2340 3) p3))) in
      let x2 = add x1 (
        mul l3 (
          add (sub (neg (literal 32391 3)) (mul (literal 608 3) d_phi))
            (mul (literal 148 3) p2))) in
      add x2 (sub (mul (neg (literal 705 3)) d_phi) (mul (literal 8 3) p2))

  -- The northing.
  unfoldable pub northing : F32 → F32 → F32
  northing d_phi d_lam =
      let p2 = mul d_phi d_phi in
      let l2 = mul d_lam d_lam in
      let y0 = literal 463000 0 in
      let y1 = add y0 (
        mul d_phi (
          add (add (literal 30905653 2) (mul (literal 73077 3) d_phi))
            (mul (literal 59788 3) p2))) in
      let y2 = add y1 (
        mul l2 (
          sub (sub (literal 3638893 3) (mul (literal 157984 3) d_phi))
            (mul (literal 6439 3) p2))) in
      let y3 = add y2 (mul d_lam (sub (literal 433 3) (mul (literal 32 3) d_phi))) in
      add y3 (mul (mul l2 l2) (sub (literal 92 3) (mul (literal 54 3) d_phi)))

  unfoldable pub d_phi_of : F32 → F32
  d_phi_of lat = mul (literal 36 2) (sub lat (literal 52155174 6))

  unfoldable pub d_lam_of : F32 → F32
  d_lam_of lon = mul (literal 36 2) (sub lon (literal 5387206 6))

  -- The unrounded canvas coordinates, y downwards.
  unfoldable pub canvas_px : F32 → F32 → F32
  canvas_px lat lon =
      div (sub (easting (d_phi_of lat) (d_lam_of lon)) (literal 0 0)) (literal 1250 0)

  unfoldable pub canvas_py : F32 → F32 → F32
  canvas_py lat lon =
      sub (literal canvas_side 0)
        (div (sub (northing (d_phi_of lat) (d_lam_of lon)) (literal 307500 0)) (literal 1250 0))

  unfoldable pub wgs84_to_canvas : F32 → F32 → PixelCoord
  wgs84_to_canvas lat lon = record {
    x = sat_u8 (canvas_px lat lon);
    y = sat_u8 (canvas_py lat lon);
  }
