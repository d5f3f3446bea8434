-- ===== src/Projection/Saturation.antt =====
-- Where the projection puts a position that is outside the canvas, or no number.
use ns_pixels.Prelude.{◌<◌, ◌≡◌, true, false, ◌⊎◌, inl, inr, arith}
use ns_pixels.Extern.Floats.{Floats}
use ns_pixels.Projection.{
  IsBytes, is_on_canvas, sat_u8, easting, canvas_px, d_phi_of, d_lam_of, wgs84_to_canvas,
}

module _ (fl : Floats) where
  open fl use {F32, literal, add, sub, mul, div, is_nan, le, as_u8, as_u8_bounded}

  pub sat_u8-lt : (v : F32) → sat_u8 fl v < 256
  unfolding sat_u8
  sat_u8-lt v = ground (arith, as_u8_bounded v)

  sat_u8_nan : (v : F32) → is_nan v ≡ true → sat_u8 fl v ≡ 255
  unfolding sat_u8
  sat_u8_nan v e = ground arith

  -- Every position, also one that is no number, is given a pair of bytes.
  pub wgs84_to_canvas-IsBytes : (lat lon : F32) → IsBytes (wgs84_to_canvas fl lat lon)
  unfolding wgs84_to_canvas
  wgs84_to_canvas-IsBytes lat lon = record { x_byte = sat_u8-lt _; y_byte = sat_u8-lt _ }

  easting_nan_left :
      (d_phi d_lam : F32) → is_nan d_lam ≡ true → is_nan (easting fl d_phi d_lam) ≡ true
  unfolding easting
  easting_nan_left d_phi d_lam e =
      fl.add_nan_left _ _ (fl.add_nan_left _ _ (fl.add_nan_right _ _ (fl.mul_nan_left _ _ e)))

  easting_nan_right :
      (d_phi d_lam : F32) → is_nan d_phi ≡ true → is_nan (easting fl d_phi d_lam) ≡ true
  unfolding easting
  easting_nan_right d_phi d_lam e =
      fl.add_nan_right _ _ (fl.sub_nan_left _ _ (fl.mul_nan_right _ _ e))

  canvas_px_nan :
      (lat lon : F32)
      → (is_nan lat ≡ true) ⊎ (is_nan lon ≡ true)
      → is_nan (canvas_px fl lat lon) ≡ true
  unfolding canvas_px d_phi_of d_lam_of
  canvas_px_nan lat lon (inl e) =
      fl.div_nan_left _ _
        (fl.sub_nan_left _ _ (easting_nan_right _ _ (fl.mul_nan_right _ _ (fl.sub_nan_left _ _ e))))
  canvas_px_nan lat lon (inr e) =
      fl.div_nan_left _ _
        (fl.sub_nan_left _ _ (easting_nan_left _ _ (fl.mul_nan_right _ _ (fl.sub_nan_left _ _ e))))

  -- A latitude or longitude that is not a number gives a coordinate off the canvas, which
  -- `is_on_canvas` filters out.
  pub wgs84_to_canvas_nan :
      (lat lon : F32)
      → (is_nan lat ≡ true) ⊎ (is_nan lon ≡ true)
      → is_on_canvas (wgs84_to_canvas fl lat lon) ≡ false
  unfolding wgs84_to_canvas is_on_canvas
  wgs84_to_canvas_nan lat lon h = rw (sat_u8_nan _ (canvas_px_nan lat lon h))
