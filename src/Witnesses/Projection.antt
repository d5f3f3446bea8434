-- ===== src/Witnesses/Projection.antt =====
-- The theorem on the projection.
use ns_pixels.Prelude.{◌≡◌, refl, none, some, false, inl}
use ns_pixels.Prelude.Int.{pos}
use ns_pixels.Extern.FixedPoint.{Fixed, fixed_point, is_nan}
use ns_pixels.Projection.{is_on_canvas, wgs84_to_canvas}
use ns_pixels.Projection.Saturation.{wgs84_to_canvas_nan}

-- No latitude, and the longitude of Utrecht.
abbrev no_number : Fixed
no_number = none

abbrev utrecht_lon : Fixed
utrecht_lon = some (pos 5_110_000)

wgs84_to_canvas_nan_example :
    is_on_canvas (wgs84_to_canvas fixed_point no_number utrecht_lon) ≡ false
unfolding is_nan
wgs84_to_canvas_nan_example = wgs84_to_canvas_nan fixed_point no_number utrecht_lon (inl refl)
