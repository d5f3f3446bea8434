-- ===== src/Witnesses/Display.antt =====
-- The theorems on the display task's snapshot and on the stored configuration.
use ns_pixels.Prelude.{◌≤◌, ◌≡◌, inl, none, some, List, [], ◌∷◌, arith}
use ns_pixels.Accel.{x_up, y_up, y_down, get_direction, accel_reading, from_le_bytes, threshold}
use ns_pixels.Accel.Pull.{pull, accel_reading_strongest}
use ns_pixels.Display.{global_pulse, by_service, DisplayConfig}
use ns_pixels.Display.Rotation.{Pixel}
use ns_pixels.Display.Frames.{Tick, frames, showing, frames-showing}

abbrev one_pixel : List Pixel
one_pixel = record { x = 10; y = 20; type_mask = 2; service_mask = 4 } ∷ []

-- Turned twice, with a new snapshot between.
abbrev ticks : List Tick
ticks = record { fresh = none; tilt = y_up } ∷ record { fresh = some one_pixel; tilt = y_down } ∷ []

frames-showing_example : frames ticks (showing x_up []) ≡ showing y_down one_pixel
frames-showing_example = frames-showing ticks [] x_up tt (tt, ((omega arith, omega arith, tt), tt))

abbrev pulse : DisplayConfig
pulse = record { viz = global_pulse; col = by_service }

-- The board hangs by its left edge: x is -16384, y is 300.
accel_reading_strongest_example :
    let now = get_direction (accel_reading (0 ∷ 192 ∷ 44 ∷ 1 ∷ []) 1) in
    (pull y_up (from_le_bytes 0 192) (from_le_bytes 44 1)
      ≤ pull now (from_le_bytes 0 192) (from_le_bytes 44 1))
    × (threshold ≤ pull now (from_le_bytes 0 192) (from_le_bytes 44 1))
accel_reading_strongest_example =
    accel_reading_strongest 0 192 44 1 1 y_up (omega arith) (omega arith) (omega arith)
      (omega arith) (inl (omega arith))
