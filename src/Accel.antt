-- ===== src/Accel.antt =====
-- accel.rs: the direction of gravity, stored as a byte.
pub mod Pull
use mathlib.Core.Bool.{Bool, true, false, ◌&&◌}
use ns_pixels.Prelude.{
  ℕ, ◌+◌, ◌-◌, ◌*◌, ◌^◌, if◌then◌else◌, ltb, leb, ◌==◌, Option, none, some, List, get_or,
}

pub data Direction : Type 0 where
  x_up x_down y_up y_down : Direction

abbrev pub threshold : ℕ
threshold = 4096

-- `direction as u8`
unfoldable pub direction_as_u8 : Direction → ℕ
direction_as_u8 x_up = 1
direction_as_u8 x_down = 2
direction_as_u8 y_up = 3
direction_as_u8 y_down = 4

-- `From<u8>`
unfoldable pub direction_from : ℕ → Direction
direction_from value =
    if value == 1
    then x_up
    else if value == 2
    then x_down
    else if value == 3
    then y_up
    else if value == 4
    then y_down
    else x_up

-- `get_direction`, of the byte that is stored.
abbrev pub get_direction : ℕ → Direction
get_direction stored = direction_from stored

-- An i16 of two bytes, as its bits; its magnitude and its sign.
abbrev pub from_le_bytes : ℕ → ℕ → ℕ
from_le_bytes lo hi = lo + 256 * hi

abbrev pub unsigned_abs : ℕ → ℕ
unsigned_abs n = if ltb n (2 ^ 15) then n else 2 ^ 16 - n

abbrev pub is_positive : ℕ → Bool
is_positive n = ltb 0 n && ltb n (2 ^ 15)

-- The direction of a reading that is not still.
unfoldable pub heading : ℕ → ℕ → Direction
heading x y =
    if ltb (unsigned_abs y) (unsigned_abs x)
    then if is_positive x then x_up else x_down
    else if is_positive y
    then y_up
    else y_down

-- One reading of four bytes, with the byte that is stored before and after.
unfoldable pub accel_reading : List ℕ → ℕ → ℕ
unfolding direction_as_u8 heading
accel_reading buf stored =
    let x = from_le_bytes (get_or buf 0 0) (get_or buf 1 0) in
    let y = from_le_bytes (get_or buf 2 0) (get_or buf 3 0) in
    if ltb (unsigned_abs x) threshold && ltb (unsigned_abs y) threshold
    then stored
    else direction_as_u8 (heading x y)

-- A round of the task: a transfer that failed changes nothing.
unfoldable pub accel_round : Option (List ℕ) → ℕ → ℕ
unfolding accel_reading
accel_round none stored = stored
accel_round (some buf) stored = accel_reading buf stored
