-- ===== src/Accel/Pull.antt =====
-- The direction that is stored, against the pull along each direction.
use ns_pixels.Prelude.{ℕ, ◌-◌, ◌^◌, ◌≤◌, ◌<◌, ◌≡◌, refl, ◌⊎◌, if◌then◌else◌, ltb, [], ◌∷◌, arith}
use ns_pixels.Accel.{
  Direction, x_up, x_down, y_up, y_down, direction_as_u8, direction_from, heading, get_direction,
  accel_reading, from_le_bytes, unsigned_abs, threshold,
}

-- How strong the pull along a direction is, 0 when it is the other way.
abbrev pub pull : Direction → ℕ → ℕ → ℕ
pull x_up x y = if ltb x (2 ^ 15) then x else 0
pull x_down x y = if ltb x (2 ^ 15) then 0 else 2 ^ 16 - x
pull y_up x y = if ltb y (2 ^ 15) then y else 0
pull y_down x y = if ltb y (2 ^ 15) then 0 else 2 ^ 16 - y

direction_from-direction_as_u8 : (d : Direction) → direction_from (direction_as_u8 d) ≡ d
unfolding direction_from direction_as_u8
direction_from-direction_as_u8 x_up = refl
direction_from-direction_as_u8 x_down = refl
direction_from-direction_as_u8 y_up = refl
direction_from-direction_as_u8 y_down = refl

-- Every reading of 16 bits that is not still.
heading_strongest :
    (d : Direction) (x y : ℕ)
    → x < 2 ^ 16
    → y < 2 ^ 16
    → (threshold ≤ unsigned_abs x) ⊎ (threshold ≤ unsigned_abs y)
    → (pull d x y ≤ pull (heading x y) x y) × (threshold ≤ pull (heading x y) x y)
unfolding heading
heading_strongest x_up x y a b t = (ground arith, ground arith)
heading_strongest x_down x y a b t = (ground arith, ground arith)
heading_strongest y_up x y a b t = (ground arith, ground arith)
heading_strongest y_down x y a b t = (ground arith, ground arith)

-- A reading with a pull of at least the threshold along an axis stores a direction along which the pull is
-- at least the threshold, and no direction's pull is stronger.
pub accel_reading_strongest :
    (a b c e stored : ℕ) (d : Direction)
    → a < 256
    → b < 256
    → c < 256
    → e < 256
    → (threshold ≤ unsigned_abs (from_le_bytes a b))
      ⊎ (threshold ≤ unsigned_abs (from_le_bytes c e))
    → let now = get_direction (accel_reading (a ∷ b ∷ c ∷ e ∷ []) stored) in
      (pull d (from_le_bytes a b) (from_le_bytes c e)
        ≤ pull now (from_le_bytes a b) (from_le_bytes c e))
      × (threshold ≤ pull now (from_le_bytes a b) (from_le_bytes c e))
unfolding accel_reading
accel_reading_strongest a b c e stored d ha hb hc he t =
    let x : ℕ = from_le_bytes a b in
    let y : ℕ = from_le_bytes c e in
    let (p, q) = heading_strongest d x y (omega arith) (omega arith) t in
    let now : get_direction (accel_reading (a ∷ b ∷ c ∷ e ∷ []) stored) ≡ heading x y =
      ground (arith, direction_from-direction_as_u8 (heading x y)) in
    (rw now p, rw now q)
