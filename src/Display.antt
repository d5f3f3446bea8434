-- ===== src/Display.antt =====
-- display.rs: the configuration, the rotation of the snapshot, and a frame of the display task.
pub mod Rotation
pub mod Frames
pub mod Colors
pub mod Fading
pub mod Cluster
pub mod Turns
pub mod Bright
pub mod Lit
use ns_pixels.Prelude.{
  ℕ, ◌+◌, ◌-◌, ◌*◌, ◌/◌, ◌%◌, ◌^◌, Option, none, some, List, [], ◌∷◌, bit_and, bit_or,
}
use ns_pixels.Train.{PixelData}
use ns_pixels.Accel.{Direction, x_up, x_down, y_up, y_down}

pub data VizMode : Type 0 where
  per_cluster global_pulse : VizMode

pub data ColorMode : Type 0 where
  by_type by_service : ColorMode

-- `VizMode::next`
unfoldable pub next_viz : VizMode → VizMode
next_viz per_cluster = global_pulse
next_viz global_pulse = per_cluster

-- `ColorMode::next`
unfoldable pub next_color : ColorMode → ColorMode
next_color by_type = by_service
next_color by_service = by_type

pub record DisplayConfig : Type 0 where
  pub viz : VizMode
  pub col : ColorMode

abbrev pub default_config : DisplayConfig
default_config = record { viz = per_cluster; col = by_type }

-- A key turned by half a turn, in wrapping u16 arithmetic.
unfoldable pub flipped : ℕ → ℕ
flipped c = (bit_or (63 * 256) 63 + 2 ^ 16 - c) % 2 ^ 16

unfoldable pub turn_ccw : ℕ → ℕ
unfolding flipped
turn_ccw c = bit_or (c / 2 ^ 8) (bit_and (flipped c * 2 ^ 8 % 2 ^ 16) 0xff00)

unfoldable pub turn_cw : ℕ → ℕ
unfolding flipped
turn_cw c = bit_or (c * 2 ^ 8 % 2 ^ 16) (bit_and (flipped c / 2 ^ 8) 0x00ff)

-- The key's transform; with one direction twice, `rotate` returns at once.
unfoldable pub transform : Direction → Direction → ℕ → ℕ
unfolding turn_ccw turn_cw flipped
transform x_up x_down c = flipped c
transform x_down x_up c = flipped c
transform y_up y_down c = flipped c
transform y_down y_up c = flipped c
transform x_up y_up c = turn_ccw c
transform y_up x_down c = turn_ccw c
transform x_down y_down c = turn_ccw c
transform y_down x_up c = turn_ccw c
transform x_up y_down c = turn_cw c
transform y_down x_down c = turn_cw c
transform x_down y_up c = turn_cw c
transform y_up x_up c = turn_cw c
transform x_up x_up c = c
transform x_down x_down c = c
transform y_up y_up c = c
transform y_down y_down c = c

unfoldable pub rotate : List PixelData → Direction → Direction → List PixelData
unfolding transform
rotate [] from_dir to_dir = []
rotate (p ∷ ps) from_dir to_dir =
    record {
      coord_key = transform from_dir to_dir p.coord_key;
      types = p.types;
      services = p.services;
    }
    ∷ rotate ps from_dir to_dir

-- What the display task keeps from frame to frame, without its frame buffer.
pub record DisplayState : Type 0 where
  pub clusters : List PixelData
  pub direction : Direction

-- A new snapshot takes the old one's place.
unfoldable pub take_fresh : Option (List PixelData) → DisplayState → DisplayState
take_fresh none s = s
take_fresh (some new) s = record { clusters = new; direction = x_up }

-- The part of a frame before drawing.
unfoldable pub frame : Option (List PixelData) → Direction → DisplayState → DisplayState
unfolding rotate take_fresh
frame fresh new_direction s =
    let t = take_fresh fresh s in
    record { clusters = rotate t.clusters t.direction new_direction; direction = new_direction }
