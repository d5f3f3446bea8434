-- ===== src/Input.antt =====
-- input.rs with what a press changes: the configuration of display.rs, the save signal and task of
-- persist.rs, and the stored mode and controller of map_mode.rs.
pub mod Presses
pub mod Timing
use mathlib.Core.Bool.{Bool, true, false}
use ns_pixels.Prelude.{ℕ, Option, none, some, List, [], ◌∷◌, if◌then◌else◌, ◌==◌}
use ns_pixels.MapMode.{MapMode, netherlands, randstad, next, mode_as_u8}
use ns_pixels.Display.{DisplayConfig, default_config, next_viz, next_color}

-- `map_mode::current`, of the byte that is stored.
unfoldable pub current : ℕ → MapMode
current stored = if stored == 0 then netherlands else randstad

-- The shared cells: the configuration, its save signal, what the flash holds, the mode's byte, and the
-- signal of a manual change.
pub record Panel : Type 0 where
  pub cfg : DisplayConfig
  pub save_signal : Option DisplayConfig
  pub in_flash : Option DisplayConfig
  pub mode : ℕ
  pub changed : Bool

-- The configuration that a start of the firmware has, from what the flash holds.
abbrev pub start_config : Option DisplayConfig → DisplayConfig
start_config none = default_config
start_config (some cfg) = cfg

-- The cells when the tasks start.
abbrev pub panel_at_start : Option DisplayConfig → Panel
panel_at_start stored = record {
  cfg = start_config stored;
  save_signal = none;
  in_flash = stored;
  mode = 0;
  changed = false;
}

-- `update_config`, then `request_save`.
unfoldable pub update_and_save : DisplayConfig → Panel → Panel
update_and_save new p = record {
  cfg = new;
  save_signal = some new;
  in_flash = p.in_flash;
  mode = p.mode;
  changed = p.changed;
}

-- `set(current().next())`
unfoldable pub flip_mode : Bool → Panel → Panel
unfolding current
flip_mode signal p = record {
  cfg = p.cfg;
  save_signal = p.save_signal;
  in_flash = p.in_flash;
  mode = mode_as_u8 (next (current p.mode));
  changed = signal;
}

-- `map_mode::toggle`
unfoldable pub toggle : Panel → Panel
unfolding flip_mode
toggle p = flip_mode true p

-- A round of the save task, with the outcome of the write. With no signal it waits.
unfoldable pub save_round : Bool → Panel → Panel
save_round success p = elim p.save_signal [
  | none ↦ p
  | some c ↦ record {
    cfg = p.cfg;
    save_signal = none;
    in_flash = if success then some c else p.in_flash;
    mode = p.mode;
    changed = p.changed;
  }
]

-- What can happen: presses that passed the debounce, bounces that did not, the controller's timer, its
-- change signal, and a round of the save task.
pub data Event : Type 0 where
  up_short up_long down_press bounce timeout change_seen : Event
  save : Bool → Event

unfoldable pub step : Event → Panel → Panel
unfolding update_and_save toggle flip_mode save_round
step up_short p = update_and_save (record { viz = next_viz p.cfg.viz; col = p.cfg.col }) p
step down_press p = update_and_save (record { viz = p.cfg.viz; col = next_color p.cfg.col }) p
step up_long p = toggle p
step bounce p = p
step timeout p = flip_mode p.changed p
step change_seen p = record {
  cfg = p.cfg;
  save_signal = p.save_signal;
  in_flash = p.in_flash;
  mode = p.mode;
  changed = false;
}
step (save success) p = save_round success p

unfoldable pub run : List Event → Panel → Panel
unfolding step
run [] p = p
run (e ∷ es) p = run es (step e p)
