-- ===== src/Witnesses/Persist.antt =====
-- The theorem on the stored configuration, with blank flash.
use ns_pixels.Prelude.{ℕ, ◌≡◌, refl, none, some}
use ns_pixels.Extern.FlashCells.{flash_cells}
use ns_pixels.Display.{DisplayConfig, global_pulse, by_service}
use ns_pixels.Persist.{serialize_into, viz_to_u8, col_to_u8}
use ns_pixels.Persist.Store.{load, save, config_at_start, config_at_start-save}

abbrev chosen : DisplayConfig
chosen = record { viz = global_pulse; col = by_service }

config_at_start-save_example :
    (load flash_cells (save flash_cells chosen (λ (k : ℕ). none)).0 ≡ some chosen)
    × (config_at_start flash_cells (save flash_cells chosen (λ (k : ℕ). none)).0 ≡ chosen)
unfolding save serialize_into viz_to_u8 col_to_u8
config_at_start-save_example = config_at_start-save flash_cells chosen (λ (k : ℕ). none) refl
