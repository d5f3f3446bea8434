-- ===== src/Persist/Store.antt =====
-- persist.rs, `ConfigStore` over the flash map, and the start of bin/main.rs, which loads the configuration.
use mathlib.Core.Bool.{Bool, true}
use ns_pixels.Prelude.{ℕ, ◌≡◌, refl, ap, ◌∙◌, Option, none, some, List, [], ◌∷◌, arith, take}
use ns_pixels.Extern.FlashMap.{coded, found, absent, failed, answer, FlashMap}
use ns_pixels.Display.{DisplayConfig, default_config}
use ns_pixels.Persist.{serialize_into, deserialize_from, deserialize_from-serialize_into}

abbrev pub key_display_config : ℕ
key_display_config = 0

abbrev pub scratch_len : ℕ
scratch_len = 16

module _ (flash : FlashMap) where
  open flash use {S}

  -- `ConfigStore::load`; an error is logged and gives none.
  unfoldable pub load : S → Option DisplayConfig
  load s = elim (flash.fetch_item key_display_config deserialize_from scratch_len s) [
    | found cfg ↦ some cfg
    | absent ↦ none
    | failed ↦ none
  ]

  -- `ConfigStore::save`, which says whether the write succeeded.
  unfoldable pub save : DisplayConfig → S → S × Bool
  save cfg s = flash.store_item key_display_config (serialize_into cfg) scratch_len s

  -- The start of the firmware: the cell has the default until a configuration is loaded.
  unfoldable pub config_at_start : S → DisplayConfig
  unfolding load
  config_at_start s = elim (load s) [ none ↦ default_config | some cfg ↦ cfg ]

  -- The two bytes alone are read as the whole buffer is.
  take-serialize_into :
      (cfg : DisplayConfig) (buffer out : List ℕ) (n : ℕ)
      → serialize_into cfg buffer ≡ coded out n
      → deserialize_from (take n out) ≡ coded cfg n
  unfolding serialize_into deserialize_from
  take-serialize_into cfg [] out n e = absurd (ground arith)
  take-serialize_into cfg (a ∷ []) out n e = absurd (ground arith)
  take-serialize_into cfg (a ∷ b ∷ bs) out n e =
      ground (arith, (deserialize_from-serialize_into cfg (a ∷ b ∷ []) _ 2 refl).0)

  -- When a save succeeds, the configuration is loaded from then on, and the firmware starts with it.
  pub config_at_start-save :
      (cfg : DisplayConfig) (s : S)
      → (save cfg s).1 ≡ true
      → (load (save cfg s).0 ≡ some cfg) × (config_at_start (save cfg s).0 ≡ cfg)
  unfolding save load config_at_start
  config_at_start-save cfg s ok =
      let (buffer, out, n, wrote, read) =
        flash.fetched_stored key_display_config (serialize_into cfg) deserialize_from scratch_len s
          ok in
      let back = read ∙ ap answer (take-serialize_into cfg buffer out n wrote) in
      (ground (arith, back), ground (arith, back))
