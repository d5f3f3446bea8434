-- ===== src/Persist.antt =====
-- persist.rs: the two bytes of a stored configuration.
pub mod Store
use ns_pixels.Prelude.{
  ℕ, ◌≡◌, refl, Option, none, some, List, [], ◌∷◌, arith, if◌then◌else◌, ltb, ◌==◌, length, get_or,
}
use ns_pixels.Extern.FlashMap.{Coded, coded, buffer_too_small, invalid_format}
use ns_pixels.Display.{
  VizMode, per_cluster, global_pulse, ColorMode, by_type, by_service, DisplayConfig,
}

unfoldable pub viz_to_u8 : VizMode → ℕ
viz_to_u8 per_cluster = 0
viz_to_u8 global_pulse = 1

unfoldable pub viz_from_u8 : ℕ → Option VizMode
viz_from_u8 b = if b == 0 then some per_cluster else if b == 1 then some global_pulse else none

unfoldable pub col_to_u8 : ColorMode → ℕ
col_to_u8 by_type = 0
col_to_u8 by_service = 1

unfoldable pub col_from_u8 : ℕ → Option ColorMode
col_from_u8 b = if b == 0 then some by_type else if b == 1 then some by_service else none

-- The buffer with its first bytes written, and how many they are.
unfoldable pub serialize_into : DisplayConfig → List ℕ → Coded (List ℕ)
unfolding viz_to_u8 col_to_u8
serialize_into cfg [] = buffer_too_small
serialize_into cfg (a ∷ []) = buffer_too_small
serialize_into cfg (a ∷ b ∷ bs) = coded (viz_to_u8 cfg.viz ∷ col_to_u8 cfg.col ∷ bs) 2

unfoldable pub deserialize_from : List ℕ → Coded DisplayConfig
unfolding viz_from_u8 col_from_u8
deserialize_from buffer =
    if ltb (length buffer) 2 then buffer_too_small else elim (viz_from_u8 (get_or buffer 0 0)) [
      | none ↦ invalid_format
      | some v ↦ elim (col_from_u8 (get_or buffer 1 0)) [
        | none ↦ invalid_format
        | some c ↦ coded (record { viz = v; col = c }) 2
      ]
    ]

viz_roundtrip : (v : VizMode) → viz_from_u8 (viz_to_u8 v) ≡ some v
unfolding viz_from_u8 viz_to_u8
viz_roundtrip per_cluster = refl
viz_roundtrip global_pulse = refl

col_roundtrip : (c : ColorMode) → col_from_u8 (col_to_u8 c) ≡ some c
unfolding col_from_u8 col_to_u8
col_roundtrip by_type = refl
col_roundtrip by_service = refl

-- A configuration that was written into a buffer is read back from it.
pub deserialize_from-serialize_into :
    (cfg : DisplayConfig) (buffer out : List ℕ) (n : ℕ)
    → serialize_into cfg buffer ≡ coded out n
    → (deserialize_from out ≡ coded cfg n) × (length out ≡ length buffer)
unfolding serialize_into deserialize_from
deserialize_from-serialize_into cfg [] out n e = absurd (ground arith)
deserialize_from-serialize_into cfg (a ∷ []) out n e = absurd (ground arith)
deserialize_from-serialize_into cfg (a ∷ b ∷ bs) out n e =
    (ground (arith, viz_roundtrip cfg.viz, col_roundtrip cfg.col), ground arith)

-- Bytes that are read as a configuration are those that it is written as, so each configuration has
-- one encoding; what follows the two bytes is not looked at.
pub serialize_into-deserialize_from :
    (a b n : ℕ) (bs : List ℕ) (cfg : DisplayConfig)
    → deserialize_from (a ∷ b ∷ bs) ≡ coded cfg n
    → serialize_into cfg (a ∷ b ∷ bs) ≡ coded (a ∷ b ∷ bs) n
unfolding serialize_into deserialize_from viz_from_u8 col_from_u8 viz_to_u8 col_to_u8
serialize_into-deserialize_from a b n bs cfg e = ground arith
