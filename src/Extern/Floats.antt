-- ===== src/Extern/Floats.antt =====
-- f32 arithmetic: the operations that the projection uses, with the facts of IEEE 754 and of the
-- saturating cast that it relies on.
use ns_pixels.Prelude.{ℕ, ◌≤◌, ◌≡◌, Bool, true}

pub record Floats : Type 1 where
  pub F32 : Type 0
  -- a decimal literal: the digits, and how many of them stand behind the point
  pub literal : ℕ → ℕ → F32
  pub neg : F32 → F32
  pub add : F32 → F32 → F32
  pub sub : F32 → F32 → F32
  pub mul : F32 → F32 → F32
  pub div : F32 → F32 → F32
  pub is_nan : F32 → Bool
  pub le : F32 → F32 → Bool
  pub ge : F32 → F32 → Bool
  -- `v as u8`
  pub as_u8 : F32 → ℕ
  pub as_u8_bounded : (v : F32) → as_u8 v ≤ 255
  -- arithmetic on a NaN gives a NaN
  pub add_nan_left : (a b : F32) → is_nan a ≡ true → is_nan (add a b) ≡ true
  pub add_nan_right : (a b : F32) → is_nan b ≡ true → is_nan (add a b) ≡ true
  pub sub_nan_left : (a b : F32) → is_nan a ≡ true → is_nan (sub a b) ≡ true
  pub sub_nan_right : (a b : F32) → is_nan b ≡ true → is_nan (sub a b) ≡ true
  pub mul_nan_left : (a b : F32) → is_nan a ≡ true → is_nan (mul a b) ≡ true
  pub mul_nan_right : (a b : F32) → is_nan b ≡ true → is_nan (mul a b) ≡ true
  pub div_nan_left : (a b : F32) → is_nan a ≡ true → is_nan (div a b) ≡ true
