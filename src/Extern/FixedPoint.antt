-- ===== src/Extern/FixedPoint.antt =====
-- The assumptions on f32 can be met: numbers with six decimals, and one value that is no number.
use mathlib.Core.Bool.{Bool, true, false}
use ns_pixels.Prelude.{ℕ, suc, ◌-◌, ◌*◌, ◌/◌, ◌^◌, ◌≤◌, ◌≡◌, refl, min, Option, none, some, arith}
use ns_pixels.Prelude.Int.{ℤ, pos, negsuc, pos_part, neg_part, sub_ℕ, ◌+ℤ◌, ◌-ℤ◌, ◌*ℤ◌, ltb_ℤ}
use ns_pixels.Extern.Floats.{Floats}

abbrev pub Fixed : Type 0
Fixed = Option ℤ

abbrev pub one : ℕ
one = 1_000_000

-- Division of the magnitude, towards zero.
unfoldable pub shrink : ℕ → ℤ → ℤ
shrink n a = sub_ℕ (pos_part a / n) (neg_part a / n)

unfoldable pub lift : (ℤ → ℤ → ℤ) → Fixed → Fixed → Fixed
lift f none b = none
lift f (some a) none = none
lift f (some a) (some b) = some (f a b)

unfoldable pub div_ℤ : ℤ → ℤ → ℤ
div_ℤ a (pos n) = shrink n (a *ℤ pos one)
div_ℤ a (negsuc n) = pos 0 -ℤ shrink (suc n) (a *ℤ pos one)

unfoldable pub is_nan : Fixed → Bool
is_nan none = true
is_nan (some _) = false

unfoldable pub as_u8 : Fixed → ℕ
as_u8 none = 0
as_u8 (some a) = min 255 (pos_part a / one)

pub as_u8_bounded : (v : Fixed) → as_u8 v ≤ 255
unfolding as_u8
as_u8_bounded none = omega arith
as_u8_bounded (some a) = omega arith

unfoldable pub le : Fixed → Fixed → Bool
le none b = false
le (some a) none = false
le (some a) (some b) = elim (ltb_ℤ b a) [ true ↦ false | false ↦ true ]

pub lift_nan_left : (f : ℤ → ℤ → ℤ) (a b : Fixed) → is_nan a ≡ true → is_nan (lift f a b) ≡ true
unfolding lift is_nan
lift_nan_left f none b e = e
lift_nan_left f (some a) b e = cc

pub lift_nan_right : (f : ℤ → ℤ → ℤ) (a b : Fixed) → is_nan b ≡ true → is_nan (lift f a b) ≡ true
unfolding lift is_nan
lift_nan_right f none b e = refl
lift_nan_right f (some a) none e = e
lift_nan_right f (some a) (some b) e = cc

abbrev pub add : Fixed → Fixed → Fixed
add = lift ◌+ℤ◌

abbrev pub sub : Fixed → Fixed → Fixed
sub = lift ◌-ℤ◌

abbrev pub scaled : ℤ → ℤ → ℤ
scaled a b = shrink one (a *ℤ b)

abbrev pub mul : Fixed → Fixed → Fixed
mul = lift scaled

abbrev pub div : Fixed → Fixed → Fixed
div = lift div_ℤ

-- Six decimals at most.
abbrev pub literal : ℕ → ℕ → Fixed
literal n k = some (pos (n * 10 ^ (6 - k)))

abbrev pub fixed_point : Floats
fixed_point = record {
  F32 = Fixed;
  literal = literal;
  neg = λ a. sub (some (pos 0)) a;
  add = add;
  sub = sub;
  mul = mul;
  div = div;
  is_nan = is_nan;
  le = le;
  ge = λ a b. le b a;
  as_u8 = as_u8;
  as_u8_bounded = as_u8_bounded;
  add_nan_left = lift_nan_left ◌+ℤ◌;
  add_nan_right = lift_nan_right ◌+ℤ◌;
  sub_nan_left = lift_nan_left ◌-ℤ◌;
  sub_nan_right = lift_nan_right ◌-ℤ◌;
  mul_nan_left = lift_nan_left scaled;
  mul_nan_right = lift_nan_right scaled;
  div_nan_left = lift_nan_left div_ℤ;
}
