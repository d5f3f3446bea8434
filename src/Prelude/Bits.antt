-- ===== src/Prelude/Bits.antt =====
-- Bits of a mask: `bit i n` is the digit with weight 2^i. The laws of `bit_or` and `bit_and` are
-- read off digit by digit, so masks need no law of their own.
use Prim.Native.Nat.{min, max, digits, bit_and-bitwise, bit_or-bitwise}
use Prim.Native.Nat.{ℕ, zero, suc, ◌+◌, ◌-◌, ◌*◌, ◌/◌, ◌%◌, ◌≤◌, ◌<◌, bit_and, bit_or}
use mathlib.Core.Path.{◌≡◌, refl, ap, ◌∙◌}
use native.Mathlib.Omega.{arith}

-- `digits` counts its rounds down. A round past the last digit of the first number changes nothing.
module _ (rest : ℕ → ℕ) (op : ℕ → ℕ → ℕ) where
  digits_spare_round :
      (rounds a b : ℕ) → a ≤ rounds → digits rest op (suc rounds) a b ≡ digits rest op rounds a b
  digits_spare_round rounds zero b few = digits_done rounds
    where
      digits_done : (n : ℕ) → rest b ≡ digits rest op n 0 b
      digits_done zero = refl
      digits_done (suc n) = refl
  digits_spare_round zero (suc a) b few = elim few [ ]
  digits_spare_round (suc rounds) (suc a) b few =
      ap (λ (high : ℕ). high * 2 + op (suc a % 2) (b % 2))
        (digits_spare_round rounds (suc a / 2) (b / 2) (omega arith))

  digits_spare :
      (spare rounds total a b : ℕ)
      → spare + rounds ≡ total
      → a ≤ rounds
      → digits rest op total a b ≡ digits rest op rounds a b
  digits_spare zero rounds total a b e few =
      ap (λ (n : ℕ). digits rest op n a b) {x = total} {y = rounds} (omega arith)
  digits_spare (suc spare) rounds zero a b e few = absurd (omega arith)
  digits_spare (suc spare) rounds (suc total) a b e few =
      digits_spare_round total a b (omega arith)
      ∙ digits_spare spare rounds total a b (omega arith) few

  -- The rounds left after the lowest digit of `a` are enough for the half of `a`.
  high_digits :
      (a b : ℕ) → digits rest op a (suc a / 2) b ≡ digits rest op (suc a / 2) (suc a / 2) b
  high_digits a b =
      digits_spare (a - suc a / 2) (suc a / 2) a (suc a / 2) b (omega arith) (omega arith)

-- So a union or an intersection is that of the halves, and a lowest digit.
pub bit_or_step : (a b : ℕ) → bit_or a b ≡ bit_or (a / 2) (b / 2) * 2 + max (a % 2) (b % 2)
bit_or_step zero b = omega (arith, bit_or-bitwise 0 b, bit_or-bitwise 0 (b / 2))
bit_or_step (suc a) b = omega (
  arith,
  bit_or-bitwise (suc a) b,
  bit_or-bitwise (suc a / 2) (b / 2),
  high_digits (λ d. d) max a (b / 2),
)

pub bit_and_step : (a b : ℕ) → bit_and a b ≡ bit_and (a / 2) (b / 2) * 2 + min (a % 2) (b % 2)
bit_and_step zero b = omega (arith, bit_and-bitwise 0 b, bit_and-bitwise 0 (b / 2))
bit_and_step (suc a) b = omega (
  arith,
  bit_and-bitwise (suc a) b,
  bit_and-bitwise (suc a / 2) (b / 2),
  high_digits (λ d. 0) min a (b / 2),
)

abbrev pub bit : ℕ → ℕ → ℕ
bit zero n = n % 2
bit (suc i) n = bit i (n / 2)

pub bit-zero : (i : ℕ) → bit i 0 ≡ 0
bit-zero zero = refl
bit-zero (suc i) = bit-zero i

-- Each bit of a union of masks is set when one of them has it.
pub bit-bit_or : (i a b : ℕ) → bit i (bit_or a b) ≡ max (bit i a) (bit i b)
bit-bit_or zero a b = omega (arith, bit_or_step a b)
bit-bit_or (suc i) a b = rw (half-bit_or a b) (bit-bit_or i (a / 2) (b / 2))
  where
    half-bit_or : (a b : ℕ) → bit_or a b / 2 ≡ bit_or (a / 2) (b / 2)
    half-bit_or a b = omega (arith, bit_or_step a b)

pub bit-le-one : (i n : ℕ) → bit i n ≤ 1
bit-le-one zero n = omega arith
bit-le-one (suc i) n = bit-le-one i (n / 2)

no_more_digits : (n a : ℕ) → a ≤ n → bit_or a 0 ≡ a
no_more_digits n zero h = refl
no_more_digits zero (suc a) h = absurd (omega arith)
no_more_digits (suc n) (suc a) h =
    omega (arith, bit_or_step (suc a) 0, no_more_digits n (suc a / 2) (omega arith))

pub no_common_digit : (n a : ℕ) → a ≤ n → bit_and a 0 ≡ 0
no_common_digit n zero h = refl
no_common_digit zero (suc a) h = absurd (omega arith)
no_common_digit (suc n) (suc a) h =
    omega (arith, bit_and_step (suc a) 0, no_common_digit n (suc a / 2) (omega arith))

-- A byte beside a byte: `(q << 8) | r` is a sum, and `& 0xff` takes the low byte of it. Each lemma
-- peels one digit.
abbrev pub weight : ℕ → ℕ
weight zero = 1
weight (suc k) = weight k * 2

bit_or_field : (k q r : ℕ) → r < weight k → bit_or (q * weight k) r ≡ q * weight k + r
bit_or_field zero q r h = ground (arith, no_more_digits q q)
bit_or_field (suc k) q r h = omega (
  arith,
  bit_or_step (q * weight (suc k)) r,
  ap (λ (t : ℕ). bit_or t (r / 2)) {x = q * weight (suc k) / 2} {y = q * weight k} (omega arith),
  bit_or_field k q (r / 2) (omega arith),
)

bit_and_1 : (a : ℕ) → bit_and a 1 ≡ a % 2
bit_and_1 a = omega (arith, bit_and_step a 1, no_common_digit (a / 2) (a / 2))

bit_and_3 : (a : ℕ) → bit_and a 3 ≡ a % 4
bit_and_3 a = omega (arith, bit_and_step a 3, bit_and_1 (a / 2))

pub bit_and_7 : (a : ℕ) → bit_and a 7 ≡ a % 8
bit_and_7 a = omega (arith, bit_and_step a 7, bit_and_3 (a / 2))

bit_and_15 : (a : ℕ) → bit_and a 15 ≡ a % 16
bit_and_15 a = omega (arith, bit_and_step a 15, bit_and_7 (a / 2))

bit_and_31 : (a : ℕ) → bit_and a 31 ≡ a % 32
bit_and_31 a = omega (arith, bit_and_step a 31, bit_and_15 (a / 2))

bit_and_63 : (a : ℕ) → bit_and a 63 ≡ a % 64
bit_and_63 a = omega (arith, bit_and_step a 63, bit_and_31 (a / 2))

bit_and_127 : (a : ℕ) → bit_and a 127 ≡ a % 128
bit_and_127 a = omega (arith, bit_and_step a 127, bit_and_63 (a / 2))

pub bit_or_byte : (q r : ℕ) → r < 256 → bit_or (q * 256) r ≡ q * 256 + r
bit_or_byte q r h = bit_or_field 8 q r h

pub bit_and_byte : (a : ℕ) → bit_and a 255 ≡ a % 256
bit_and_byte a = omega (arith, bit_and_step a 255, bit_and_127 (a / 2))

-- One bit by itself.
pub bit_and_2 : (a : ℕ) → bit_and a 2 ≡ a / 2 % 2 * 2
bit_and_2 a = omega (arith, bit_and_step a 2, bit_and_1 (a / 2))

-- `& 253` clears the bit of weight 2, `| 2` sets it.
pub bit_and_253-bit_and_2 : (a : ℕ) → bit_and (bit_and a 253) 2 ≡ 0
bit_and_253-bit_and_2 a =
    omega (arith, bit_and_2 (bit_and a 253), bit_and_step a 253, bit_and_step (a / 2) 126)

pub bit_or_2-bit_and_2 : (a : ℕ) → bit_and (bit_or a 2) 2 ≡ 2
bit_or_2-bit_and_2 a = omega (arith, bit_and_2 (bit_or a 2), bit_or_step a 2, bit_or_step (a / 2) 1)
