-- ===== src/Prelude/Masks.antt =====
-- Masks of a number of bits: they are known by their bits, and unions stay within the same number.
use Prim.Native.Nat.{ℕ, zero, suc, ◌/◌, ◌%◌, ◌≤◌, ◌<◌, bit_or}
use mathlib.Core.Path.{◌≡◌, refl}
use native.Mathlib.Omega.{arith}
use ns_pixels.Prelude.Bits.{bit, bit_or_step, weight}

pub bit_or-lt_weight : (n a b : ℕ) → a < weight n → b < weight n → bit_or a b < weight n
bit_or-lt_weight zero zero zero h k = omega arith
bit_or-lt_weight zero zero (suc b) h k = absurd (omega arith)
bit_or-lt_weight zero (suc a) b h k = absurd (omega arith)
bit_or-lt_weight (suc n) a b h k =
    omega (arith, bit_or_step a b, bit_or-lt_weight n (a / 2) (b / 2) (omega arith) (omega arith))

pub le-bit_or : (n a b : ℕ) → a < weight n → a ≤ bit_or a b
le-bit_or zero a b h = omega arith
le-bit_or (suc n) a b h = omega (arith, bit_or_step a b, le-bit_or n (a / 2) (b / 2) (omega arith))

pub bits_equal : (n a b : ℕ) → a < weight n → b < weight n → ((i : ℕ) → bit i a ≡ bit i b) → a ≡ b
bits_equal zero a b h k e = omega arith
bits_equal (suc n) a b h k e =
    omega (arith, e 0, bits_equal n (a / 2) (b / 2) (omega arith) (omega arith) (λ i. e (suc i)))

pub some_bit : (n a : ℕ) → a < weight n → 0 < a → (i : ℕ) × (bit i a ≡ 1)
some_bit zero a h p = absurd (omega arith)
some_bit (suc n) a h p = lowest (a % 2) refl (λ q. some_bit n (a / 2) (omega arith) q)
  where
    lowest :
        (low : ℕ)
        → a % 2 ≡ low
        → (0 < a / 2 → (i : ℕ) × (bit i (a / 2) ≡ 1))
        → (i : ℕ) × (bit i a ≡ 1)
    lowest zero e rest = let (i, has) = rest (omega arith) in (suc i, has)
    lowest (suc low) e rest = (0, omega arith)
