-- ===== src/Prelude/Decimal.antt =====
-- Numbers in decimal, as `Display` of u32 prints them, and read back.
use mathlib.Core.Bool.{Bool, true, false}
use ns_pixels.Prelude.{
  ℕ, zero, suc, ◌+◌, ◌-◌, ◌*◌, ◌/◌, ◌%◌, ◌^◌, ◌≤◌, ◌<◌, ◌≡◌, refl, ◌∙◌, some, List, [], ◌∷◌, ◌++◌,
  if◌then◌else◌, ltb, length, length-append, arith, Bool-cases, inl, inr,
}
use ns_pixels.Prelude.Text.{parse_u32, from_digits}

-- The decimal digits of a u32, of which there are ten at most.
abbrev decimal : ℕ → ℕ → List ℕ
decimal zero n = []
decimal (suc k) n = if ltb n 10 then (b'0' + n) ∷ [] else decimal k (n / 10) ++ (b'0' + n % 10) ∷ []

unfoldable pub u32_text : ℕ → List ℕ
u32_text n = decimal 10 n

length-decimal : (k n : ℕ) → length (decimal k n) ≤ k
length-decimal zero n = omega arith
length-decimal (suc k) n =
    ground
      (arith, length-append (decimal k (n / 10)) ((b'0' + n % 10) ∷ []), length-decimal k (n / 10))

pub length-u32_text : (n : ℕ) → length (u32_text n) ≤ 10
unfolding u32_text
length-u32_text n = length-decimal 10 n

abbrev pub Digits : List ℕ → Type 0
Digits [] = Unit
Digits (c ∷ s) = (b'0' ≤ c) × (c ≤ b'9') × Digits s

Digits-append : (s t : List ℕ) → Digits s → Digits t → Digits (s ++ t)
Digits-append [] t p q = q
Digits-append (c ∷ s) t p q = (p.0, p.1, Digits-append s t p.2 q)

Digits-if :
    (b : Bool) (s t : List ℕ) → (b ≡ true → Digits s) → Digits t → Digits (if b then s else t)
Digits-if true s t p q = p refl
Digits-if false s t p q = q

decimal-Digits : (k n : ℕ) → Digits (decimal k n)
decimal-Digits zero n = tt
decimal-Digits (suc k) n =
    Digits-if (ltb n 10) _ _ (λ e. (omega arith, ground arith, tt))
      (Digits-append (decimal k (n / 10)) _ (decimal-Digits k (n / 10))
        (omega arith, omega arith, tt))

pub u32_text-Digits : (n : ℕ) → Digits (u32_text n)
unfolding u32_text
u32_text-Digits n = decimal-Digits 10 n

from_digits-append :
    (s t : List ℕ) (m n : ℕ) → from_digits s m ≡ some n → from_digits (s ++ t) m ≡ from_digits t n
unfolding from_digits
from_digits-append [] t m n e = ground arith
from_digits-append (c ∷ s) t m n e = ground (arith, from_digits-append s t (m * 10 + (c - b'0')) n)

abbrev pow10 : ℕ → ℕ
pow10 zero = 1
pow10 (suc k) = pow10 k * 10

from_digits-decimal :
    (k n : ℕ) → n < pow10 k → n < 2 ^ 32 → 0 < k → from_digits (decimal k n) 0 ≡ some n
unfolding from_digits
from_digits-decimal zero n b h p = absurd (omega arith)
from_digits-decimal (suc zero) n b h p = ground arith
from_digits-decimal (suc (suc k)) n b h p = elim (Bool-cases (ltb n 10)) [
  | inl small ↦ ground arith
  | inr large ↦
      let high = from_digits-decimal (suc k) (n / 10) (omega arith) (omega arith) (omega arith) in
      let last =
        from_digits-append (decimal (suc k) (n / 10)) ((b'0' + n % 10) ∷ []) 0 (n / 10) high in
      ground (arith, last)
]

parse_u32-Digits : (c : ℕ) (s : List ℕ) → Digits (c ∷ s) → parse_u32 (c ∷ s) ≡ from_digits (c ∷ s) 0
unfolding parse_u32
parse_u32-Digits c [] p = refl
parse_u32-Digits c (d ∷ s) p = ground (arith, p.0)

parse_u32_of :
    (s : List ℕ) (n : ℕ) → Digits s → 0 < length s → from_digits s 0 ≡ some n → parse_u32 s ≡ some n
parse_u32_of [] n p l e = absurd (omega arith)
parse_u32_of (c ∷ s) n p l e = parse_u32-Digits c s p ∙ e

pub u32_text_pos : (n : ℕ) → 0 < length (u32_text n)
unfolding u32_text
u32_text_pos n = ground (arith, length-append (decimal 9 (n / 10)) ((b'0' + n % 10) ∷ []))

from_digits-u32_text : (n : ℕ) → n < 2 ^ 32 → from_digits (u32_text n) 0 ≡ some n
unfolding u32_text
from_digits-u32_text n h = from_digits-decimal 10 n (omega arith) h (omega arith)

pub parse_u32-u32_text : (n : ℕ) → n < 2 ^ 32 → parse_u32 (u32_text n) ≡ some n
parse_u32-u32_text n h =
    parse_u32_of (u32_text n) n (u32_text-Digits n) (u32_text_pos n) (from_digits-u32_text n h)
