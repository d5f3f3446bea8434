-- ===== src/Display/Turns.antt =====
-- In the per-cluster mode each bit of a pixel has its turn.
use mathlib.Core.Bool.{Bool, true, ◌&&◌, ◌||◌, not}
use ns_pixels.Prelude.{
  ℕ, zero, suc, ◌+◌, ◌*◌, ◌/◌, ◌%◌, ◌^◌, ◌<◌, ◌≤◌, ◌≡◌, refl, arith, ◌==◌, ltb, Bool-cases, inl,
  inr, ap, ◌∙◌,
}
use native.Mathlib.Nat.{add-mul-mod_self_right, mod-eq_of_lt, mul-le-mul_right}
use ns_pixels.Prelude.Bits.{bit}
use ns_pixels.Display.{ColorMode}
use ns_pixels.Display.Colors.{slot_ms, fade_ms, color_for}
use ns_pixels.Display.Cluster.{
  ones, count_ones, nth_set_bit, color_at_phase, color_among, cluster_color,
}

-- A test on all numbers below a bound.
abbrev all : ℕ → (ℕ → Bool) → Bool
all zero p = true
all (suc n) p = p n && all n p

abbrev bit_found : ℕ → ℕ → Bool
bit_found mask i =
    not (bit i mask == 1)
    || ((nth_set_bit mask (ones i mask) == 2 ^ i)
        && ltb (ones i mask) (count_ones mask)
        && (not (count_ones mask == 1) || (mask == 2 ^ i)))

bytes_checked : all 256 (λ mask. all 8 (bit_found mask)) ≡ true
unfolding nth_set_bit count_ones
bytes_checked = refl

all-below : (n : ℕ) (p : ℕ → Bool) (k : ℕ) → all n p ≡ true → k < n → p k ≡ true
all-below zero p k e h = absurd (omega arith)
all-below (suc n) p k e h = elim (Bool-cases (k == n)) [
  | inl same ↦ ground (arith, e, same)
  | inr other ↦ ground (arith, e, other, all-below n p k)
]

read_test :
    (x y z u v w : ℕ)
    → (not (x == 1) || ((y == z) && ltb u v && (not (v == 1) || (w == z)))) ≡ true
    → x ≡ 1
    → (y ≡ z) × (u < v) × (v ≡ 1 → w ≡ z)
read_test x y z u v w t e = (ground arith, ground arith, λ one. ground arith)

-- The set bit is found by counting those below it, and is the whole mask when there is one only.
pub bit-nth_set_bit :
    (mask i : ℕ)
    → mask < 256
    → i < 8
    → bit i mask ≡ 1
    → (nth_set_bit mask (ones i mask) ≡ 2 ^ i)
      × (ones i mask < count_ones mask)
      × (count_ones mask ≡ 1 → mask ≡ 2 ^ i)
bit-nth_set_bit mask i h l e =
    read_test (bit i mask) (nth_set_bit mask (ones i mask)) (2 ^ i) (ones i mask) (count_ones mask)
      mask
      (all-below 8 (bit_found mask) i
        (all-below 256 (λ m. all 8 (bit_found m)) mask bytes_checked h) l)
      e

count_ones-le : (mask : ℕ) → count_ones mask ≤ 8
unfolding count_ones
count_ones-le mask = omega arith

-- A moment of the slot `k` of `n`, `d` milliseconds into it, in any cycle.
abbrev pub moment : ℕ → ℕ → ℕ → ℕ → ℕ
moment n cycle k d = (cycle * n + k) * slot_ms + d

pub moment_phase :
    (n cycle k d : ℕ) → k < n → d < slot_ms → moment n cycle k d % (n * slot_ms) ≡ k * slot_ms + d
moment_phase n cycle k d l h =
    ap (λ (t : ℕ). t % (n * slot_ms)) {x = moment n cycle k d}
      {y = k * slot_ms + d + cycle * (n * slot_ms)} (omega arith)
    ∙ add-mul-mod_self_right (k * slot_ms + d) cycle (n * slot_ms)
    ∙ mod-eq_of_lt (omega (arith, mul-le-mul_right slot_ms l))

color_at_phase_steady :
    (n bits k phase d : ℕ) (axis : ColorMode)
    → phase ≡ k * slot_ms + d
    → k < 8
    → d + fade_ms ≤ slot_ms
    → color_at_phase n bits phase axis ≡ color_for axis (nth_set_bit bits k)
unfolding color_at_phase
color_at_phase_steady n bits k phase d axis e below steady = ground (
  arith,
  ap (λ (t : ℕ). color_for axis (nth_set_bit bits t)) {x = phase / slot_ms % 2 ^ 32} {y = k}
      (omega arith),
)

color_among_turns :
    (n bits k m cycle d : ℕ) (axis : ColorMode)
    → n ≤ 8
    → k < n
    → nth_set_bit bits k ≡ m
    → (n ≡ 1 → bits ≡ m)
    → d + fade_ms ≤ slot_ms
    → color_among n bits (moment n cycle k d) axis ≡ color_for axis m
unfolding color_among
color_among_turns n bits k m cycle d axis few below found alone steady =
    let phase = moment_phase n cycle k d below (omega arith) in
    let shown =
      color_at_phase_steady n bits k (moment n cycle k d % (n * slot_ms)) d axis phase (omega arith)
        steady
      ∙ ap (color_for axis) found in
    elim (Bool-cases (n == 1)) [
      | inl one ↦ ground (arith, one, ap (color_for axis) (alone (ground arith)))
      | inr several ↦ ground (arith, several, shown)
    ]

-- A pixel's type or service, the bit of weight `2 ^ i` in its mask, has its turn in each cycle: in the slot that
-- the set bits below it count, until the fade begins, the pixel has the colour of it. A pixel with one bit has
-- the colour of it then, too.
pub cluster_color_turns :
    (bits i cycle d : ℕ) (axis : ColorMode)
    → bits < 256
    → i < 8
    → bit i bits ≡ 1
    → d + fade_ms ≤ slot_ms
    → cluster_color bits (moment (count_ones bits) cycle (ones i bits) d) axis
      ≡ color_for axis (2 ^ i)
unfolding cluster_color
cluster_color_turns bits i cycle d axis h l e steady =
    let (found, below, alone) = bit-nth_set_bit bits i h l e in
    color_among_turns (count_ones bits) bits (ones i bits) (2 ^ i) cycle d axis (count_ones-le bits)
      below found alone steady
