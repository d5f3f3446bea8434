-- ===== src/Snapshot/Seen.antt =====
-- Rows against the entries of a list of rows: some row has a bit exactly when some entry shows it.
use mathlib.Core.Bool.{Bool, true, false, ◌&&◌}
use ns_pixels.Prelude.{
  ℕ, ◌≤◌, ◌≡◌, refl, inl, inr, Option, none, some, List, [], ◌∷◌, arith, ◌==◌, length, Bool-cases,
  Option-cases,
}
use ns_pixels.Prelude.Bits.{bit}
use ns_pixels.Prelude.Assoc.{lookup, Distinct, lookup-tail, lookup-head}
use ns_pixels.Projection.{PixelCoord, as_u16}
use ns_pixels.MapMode.{MapMode, canvas_to_display}
use ns_pixels.Train.{TrainState, PixelData}
use ns_pixels.Snapshot.{visible, entry_of}
use ns_pixels.Snapshot.Content.{any, shows}

-- Some row satisfies `p`.
abbrev pub SomeRow : (TrainState → Bool) → (ℕ → Option TrainState) → Type 0
SomeRow p row = (j : ℕ) × (s : TrainState) × (row j ≡ some s) × (p s ≡ true)

pub any-SomeRow :
    (p : TrainState → Bool) (es : List (ℕ × TrainState))
    → Distinct es
    → any (λ e. p e.1) es ≡ true
    → SomeRow p (λ j. lookup j es)
any-SomeRow p [] d e = cc
any-SomeRow p ((j, s) ∷ es) d e = elim (Bool-cases (p s)) [
  | inl holds ↦ (j, s, lookup-head j s es, holds)
  | inr fails ↦
      let (k, w, l, holds) = any-SomeRow p es d.1 (ground arith) in
      (k, w, lookup-tail k j w s es d.0 l, holds)
]

pub SomeRow-any :
    (p : TrainState → Bool) (j : ℕ) (s : TrainState) (es : List (ℕ × TrainState))
    → lookup j es ≡ some s
    → p s ≡ true
    → any (λ e. p e.1) es ≡ true
SomeRow-any p j s [] l holds = cc
SomeRow-any p j s ((k, w) ∷ es) l holds = ground (arith, SomeRow-any p j s es)

-- The row is shown at the key, with bit `i` of `mask`.
abbrev pub row_shows : MapMode → (TrainState → ℕ) → ℕ → ℕ → TrainState → Bool
row_shows mode mask k i s = elim (canvas_to_display s.pixel mode) [
  | none ↦ false
  | some d ↦ as_u16 d == k && bit i (mask s) == 1
]

pub any-visible :
    (f : PixelData → ℕ) (mask : TrainState → ℕ)
    → ((s : TrainState) (d : PixelCoord) → f (entry_of s d) ≡ mask s)
    → (mode : MapMode) (k i : ℕ) (es : List (ℕ × TrainState))
    → any (shows f k i) (visible mode es) ≡ any (λ e. row_shows mode mask k i e.1) es
unfolding visible
any-visible f mask agree mode k i [] = refl
any-visible f mask agree mode k i ((j, s) ∷ es) =
    elim (Option-cases (canvas_to_display s.pixel mode)) [
      | inl hidden ↦ ground (arith, any-visible f mask agree mode k i es)
      | inr (d, shown) ↦ ground (arith, any-visible f mask agree mode k i es, agree s d)
    ]

pub length-visible :
    (mode : MapMode) (es : List (ℕ × TrainState)) → length (visible mode es) ≤ length es
unfolding visible
length-visible mode [] = omega arith
length-visible mode ((j, s) ∷ es) = ground (arith, length-visible mode es)
