-- ===== src/Prelude/Assoc.antt =====
-- Association lists with native keys, in terms of which the laws of the map of trains are stated.
use Prim.Native.Nat.{ℕ}
use mathlib.Core.Path.{◌≡◌, subst}
use mathlib.Core.List.{List, [], ◌∷◌}
use mathlib.Core.Option.{Option, none, some}
use mathlib.Core.Logic.{inl, inr}
use native.Mathlib.Omega.{arith}
use ns_pixels.Prelude.Tests.{◌==◌, if◌then◌else◌, ==_iff, Bool-cases}

module _ {ℓ} {V : Type ℓ} where
  abbrev pub lookup : ℕ → List (ℕ × V) → Option V
  lookup k [] = none
  lookup k ((j, v) ∷ m) = if j == k then some v else lookup k m

  -- No key stands twice.
  abbrev pub Distinct : List (ℕ × V) → Type ℓ
  Distinct [] = Unit
  Distinct ((k, v) ∷ m) = (lookup k m ≡ none) × Distinct m

module _ {ℓ} {V : Type ℓ} where
  pub lookup-tail :
      (k j : ℕ) (v w : V) (m : List (ℕ × V))
      → lookup j m ≡ none
      → lookup k m ≡ some v
      → lookup k ((j, w) ∷ m) ≡ some v
  lookup-tail k j v w m absent e = elim (Bool-cases (j == k)) [
    | inl same ↦ cc (subst (λ i. lookup i m ≡ none) ((==_iff j k).0 same) absent)
    | inr other ↦ rw other e
  ]

  pub lookup-head : (k : ℕ) (v : V) (m : List (ℕ × V)) → lookup k ((k, v) ∷ m) ≡ some v
  lookup-head k v m = ground arith

-- A property of every pair, from what holds of every key.
abbrev pub AllEntries {ℓ κ} : {V : Type ℓ} → (ℕ → V → Type κ) → List (ℕ × V) → Type κ
AllEntries P [] = Unit
AllEntries P ((k, v) ∷ m) = P k v × AllEntries P m

pub AllEntries-lookup {ℓ κ} :
    {V : Type ℓ} (P : ℕ → V → Type κ) (m : List (ℕ × V))
    → Distinct m
    → ((k : ℕ) (v : V) → lookup k m ≡ some v → P k v)
    → AllEntries P m
AllEntries-lookup P [] d h = tt
AllEntries-lookup P ((k, v) ∷ m) d h = (
  h k v (lookup-head k v m),
  AllEntries-lookup P m d.1 (λ j w e. h j w (lookup-tail j k w v m d.0 e)),
)
