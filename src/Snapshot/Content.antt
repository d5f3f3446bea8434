-- ===== src/Snapshot/Content.antt =====
-- What the snapshot shows: which trains are in which of its entries, and its order.
use mathlib.Core.Bool.{Bool, true, false, ◌&&◌, ◌||◌, Bool-set}
use mathlib.Core.List.{Perm, Permᴰ}
use mathlib.Core.Logic.{∥∥₁_elim}
use native.Mathlib.Nat.{ℕ_set}
use ns_pixels.Prelude.{
  ℕ, suc, ◌≤◌, ◌<◌, ◌≡◌, refl, ap, ◌∙◌, inl, inr, List, [], ◌∷◌, arith, ◌==◌, length, bit_or,
  Bool-cases,
}
use ns_pixels.Prelude.Bits.{bit, bit-bit_or, bit-le-one}
use ns_pixels.Extern.Sorting.{Ascending}
use ns_pixels.Train.{PixelData}
use ns_pixels.Snapshot.{absorb}
use ns_pixels.Snapshot.Runs.{merge_into, collapse}

abbrev pub any {ℓ} : {A : Type ℓ} → (A → Bool) → List A → Bool
any p [] = false
any p (x ∷ xs) = p x || any p xs

-- The entry is for the pixel with key `k`, and its mask `f` has bit `i`.
abbrev pub shows : (PixelData → ℕ) → ℕ → ℕ → PixelData → Bool
shows f k i e = e.coord_key == k && bit i (f e) == 1

abbrev pub StrictlyAscending : List PixelData → Type 0
StrictlyAscending [] = Unit
StrictlyAscending (a ∷ []) = Unit
StrictlyAscending (a ∷ b ∷ xs) = (a.coord_key < b.coord_key) × StrictlyAscending (b ∷ xs)

any-Permᴰ : (p : PixelData → Bool) {xs ys : List PixelData} → Permᴰ xs ys → any p xs ≡ any p ys
any-Permᴰ p Permᴰ.nil = refl
any-Permᴰ p (Permᴰ.cons e r) = ground (arith, any-Permᴰ p r, ap p e)
any-Permᴰ p (Permᴰ.swap e f) = ground (arith, ap p e, ap p f)
any-Permᴰ p (Permᴰ.trans q r) = any-Permᴰ p q ∙ any-Permᴰ p r

length-Permᴰ : {xs ys : List PixelData} → Permᴰ xs ys → length xs ≡ length ys
length-Permᴰ Permᴰ.nil = refl
length-Permᴰ (Permᴰ.cons e r) = ap suc (length-Permᴰ r)
length-Permᴰ (Permᴰ.swap e f) = refl
length-Permᴰ (Permᴰ.trans q r) = length-Permᴰ q ∙ length-Permᴰ r

pub any-Perm : (p : PixelData → Bool) {xs ys : List PixelData} → Perm xs ys → any p xs ≡ any p ys
any-Perm p r = ∥∥₁_elim r (Bool-set _ _) (any-Permᴰ p)

pub length-Perm : {xs ys : List PixelData} → Perm xs ys → length xs ≡ length ys
length-Perm r = ∥∥₁_elim r (ℕ_set _ _) length-Permᴰ

absorb-key : (c e : PixelData) → (absorb c e).coord_key ≡ c.coord_key
unfolding absorb
absorb-key c e = refl

-- Merging loses no bit of a mask that `absorb` unites, and makes none up.
module _ (f : PixelData → ℕ)
    (unites : (c e : PixelData) → f (absorb c e) ≡ bit_or (f c) (f e)) where
  shows-absorb :
      (k i : ℕ) (c e : PixelData)
      → (e.coord_key == c.coord_key) ≡ true
      → shows f k i (absorb c e) ≡ (shows f k i c || shows f k i e)
  shows-absorb k i c e same = ground (
    arith,
    unites c e,
    absorb-key c e,
    bit-bit_or i (f c) (f e),
    bit-le-one i (f c),
    bit-le-one i (f e),
  )

  any-merge_into :
      (k i : ℕ) (c : PixelData) (es : List PixelData)
      → any (shows f k i) (merge_into c es) ≡ (shows f k i c || any (shows f k i) es)
  unfolding merge_into
  any-merge_into k i c [] = refl
  any-merge_into k i c (e ∷ es) = elim (Bool-cases (e.coord_key == c.coord_key)) [
    | inl same ↦
        rw (same, merge_into)
          (ground (arith, any-merge_into k i (absorb c e) es, shows-absorb k i c e same))
    | inr other ↦ ground (arith, any-merge_into k i e es)
  ]

  pub any-collapse :
      (k i : ℕ) (xs : List PixelData) → any (shows f k i) (collapse xs) ≡ any (shows f k i) xs
  unfolding collapse
  any-collapse k i [] = refl
  any-collapse k i (x ∷ xs) = any-merge_into k i x xs

merge_into-head :
    (c : PixelData) (es : List PixelData)
    → (y : PixelData) × (ys : List PixelData) × (merge_into c es ≡ y ∷ ys)
      × (y.coord_key ≡ c.coord_key)
unfolding merge_into
merge_into-head c [] = (c, [], refl, refl)
merge_into-head c (e ∷ es) = elim (Bool-cases (e.coord_key == c.coord_key)) [
  | inl same ↦
      let (y, ys, split, key) = merge_into-head (absorb c e) es in
      (y, ys, rw (same, merge_into) split, key ∙ absorb-key c e)
  | inr other ↦ (c, merge_into e es, rw (other, merge_into), refl)
]

Ascending-absorb :
    (c e : PixelData) (es : List PixelData)
    → (e.coord_key == c.coord_key) ≡ true
    → Ascending (c ∷ e ∷ es)
    → Ascending (absorb c e ∷ es)
Ascending-absorb c e [] same a = tt
Ascending-absorb c e (x ∷ es) same a = (ground (arith, absorb-key c e), a.1.1)

merge_into-Strict :
    (c : PixelData) (es : List PixelData) → Ascending (c ∷ es) → StrictlyAscending (merge_into c es)
unfolding merge_into
merge_into-Strict c [] a = tt
merge_into-Strict c (e ∷ es) a = elim (Bool-cases (e.coord_key == c.coord_key)) [
  | inl same ↦
      rw (same, merge_into) (merge_into-Strict (absorb c e) es (Ascending-absorb c e es same a))
  | inr other ↦
      let (y, ys, split, key) = merge_into-head e es in
      let tail = merge_into-Strict e es a.1 in
      rw (other, merge_into) (rw split (ground arith, rw split at tail))
]

pub collapse-Strict : (xs : List PixelData) → Ascending xs → StrictlyAscending (collapse xs)
unfolding collapse
collapse-Strict [] a = tt
collapse-Strict (x ∷ xs) a = merge_into-Strict x xs a

length-merge_into :
    (c : PixelData) (es : List PixelData) → length (merge_into c es) ≤ suc (length es)
unfolding merge_into
length-merge_into c [] = omega arith
length-merge_into c (e ∷ es) =
    ground (arith, length-merge_into (absorb c e) es, length-merge_into e es)

pub length-collapse : (xs : List PixelData) → length (collapse xs) ≤ length xs
unfolding collapse
length-collapse [] = omega arith
length-collapse (x ∷ xs) = length-merge_into x xs
