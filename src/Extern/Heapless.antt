-- ===== src/Extern/Heapless.antt =====
-- heapless: a map of bounded capacity (`FnvIndexMap`) and the bounded push of `Vec`.
use ns_pixels.Prelude.{
  ℕ, suc, ◌≤◌, ◌<◌, ◌≡◌, ◌++◌, Option, none, some, List, [], ◌∷◌, if◌then◌else◌, ◌==◌, length,
}
use ns_pixels.Prelude.Assoc.{lookup, Distinct}
use mathlib.Core.Option

-- `entries` is what `iter` visits, in its order, which nothing else is said of.
pub record IndexMap (capacity : ℕ) (V : Type 0) : Type 1 where
  pub Map : Type 0
  pub empty : Map
  pub entries : Map → List (ℕ × V)
  pub get : Map → ℕ → Option V
  -- a write through `get_mut`, which does nothing at an absent key
  pub modify : Map → ℕ → (V → V) → Map
  -- the result of `insert` is dropped by the callers
  pub insert : Map → ℕ → V → Map
  pub remove : Map → ℕ → Map
  pub entries-empty : entries empty ≡ []
  pub entries_bounded : (m : Map) → length (entries m) ≤ capacity
  pub entries-Distinct : (m : Map) → Distinct (entries m)
  pub get-lookup : (m : Map) (k : ℕ) → get m k ≡ lookup k (entries m)
  pub get-modify :
      (m : Map) (k j : ℕ) (f : V → V)
      → get (modify m k f) j ≡ (if j == k then Option.map f (get m j) else get m j)
  pub length-modify :
      (m : Map) (k : ℕ) (f : V → V) → length (entries (modify m k f)) ≡ length (entries m)
  pub get-insert :
      (m : Map) (k j : ℕ) (v : V)
      → get m k ≡ none
      → length (entries m) < capacity
      → get (insert m k v) j ≡ (if j == k then some v else get m j)
  pub length-insert :
      (m : Map) (k : ℕ) (v : V)
      → get m k ≡ none
      → length (entries m) < capacity
      → length (entries (insert m k v)) ≡ suc (length (entries m))
  pub insert_full :
      (m : Map) (k : ℕ) (v : V) → get m k ≡ none → capacity ≤ length (entries m) → insert m k v ≡ m
  pub get-remove : (m : Map) (k j : ℕ) → get (remove m k) j ≡ (if j == k then none else get m j)
  pub length-remove :
      (m : Map) (k : ℕ) {v : V}
      → get m k ≡ some v
      → suc (length (entries (remove m k))) ≡ length (entries m)

-- `Vec::push` on a vector with the capacity that is given.
pub record BoundedVec : Type 0 where
  pub push : ℕ → List ℕ → ℕ → Option (List ℕ)
  pub push_room :
      (cap : ℕ) (xs : List ℕ) (x : ℕ) → length xs < cap → push cap xs x ≡ some (xs ++ x ∷ [])
  pub push_full : (cap : ℕ) (xs : List ℕ) (x : ℕ) → cap ≤ length xs → push cap xs x ≡ none
