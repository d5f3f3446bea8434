-- ===== src/Extern/Sorting.antt =====
-- `sort_unstable_by_key` on the snapshot: ascending keys, the same elements, and no promise about
-- the order of equal keys.
use mathlib.Core.List.{Perm}
use ns_pixels.Prelude.{◌≤◌, List, [], ◌∷◌}
use ns_pixels.Train.{PixelData}

-- No key is below the one before it.
abbrev pub Ascending : List PixelData → Type 0
Ascending [] = Unit
Ascending (a ∷ []) = Unit
Ascending (a ∷ b ∷ xs) = (a.coord_key ≤ b.coord_key) × Ascending (b ∷ xs)

pub record UnstableSort : Type 0 where
  pub sort : List PixelData → List PixelData
  pub sort-Ascending : (xs : List PixelData) → Ascending (sort xs)
  pub sort-perm : (xs : List PixelData) → Perm (sort xs) xs
