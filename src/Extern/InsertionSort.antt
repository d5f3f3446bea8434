-- ===== src/Extern/InsertionSort.antt =====
-- The assumptions on the sort can be met: insertion sort.
use mathlib.Core.List.{Perm}
use mathlib.Core.List.Perm
use ns_pixels.Prelude.{inl, inr, List, [], ◌∷◌, arith, if◌then◌else◌, leb, Bool-cases}
use ns_pixels.Extern.Sorting.{Ascending, UnstableSort}
use ns_pixels.Train.{PixelData}

pub insert : PixelData → List PixelData → List PixelData
insert a [] = a ∷ []
insert a (b ∷ xs) = if leb a.coord_key b.coord_key then a ∷ b ∷ xs else b ∷ insert a xs

pub sort : List PixelData → List PixelData
sort [] = []
sort (a ∷ xs) = insert a (sort xs)

insert-Ascending : (a : PixelData) (xs : List PixelData) → Ascending xs → Ascending (insert a xs)
unfolding insert
insert-Ascending a [] h = tt
insert-Ascending a (b ∷ []) h = ground arith
insert-Ascending a (b ∷ c ∷ xs) h = ground (arith, insert-Ascending a (c ∷ xs))

pub sort-Ascending : (xs : List PixelData) → Ascending (sort xs)
unfolding sort
sort-Ascending [] = tt
sort-Ascending (a ∷ xs) = insert-Ascending a (sort xs) (sort-Ascending xs)

insert-perm : (a : PixelData) (xs : List PixelData) → Perm (insert a xs) (a ∷ xs)
unfolding insert
insert-perm a [] = Perm.refl (a ∷ [])
insert-perm a (b ∷ xs) = elim (Bool-cases (leb a.coord_key b.coord_key)) [
  | inl le ↦ rw le (Perm.refl (a ∷ b ∷ xs))
  | inr gt ↦ rw gt (Perm.trans (Perm.cons b (insert-perm a xs)) (Perm.swap a b xs))
]

pub sort-perm : (xs : List PixelData) → Perm (sort xs) xs
unfolding sort
sort-perm [] = Perm.refl []
sort-perm (a ∷ xs) = Perm.trans (insert-perm a (sort xs)) (Perm.cons a (sort-perm xs))

abbrev pub insertion_sort : UnstableSort
insertion_sort = record { sort = sort; sort-Ascending = sort-Ascending; sort-perm = sort-perm }
