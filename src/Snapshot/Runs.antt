-- ===== src/Snapshot/Runs.antt =====
-- The in-place loops of the snapshot against a plain recursion over runs of equal keys.
use mathlib.Core.Bool.{true, false}
use mathlib.Core.List.{append-nil, append_assoc}
use ns_pixels.Prelude.{
  ℕ, zero, suc, ◌+◌, ◌≤◌, ◌<◌, ◌≡◌, refl, ap, inl, inr, some, List, [], ◌∷◌, ◌++◌, arith, ◌==◌,
  length, length-append, get_elem?, set, take, Bool-cases,
}
use ns_pixels.Train.{PixelData}
use ns_pixels.Snapshot.{absorb, absorb_loop, copy_down, compact_loop, compact}

-- A run at the head of the list is merged into the entry before it.
pub absorb_run : PixelData → List PixelData → PixelData
absorb_run c [] = c
absorb_run c (e ∷ es) = elim (e.coord_key == c.coord_key) [
  | true ↦ absorb_run (absorb c e) es
  | false ↦ c
]

pub after_run : PixelData → List PixelData → List PixelData
after_run c [] = []
after_run c (e ∷ es) = elim (e.coord_key == c.coord_key) [
  | true ↦ after_run (absorb c e) es
  | false ↦ e ∷ es
]

unfoldable pub merge_into : PixelData → List PixelData → List PixelData
merge_into c [] = c ∷ []
merge_into c (e ∷ es) = elim (e.coord_key == c.coord_key) [
  | true ↦ merge_into (absorb c e) es
  | false ↦ c ∷ merge_into e es
]

-- One entry for each run of equal keys.
unfoldable pub collapse : List PixelData → List PixelData
unfolding merge_into
collapse [] = []
collapse (e ∷ es) = merge_into e es

collapse-nil : collapse [] ≡ []
unfolding collapse
collapse-nil = refl

collapse-cons :
    (e : PixelData) (es : List PixelData)
    → collapse (e ∷ es) ≡ absorb_run e es ∷ collapse (after_run e es)
unfolding collapse absorb_run after_run
collapse-cons e [] = refl
collapse-cons e (x ∷ es) = ground (arith, collapse-cons (absorb e x) es)

length-after_run : (c : PixelData) (es : List PixelData) → length (after_run c es) ≤ length es
unfolding after_run
length-after_run c [] = omega arith
length-after_run c (e ∷ es) = ground (arith, length-after_run (absorb c e) es)

module _ {ℓ} {A : Type ℓ} where
  get-middle : (xs : List A) (a : A) (ys : List A) → get_elem? (xs ++ a ∷ ys) (length xs) ≡ some a
  get-middle [] a ys = refl
  get-middle (x ∷ xs) a ys = get-middle xs a ys

  set-middle :
      (xs : List A) (a b : A) (ys : List A) → set (xs ++ a ∷ ys) (length xs) b ≡ xs ++ b ∷ ys
  set-middle [] a b ys = refl
  set-middle (x ∷ xs) a b ys = ap (λ l. x ∷ l) (set-middle xs a b ys)

  take-front : (xs ys : List A) → take (length xs) (xs ++ ys) ≡ xs
  take-front [] ys = refl
  take-front (x ∷ xs) ys = ap (λ l. x ∷ l) (take-front xs ys)

  get-later :
      (xs : List A) (a : A) (ys : List A) (b : A) (zs : List A) (i : ℕ)
      → i ≡ length xs + 1 + length ys
      → get_elem? (xs ++ a ∷ (ys ++ b ∷ zs)) i ≡ some b
  get-later [] a ys b zs i e =
      let at : i ≡ suc (length ys) = omega arith in rw at (get-middle ys b zs)
  get-later (x ∷ xs) a ys b zs i e =
      let at : i ≡ suc (length xs + 1 + length ys) = omega arith in
      rw at (get-later xs a ys b zs (length xs + 1 + length ys) refl)

  length-later :
      (xs : List A) (a : A) (ys zs : List A)
      → length (xs ++ a ∷ (ys ++ zs)) ≡ length xs + 1 + length ys + length zs
  length-later xs a ys zs = omega (arith, length-append xs (a ∷ (ys ++ zs)), length-append ys zs)

absorb_loop-run :
    (fuel : ℕ) (front : List PixelData) (c : PixelData) (junk rest : List PixelData) (read : ℕ)
    → read ≡ length front + 1 + length junk
    → length rest < fuel
    → (junk' : List PixelData) × (absorb_loop fuel (front ++ c ∷ (junk ++ rest)) (length front) read
        ≡ some (
          front ++ absorb_run c rest ∷ (junk' ++ after_run c rest),
          length front + 1 + length junk',
        ))
unfolding absorb_loop absorb_run after_run
absorb_loop-run zero front c junk rest read e b = elim b [ ]
absorb_loop-run (suc fuel) front c junk [] read e b =
    (junk, ground (arith, length-later front c junk []))
absorb_loop-run (suc fuel) front c junk (x ∷ rest) read e b =
    elim (Bool-cases (x.coord_key == c.coord_key)) [
      | inl same ↦
          let (junk', ih) =
            absorb_loop-run fuel front (absorb c x) (junk ++ x ∷ []) rest (read + 1)
              (omega (arith, length-append junk (x ∷ []))) (omega arith) in
          (
            junk',
            ground (
              arith,
              length-later front c junk (x ∷ rest),
              get-later front c junk x rest read e,
              get-middle front c (junk ++ x ∷ rest),
              set-middle front c (absorb c x) (junk ++ x ∷ rest),
              append_assoc junk (x ∷ []) rest,
              ih,
            ),
          )
      | inr other ↦ (
        junk,
        ground (
          arith,
          length-later front c junk (x ∷ rest),
          get-later front c junk x rest read e,
          get-middle front c (junk ++ x ∷ rest),
        ),
      )
    ]

-- One round of the outer loop takes the entry at `read` down to `write`, with the run behind it.
copy_down-run :
    (front junk : List PixelData) (x : PixelData) (rest : List PixelData) (read : ℕ)
    → read ≡ length front + length junk
    → (junk' : List PixelData) × (copy_down (front ++ (junk ++ x ∷ rest)) (length front) read
        ≡ some (front ++ x ∷ (junk' ++ rest)))
      × (length junk' ≡ length junk)
unfolding copy_down
copy_down-run front [] x rest read e = ([], ground arith, refl)
copy_down-run front (j ∷ junk) x rest read e = (
  junk ++ x ∷ [],
  ground (
    arith,
    get-later front j junk x rest read (omega arith),
    get-middle front j (junk ++ x ∷ rest),
    set-middle front j x (junk ++ x ∷ rest),
    append_assoc junk (x ∷ []) rest,
  ),
  omega (arith, length-append junk (x ∷ [])),
)

compact_loop-collapse :
    (fuel : ℕ) (front junk rest : List PixelData) (read : ℕ)
    → read ≡ length front + length junk
    → length rest < fuel
    → compact_loop fuel (front ++ (junk ++ rest)) (length front) read
      ≡ some (front ++ collapse rest)
unfolding compact_loop
compact_loop-collapse zero front junk rest read e b = elim b [ ]
compact_loop-collapse (suc fuel) front junk [] read e b = ground (
  arith,
  length-append front (junk ++ []),
  length-append junk [],
  take-front front (junk ++ []),
  append-nil front,
  collapse-nil,
)
compact_loop-collapse (suc fuel) front junk (x ∷ rest) read e b =
    let (junk1, copied, same) = copy_down-run front junk x rest read e in
    let (junk2, absorbed) =
      absorb_loop-run (suc (length (front ++ x ∷ (junk1 ++ rest)))) front x junk1 rest (read + 1)
        (omega arith) (omega (arith, length-later front x junk1 rest)) in
    let front' : List PixelData = front ++ absorb_run x rest ∷ [] in
    let grown : length front' ≡ length front + 1 =
      omega (arith, length-append front (absorb_run x rest ∷ [])) in
    let later =
      compact_loop-collapse fuel front' junk2 (after_run x rest) (length front + 1 + length junk2)
        (omega arith) (omega (arith, length-after_run x rest)) in
    ground (
      arith,
      length-append front (junk ++ x ∷ rest),
      length-append junk (x ∷ rest),
      copied,
      absorbed,
      grown,
      append_assoc front (absorb_run x rest ∷ []) (junk2 ++ after_run x rest),
      append_assoc front (absorb_run x rest ∷ []) (collapse (after_run x rest)),
      collapse-cons x rest,
      later,
    )

-- The in-place compaction never indexes out of bounds, ends, and leaves what the plain recursion
-- over runs of equal keys gives.
pub compact-collapse : (xs : List PixelData) → compact xs ≡ some (collapse xs)
unfolding compact
compact-collapse xs = compact_loop-collapse (suc (length xs)) [] [] xs 0 refl (omega arith)
