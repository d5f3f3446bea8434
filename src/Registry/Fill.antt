-- ===== src/Registry/Fill.antt =====
-- A buffer that is topped up from the rows of the registry: the part of `pending_enrichment` that
-- concerns one of its two buffers.
use mathlib.Core.Bool.{Bool, true, ◌&&◌}
use ns_pixels.Prelude.{
  ℕ, ◌≤◌, ◌≡◌, refl, sym, ap, ◌∙◌, ◌⊎◌, inl, inr, Option, some, List, [], ◌∷◌, ◌++◌, arith,
  if◌then◌else◌, ◌==◌, ltb, length, length-append, Bool-cases, contains, contains-snoc,
}
use mathlib.Core.List.{append-nil, append_assoc}
use ns_pixels.Prelude.Assoc.{lookup, Distinct, lookup-tail}
use ns_pixels.Train.{TrainState}

-- An offer that is free of the vector: append if there is room and the number is wanted.
abbrev pub grow : ℕ → List ℕ → ℕ → Bool → List ℕ
grow cap buf k wanted = if ltb (length buf) cap && wanted then buf ++ k ∷ [] else buf

-- One buffer by itself: every wanted number, in the order of the visit, while there is room.
unfoldable pub fill : ℕ → (TrainState → Bool) → List (ℕ × TrainState) → List ℕ → List ℕ
fill cap wanted [] buf = buf
fill cap wanted ((k, v) ∷ es) buf = fill cap wanted es (grow cap buf k (wanted v))

pub length-grow :
    (cap : ℕ) (buf : List ℕ) (k : ℕ) (wanted : Bool)
    → length buf ≤ cap
    → length (grow cap buf k wanted) ≤ cap
length-grow cap buf k wanted b = ground (arith, length-append buf (k ∷ []))

pub fill-full :
    (cap : ℕ) (wanted : TrainState → Bool) (es : List (ℕ × TrainState)) (buf : List ℕ)
    → cap ≤ length buf
    → fill cap wanted es buf ≡ buf
unfolding fill
fill-full cap wanted [] buf b = refl
fill-full cap wanted ((k, v) ∷ es) buf b =
    let unchanged : grow cap buf k (wanted v) ≡ buf = ground arith in
    rw unchanged (fill-full cap wanted es buf b)

contains-grow :
    (k j cap : ℕ) (t : List ℕ) (wanted : Bool)
    → contains k (grow cap t j wanted) ≡ true
    → (contains k t ≡ true) ⊎ (((j == k) ≡ true) × (wanted ≡ true))
contains-grow k j cap t wanted e = ground (arith, contains-snoc k t j)

module _ (cap : ℕ) (wanted : TrainState → Bool) where
  length-fill :
      (es : List (ℕ × TrainState)) (buf : List ℕ)
      → length buf ≤ cap
      → length (fill cap wanted es buf) ≤ cap
  unfolding fill
  length-fill [] buf b = b
  length-fill ((k, v) ∷ es) buf b =
      length-fill es (grow cap buf k (wanted v)) (length-grow cap buf k (wanted v) b)

  grow-prefix : (buf : List ℕ) (k : ℕ) (w : Bool) → (xs : List ℕ) × (grow cap buf k w ≡ buf ++ xs)
  grow-prefix buf k w = elim (Bool-cases (ltb (length buf) cap && w)) [
    | inl e ↦ (k ∷ [], rw e)
    | inr e ↦ ([], rw e (sym (append-nil buf)))
  ]

  fill-prefix :
      (es : List (ℕ × TrainState)) (buf : List ℕ)
      → (xs : List ℕ) × (fill cap wanted es buf ≡ buf ++ xs)
  unfolding fill
  fill-prefix [] buf = ([], sym (append-nil buf))
  fill-prefix ((k, v) ∷ es) buf =
      let (xs, e) = grow-prefix buf k (wanted v) in
      let (ys, f) = fill-prefix es (grow cap buf k (wanted v)) in
      (xs ++ ys, f ∙ ap (λ (t : List ℕ). t ++ ys) e ∙ append_assoc buf xs ys)

  contains-append : (k : ℕ) (xs ys : List ℕ) → contains k xs ≡ true → contains k (xs ++ ys) ≡ true
  contains-append k [] ys e = cc
  contains-append k (x ∷ xs) ys e = ground (arith, contains-append k xs ys)

  fill-keeps :
      (k : ℕ) (es : List (ℕ × TrainState)) (buf : List ℕ)
      → contains k buf ≡ true
      → contains k (fill cap wanted es buf) ≡ true
  fill-keeps k es buf e = let (xs, f) = fill-prefix es buf in rw f (contains-append k buf xs e)

  fill_sound :
      (k : ℕ) (es : List (ℕ × TrainState)) (buf : List ℕ)
      → Distinct es
      → contains k (fill cap wanted es buf) ≡ true
      → (contains k buf ≡ true) ⊎ ((v : TrainState) × (lookup k es ≡ some v) × (wanted v ≡ true))
  unfolding fill
  fill_sound k [] buf d e = inl e
  fill_sound k ((j, w) ∷ es) buf d e = elim (fill_sound k es (grow cap buf j (wanted w)) d.1 e) [
    | inl grown ↦ head grown
    | inr (v, l, f) ↦ inr (v, lookup-tail k j v w es d.0 l, f)
  ]
    where
      head :
          contains k (grow cap buf j (wanted w)) ≡ true
          → (contains k buf ≡ true)
            ⊎ ((v : TrainState) × (lookup k ((j, w) ∷ es) ≡ some v) × (wanted v ≡ true))
      head grown = elim (contains-grow k j cap buf (wanted w) grown) [
        | inl old ↦ inl old
        | inr (same, f) ↦ inr (w, rw same, f)
      ]

  fill_complete :
      (k : ℕ) (v : TrainState) (es : List (ℕ × TrainState)) (buf : List ℕ)
      → lookup k es ≡ some v
      → wanted v ≡ true
      → (contains k (fill cap wanted es buf) ≡ true) ⊎ (cap ≤ length (fill cap wanted es buf))
  unfolding fill
  fill_complete k v [] buf l f = cc
  fill_complete k v ((j, w) ∷ es) buf l f = elim (Bool-cases (j == k)) [
    | inl same ↦ elim (Bool-cases (ltb (length buf) cap)) [
      | inl room ↦
          inl (fill-keeps k es (grow cap buf j (wanted w)) (ground (arith, contains-snoc k buf j)))
      | inr full ↦ inr (ground (arith, fill-full cap wanted ((j, w) ∷ es) buf))
    ]
    | inr other ↦ fill_complete k v es (grow cap buf j (wanted w)) (ground arith) f
  ]

-- `buf'` is `buf` topped up, to at most `cap` numbers, with numbers of rows that are wanted; a wanted
-- row is left out only if the buffer is full.
abbrev pub Fills : (ℕ → Option TrainState) → ℕ → (TrainState → Bool) → List ℕ → List ℕ → Type 0
Fills row cap wanted buf buf' =
    (length buf' ≤ cap)
    × ((xs : List ℕ) × (buf' ≡ buf ++ xs))
    × ((k : ℕ)
        → contains k buf' ≡ true
        → (contains k buf ≡ true) ⊎ ((v : TrainState) × (row k ≡ some v) × (wanted v ≡ true)))
    × ((k : ℕ) (v : TrainState)
        → row k ≡ some v
        → wanted v ≡ true
        → (contains k buf' ≡ true) ⊎ (cap ≤ length buf'))

pub fill-Fills :
    (cap : ℕ) (wanted : TrainState → Bool) (es : List (ℕ × TrainState)) (buf : List ℕ)
    → Distinct es
    → length buf ≤ cap
    → Fills (λ k. lookup k es) cap wanted buf (fill cap wanted es buf)
fill-Fills cap wanted es buf d b = (
  length-fill cap wanted es buf b,
  fill-prefix cap wanted es buf,
  λ k. fill_sound cap wanted k es buf d,
  λ k v. fill_complete cap wanted k v es buf,
)
