-- ===== src/Registry/Picked.antt =====
-- The numbers that `evict_older_than` collects: stale ones, in the order of the visit.
use mathlib.Core.Bool.{true, false}
use ns_pixels.Prelude.{
  ℕ, zero, suc, ◌≤◌, ◌<◌, ◌≡◌, refl, min, inl, inr, Option, none, some, List, [], ◌∷◌, arith,
  if◌then◌else◌, ◌==◌, ltb, length, Bool-cases, contains,
}
use ns_pixels.Prelude.Assoc.{lookup, Distinct, lookup-tail, lookup-head}
use ns_pixels.Train.{TrainState}

-- The numbers of the stale rows, in the order of the visit.
abbrev pub stale : ℕ → List (ℕ × TrainState) → List ℕ
stale cutoff [] = []
stale cutoff ((k, v) ∷ es) = if ltb v.last_seen cutoff then k ∷ stale cutoff es else stale cutoff es

-- The first `n` of them.
unfoldable pub picked : ℕ → ℕ → List (ℕ × TrainState) → List ℕ
picked cutoff n [] = []
picked cutoff zero ((k, v) ∷ es) = []
picked cutoff (suc n) ((k, v) ∷ es) = elim (ltb v.last_seen cutoff) [
  | true ↦ k ∷ picked cutoff n es
  | false ↦ picked cutoff (suc n) es
]

pub picked-zero : (cutoff : ℕ) (es : List (ℕ × TrainState)) → picked cutoff 0 es ≡ []
unfolding picked
picked-zero cutoff [] = refl
picked-zero cutoff ((k, v) ∷ es) = refl

module _ (cutoff : ℕ) where
  pub length-picked :
      (n : ℕ) (es : List (ℕ × TrainState))
      → length (picked cutoff n es) ≡ min n (length (stale cutoff es))
  unfolding picked
  length-picked n [] = omega arith
  length-picked zero ((k, v) ∷ es) = omega arith
  length-picked (suc n) ((k, v) ∷ es) = ground (arith, length-picked n es, length-picked (suc n) es)

  pub picked_sound :
      (k n : ℕ) (es : List (ℕ × TrainState))
      → Distinct es
      → contains k (picked cutoff n es) ≡ true
      → (v : TrainState) × (lookup k es ≡ some v) × (v.last_seen < cutoff)
  unfolding picked
  picked_sound k n [] d e = absurd (ground arith)
  picked_sound k zero ((j, w) ∷ es) d e = absurd (ground arith)
  picked_sound k (suc n) ((j, w) ∷ es) d e = elim (Bool-cases (ltb w.last_seen cutoff)) [
    | inl old ↦ elim (Bool-cases (j == k)) [
      | inl same ↦ (w, rw same, ground arith)
      | inr other ↦
          let (v, l, b) = picked_sound k n es d.1 (ground arith) in
          (v, lookup-tail k j v w es d.0 l, b)
    ]
    | inr young ↦
        let (v, l, b) = picked_sound k (suc n) es d.1 (ground arith) in
        (v, lookup-tail k j v w es d.0 l, b)
  ]

  -- With fewer stale rows than `n`, all are picked.
  pub picked_complete :
      (k n : ℕ) (v : TrainState) (es : List (ℕ × TrainState))
      → length (stale cutoff es) ≤ n
      → lookup k es ≡ some v
      → v.last_seen < cutoff
      → contains k (picked cutoff n es) ≡ true
  unfolding picked
  picked_complete k n v [] few l b = cc
  picked_complete k zero v ((j, w) ∷ es) few l b =
      ground (arith, picked_complete k 0 v es, picked-zero cutoff es)
  picked_complete k (suc n) v ((j, w) ∷ es) few l b =
      ground (arith, picked_complete k n v es, picked_complete k (suc n) v es)

-- The numbers stand once each, and have rows.
abbrev pub Removable : (ℕ → Option TrainState) → List ℕ → Type 0
Removable row [] = Unit
Removable row (k ∷ ks) =
    ((v : TrainState) × (row k ≡ some v)) × (contains k ks ≡ false) × Removable row ks

pub Removable-mono :
    (row row' : ℕ → Option TrainState) (ks : List ℕ)
    → ((k : ℕ) (v : TrainState) → contains k ks ≡ true → row k ≡ some v → row' k ≡ some v)
    → Removable row ks
    → Removable row' ks
Removable-mono row row' [] up r = tt
Removable-mono row row' (k ∷ ks) up ((v, e), fresh, r) = (
  (v, up k v (ground arith) e),
  fresh,
  Removable-mono row row' ks (λ j w there. up j w (ground arith)) r,
)

Removable-tail :
    (k : ℕ) (v : TrainState) (es : List (ℕ × TrainState)) (ks : List ℕ)
    → lookup k es ≡ none
    → Removable (λ j. lookup j es) ks
    → Removable (λ j. lookup j ((k, v) ∷ es)) ks
Removable-tail k v es ks absent =
    Removable-mono (λ j. lookup j es) (λ j. lookup j ((k, v) ∷ es)) ks
      (λ j w _ e. lookup-tail j k w v es absent e)

not_picked :
    (cutoff k n : ℕ) (es : List (ℕ × TrainState))
    → Distinct es
    → lookup k es ≡ none
    → contains k (picked cutoff n es) ≡ false
not_picked cutoff k n es d absent = elim (Bool-cases (contains k (picked cutoff n es))) [
  | inl there ↦ let (w, l, _) = picked_sound cutoff k n es d there in cc
  | inr gone ↦ gone
]

pub picked-Removable :
    (cutoff n : ℕ) (es : List (ℕ × TrainState))
    → Distinct es
    → Removable (λ k. lookup k es) (picked cutoff n es)
unfolding picked
picked-Removable cutoff n [] d = tt
picked-Removable cutoff zero ((k, v) ∷ es) d = tt
picked-Removable cutoff (suc n) ((k, v) ∷ es) d = elim (Bool-cases (ltb v.last_seen cutoff)) [
  | inl old ↦
      rw (old, picked)
        (
          (v, lookup-head k v es),
          not_picked cutoff k n es d.1 d.0,
          Removable-tail k v es (picked cutoff n es) d.0 (picked-Removable cutoff n es d.1),
        )
  | inr young ↦
      rw (young, picked)
        (Removable-tail k v es (picked cutoff (suc n) es) d.0
          (picked-Removable cutoff (suc n) es d.1))
]
