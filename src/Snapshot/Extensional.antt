-- ===== src/Snapshot/Extensional.antt =====
-- The snapshot is a function of the rows alone: neither the order in which the map lists them nor the order in
-- which the unstable sort leaves entries of one pixel makes a difference.
use mathlib.Core.Bool.{Bool, true, false, not}
use ns_pixels.Prelude.{
  ℕ, ◌<◌, ◌≡◌, refl, sym, ap, ◌∙◌, inl, inr, some, List, [], ◌∷◌, arith, ◌==◌, bit_or, Bool-cases,
  Option-cases,
}
use ns_pixels.Prelude.Masks.{bit_or-lt_weight, le-bit_or}
use ns_pixels.Extern.Sorting.{UnstableSort}
use ns_pixels.Projection.{PixelCoord}
use ns_pixels.MapMode.{MapMode, canvas_to_display}
use ns_pixels.Train.{TrainType, ServiceType, TrainState, PixelData, type_as_bit, service_as_bit}
use ns_pixels.Registry.{TrainMap}
use ns_pixels.Snapshot.{visible, entry_of, absorb, rebuild_clusters}
use ns_pixels.Snapshot.Runs.{merge_into, collapse}
use ns_pixels.Snapshot.Content.{any, StrictlyAscending, any-Perm, collapse-Strict}
use ns_pixels.Snapshot.Seen.{any-SomeRow, SomeRow-any, row_shows}
use ns_pixels.Snapshot.View.{snapshot, rebuild-snapshot, any-snapshot}
use ns_pixels.Snapshot.Determined.{is_entry, Entries, Agree, determined}

type_as_bit_range : (t : TrainType) → (0 < type_as_bit t) × (type_as_bit t < 256)
unfolding type_as_bit
type_as_bit_range TrainType.unknown = (omega arith, omega arith)
type_as_bit_range _ = (omega arith, omega arith)

service_as_bit_range : (t : ServiceType) → service_as_bit t < 256
unfolding service_as_bit
service_as_bit_range ServiceType.unknown = omega arith
service_as_bit_range _ = omega arith

is_entry-entry_of : (s : TrainState) (d : PixelCoord) → is_entry (entry_of s d) ≡ true
unfolding entry_of
is_entry-entry_of s d = ground (arith, type_as_bit_range s.typ, service_as_bit_range s.service)

Entries-visible : (mode : MapMode) (es : List (ℕ × TrainState)) → Entries (visible mode es)
unfolding visible
Entries-visible mode [] = refl
Entries-visible mode ((j, s) ∷ es) = elim (Option-cases (canvas_to_display s.pixel mode)) [
  | inl hidden ↦ ground (arith, hidden, Entries-visible mode es)
  | inr (d, shown) ↦ ground (arith, shown, Entries-visible mode es, is_entry-entry_of s d)
]

is_entry-absorb :
    (c e : PixelData) → is_entry c ≡ true → is_entry e ≡ true → is_entry (absorb c e) ≡ true
unfolding absorb
is_entry-absorb c e p q = ground (
  arith,
  p,
  q,
  bit_or-lt_weight 8 c.types e.types (ground arith) (ground arith),
  le-bit_or 8 c.types e.types (ground arith),
  bit_or-lt_weight 8 c.services e.services (ground arith) (ground arith),
)

Entries-merge_into :
    (c : PixelData) (es : List PixelData)
    → is_entry c ≡ true
    → Entries es
    → Entries (merge_into c es)
unfolding merge_into
Entries-merge_into c [] p q = ground (arith, p)
Entries-merge_into c (e ∷ es) p q =
    let here : is_entry e ≡ true = ground (arith, q) in
    let rest : Entries es = ground (arith, q) in
    elim (Bool-cases (e.coord_key == c.coord_key)) [
      | inl same ↦
          rw (same, merge_into)
            (Entries-merge_into (absorb c e) es (is_entry-absorb c e p here) rest)
      | inr other ↦ rw (other, merge_into) (ground (arith, p, Entries-merge_into e es here rest))
    ]

Entries-collapse : (xs : List PixelData) → Entries xs → Entries (collapse xs)
unfolding collapse
Entries-collapse [] e = refl
Entries-collapse (x ∷ xs) e = Entries-merge_into x xs (ground (arith, e)) (ground (arith, e))

Entries-snapshot :
    (h : TrainMap) (sorting : UnstableSort) (m : h.Map) (mode : MapMode)
    → Entries (snapshot h sorting m mode)
unfolding snapshot
Entries-snapshot h sorting m mode = Entries-collapse (sorting.sort (visible mode (h.entries m))) (
    any-Perm (λ e. not (is_entry e)) (sorting.sort-perm (visible mode (h.entries m)))
    ∙ Entries-visible mode (h.entries m))

bool_equal : (a b : Bool) → (a ≡ true → b ≡ true) → (b ≡ true → a ≡ true) → a ≡ b
bool_equal true b f g = sym (f refl)
bool_equal false true f g = g refl
bool_equal false false f g = refl

snapshot-Strict :
    (h : TrainMap) (sorting : UnstableSort) (m : h.Map) (mode : MapMode)
    → StrictlyAscending (snapshot h sorting m mode)
unfolding snapshot
snapshot-Strict h sorting m mode =
    collapse-Strict _ (sorting.sort-Ascending (visible mode (h.entries m)))

-- A row of one registry that satisfies `p` is a row of the other.
some_row :
    (h k : TrainMap) (m : h.Map) (n : k.Map) (p : TrainState → Bool)
    → ((j : ℕ) → h.get m j ≡ k.get n j)
    → any (λ e. p e.1) (h.entries m) ≡ true
    → any (λ e. p e.1) (k.entries n) ≡ true
some_row h k m n p same e =
    let (j, s, l, holds) = any-SomeRow p (h.entries m) (h.entries-Distinct m) e in
    SomeRow-any p j s (k.entries n) (sym (k.get-lookup n j) ∙ sym (same j) ∙ h.get-lookup m j ∙ l)
      holds

rows_agree :
    (h k : TrainMap) (m : h.Map) (n : k.Map) (p : TrainState → Bool)
    → ((j : ℕ) → h.get m j ≡ k.get n j)
    → any (λ e. p e.1) (h.entries m) ≡ any (λ e. p e.1) (k.entries n)
rows_agree h k m n p same =
    bool_equal _ _ (some_row h k m n p same) (some_row k h n m p (λ j. sym (same j)))

snapshots-Agree :
    (h k : TrainMap) (sorting resorting : UnstableSort) (m : h.Map) (n : k.Map) (mode : MapMode)
    (f : PixelData → ℕ) (mask : TrainState → ℕ)
    → ((c e : PixelData) → f (absorb c e) ≡ bit_or (f c) (f e))
    → ((s : TrainState) (d : PixelCoord) → f (entry_of s d) ≡ mask s)
    → ((j : ℕ) → h.get m j ≡ k.get n j)
    → Agree f (snapshot h sorting m mode) (snapshot k resorting n mode)
snapshots-Agree h k sorting resorting m n mode f mask unites agree same key i =
    any-snapshot h sorting f mask unites agree m mode key i
    ∙ rows_agree h k m n (row_shows mode mask key i) same
    ∙ sym (any-snapshot k resorting f mask unites agree n mode key i)

-- Two registries with the same rows give the same snapshot in each mode, whatever the order in which their maps
-- list the rows, and whatever the unstable sort does with entries of one pixel.
pub rebuild_clusters_equal :
    (h k : TrainMap) (sorting resorting : UnstableSort) (m : h.Map) (n : k.Map) (mode : MapMode)
    → ((j : ℕ) → h.get m j ≡ k.get n j)
    → rebuild_clusters h sorting m mode ≡ rebuild_clusters k resorting n mode
unfolding absorb entry_of
rebuild_clusters_equal h k sorting resorting m n mode same =
    rebuild-snapshot h sorting m mode
    ∙ ap some (
        determined _ _ (snapshot-Strict h sorting m mode) (snapshot-Strict k resorting n mode)
          (Entries-snapshot h sorting m mode) (Entries-snapshot k resorting n mode)
          (snapshots-Agree h k sorting resorting m n mode (λ x. x.types) (λ s. type_as_bit s.typ)
            (λ x y. refl) (λ s p. refl) same)
          (snapshots-Agree h k sorting resorting m n mode (λ x. x.services)
            (λ s. service_as_bit s.service) (λ x y. refl) (λ s p. refl) same))
    ∙ sym (rebuild-snapshot k resorting n mode)
