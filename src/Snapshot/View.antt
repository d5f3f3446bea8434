-- ===== src/Snapshot/View.antt =====
-- The snapshot against the registry: what `rebuild_clusters_into` promises the display.
use mathlib.Core.Bool.{true}
use ns_pixels.Prelude.{
  ℕ, ◌≤◌, ◌<◌, ◌≡◌, ◌↔◌, refl, sym, ap, ◌∙◌, inl, inr, some, List, arith, length, bit_or,
  Option-cases,
}
use ns_pixels.Prelude.Bits.{bit}
use ns_pixels.Extern.Sorting.{UnstableSort}
use ns_pixels.Projection.{PixelCoord, IsBytes, display_side, as_u16}
use ns_pixels.Projection.Key.{as_u16-injective}
use ns_pixels.MapMode.{MapMode, canvas_to_display}
use ns_pixels.MapMode.Windows.{canvas_to_display_bounds}
use ns_pixels.Train.{TrainType, ServiceType, TrainState, PixelData, type_as_bit, service_as_bit}
use ns_pixels.Train.Masks.{
  type_index, service_index, bit-type_as_bit, bit-service_as_bit, type_index-injective,
  service_index-injective,
}
use ns_pixels.Registry.{TrainMap, max_trains}
use ns_pixels.Snapshot.{visible, entry_of, absorb, rebuild_clusters}
use ns_pixels.Snapshot.Runs.{collapse, compact-collapse}
use ns_pixels.Snapshot.Content.{
  any, shows, StrictlyAscending, any-Perm, length-Perm, any-collapse, collapse-Strict,
  length-collapse,
}
use ns_pixels.Snapshot.Seen.{any-SomeRow, SomeRow-any, row_shows, any-visible, length-visible}

module _ (h : TrainMap) (sorting : UnstableSort) where
  open h use {Map, entries, get}

  unfoldable pub snapshot : Map → MapMode → List PixelData
  snapshot m mode = collapse (sorting.sort (visible mode (entries m)))

  pub rebuild-snapshot :
      (m : Map) (mode : MapMode) → rebuild_clusters h sorting m mode ≡ some (snapshot m mode)
  unfolding rebuild_clusters snapshot
  rebuild-snapshot m mode = compact-collapse (sorting.sort (visible mode (entries m)))

  pub any-snapshot :
      (f : PixelData → ℕ) (mask : TrainState → ℕ)
      → ((c e : PixelData) → f (absorb c e) ≡ bit_or (f c) (f e))
      → ((s : TrainState) (d : PixelCoord) → f (entry_of s d) ≡ mask s)
      → (m : Map) (mode : MapMode) (k i : ℕ)
      → any (shows f k i) (snapshot m mode) ≡ any (λ e. row_shows mode mask k i e.1) (entries m)
  unfolding snapshot
  any-snapshot f mask unites agree m mode k i =
      any-collapse f unites k i (sorting.sort (visible mode (entries m)))
      ∙ any-Perm (shows f k i) (sorting.sort-perm (visible mode (entries m)))
      ∙ any-visible f mask agree mode k i (entries m)

  row_shows-pixel :
      (mode : MapMode) (mask : TrainState → ℕ) (d : PixelCoord) (i : ℕ) (s : TrainState)
      → IsBytes d
      → row_shows mode mask (as_u16 d) i s ≡ true
      → (canvas_to_display s.pixel mode ≡ some d) × (bit i (mask s) ≡ 1)
  row_shows-pixel mode mask d i s b e = elim (Option-cases (canvas_to_display s.pixel mode)) [
    | inl hidden ↦ absurd (ground arith)
    | inr (d', shown) ↦
        let (bx, by) = canvas_to_display_bounds s.pixel mode shown in
        let same : d' ≡ d =
          as_u16-injective d' d (record { x_byte = omega arith; y_byte = omega arith }) b
            (ground arith) in
        (ground (arith, same), ground arith)
  ]

  snapshot_shows :
      (f : PixelData → ℕ) (mask : TrainState → ℕ)
      → ((c e : PixelData) → f (absorb c e) ≡ bit_or (f c) (f e))
      → ((s : TrainState) (d : PixelCoord) → f (entry_of s d) ≡ mask s)
      → (m : Map) (mode : MapMode) (d : PixelCoord) (i : ℕ) (out : List PixelData)
      → rebuild_clusters h sorting m mode ≡ some out
      → IsBytes d
      → (any (shows f (as_u16 d) i) out ≡ true) ↔ (
          (j : ℕ) × (s : TrainState) × (get m j ≡ some s)
          × (canvas_to_display s.pixel mode ≡ some d)
          × (bit i (mask s) ≡ 1))
  snapshot_shows f mask unites agree m mode d i out e b = (
    (λ shown.
        let (j, s, l, p) =
          any-SomeRow (row_shows mode mask (as_u16 d) i) (entries m) (h.entries-Distinct m)
            (sym rows ∙ shown) in
        let (at, has) = row_shows-pixel mode mask d i s b p in
        (j, s, h.get-lookup m j ∙ l, at, has)),
    (λ (j, s, l, at, has).
        rows
        ∙ SomeRow-any (row_shows mode mask (as_u16 d) i) j s (entries m)
            (sym (h.get-lookup m j) ∙ l) (ground arith)),
  )
    where
      rows :
          any (shows f (as_u16 d) i) out
          ≡ any (λ p. row_shows mode mask (as_u16 d) i p.1) (entries m)
      rows =
          let same : snapshot m mode ≡ out = cc (rebuild-snapshot m mode) in
          rw same at (any-snapshot f mask unites agree m mode (as_u16 d) i)

  -- Rebuilding the snapshot never indexes out of bounds and ends; no more pixels are pushed than the
  -- 512 that the buffer holds, which the unchecked push relies on. The entries come in ascending order
  -- of their keys, no two for one pixel.
  pub rebuild_clusters-Strict :
      (m : Map) (mode : MapMode)
      → (out : List PixelData) × (rebuild_clusters h sorting m mode ≡ some out)
        × StrictlyAscending out
        × (length (visible mode (entries m)) ≤ max_trains)
        × (length out ≤ max_trains)
  unfolding snapshot
  rebuild_clusters-Strict m mode = (
    snapshot m mode,
    rebuild-snapshot m mode,
    collapse-Strict _ (sorting.sort-Ascending (visible mode (entries m))),
    pushed,
    omega (
      arith,
      pushed,
      length-collapse (sorting.sort (visible mode (entries m))),
      length-Perm (sorting.sort-perm (visible mode (entries m))),
    ),
  )
    where
      pushed : length (visible mode (entries m)) ≤ max_trains
      pushed = omega (arith, length-visible mode (entries m), h.entries_bounded m)

  -- The snapshot has an entry for a pixel of the display with the bit of a train type exactly when
  -- some train of that type in the registry is projected to that pixel.
  pub rebuild_clusters_types :
      (m : Map) (mode : MapMode) (d : PixelCoord) (t : TrainType) (out : List PixelData)
      → rebuild_clusters h sorting m mode ≡ some out
      → d.x < display_side
      → d.y < display_side
      → (any (shows (λ e. e.types) (as_u16 d) (type_index t)) out ≡ true) ↔ (
          (j : ℕ) × (s : TrainState) × (get m j ≡ some s)
          × (canvas_to_display s.pixel mode ≡ some d)
          × (s.typ ≡ t))
  unfolding absorb entry_of
  rebuild_clusters_types m mode d t out e bx by =
      let (fwd, bwd) =
        snapshot_shows (λ x. x.types) (λ s. type_as_bit s.typ) (λ x y. refl) (λ s p. refl) m mode d
          (type_index t) out e (record { x_byte = omega arith; y_byte = omega arith }) in
      (
        (λ shown.
            let (j, s, l, at, has) = fwd shown in
            (j, s, l, at, type_index-injective s.typ t (ground (arith, bit-type_as_bit t s.typ)))),
        (λ (j, s, l, at, same).
            bwd (j, s, l, at, ground (arith, bit-type_as_bit t s.typ, ap type_index same))),
      )

  -- The same for the bit of a service category.
  pub rebuild_clusters_services :
      (m : Map) (mode : MapMode) (d : PixelCoord) (t : ServiceType) (out : List PixelData)
      → rebuild_clusters h sorting m mode ≡ some out
      → d.x < display_side
      → d.y < display_side
      → (any (shows (λ e. e.services) (as_u16 d) (service_index t)) out ≡ true) ↔ (
          (j : ℕ) × (s : TrainState) × (get m j ≡ some s)
          × (canvas_to_display s.pixel mode ≡ some d)
          × (s.service ≡ t))
  unfolding absorb entry_of
  rebuild_clusters_services m mode d t out e bx by =
      let (fwd, bwd) =
        snapshot_shows (λ x. x.services) (λ s. service_as_bit s.service) (λ x y. refl) (λ s p. refl)
          m mode d (service_index t) out e
          (record { x_byte = omega arith; y_byte = omega arith }) in
      (
        (λ shown.
            let (j, s, l, at, has) = fwd shown in
            (
              j,
              s,
              l,
              at,
              service_index-injective s.service t (ground (arith, bit-service_as_bit t s.service)),
            )),
        (λ (j, s, l, at, same).
            bwd
              (j, s, l, at, ground (arith, bit-service_as_bit t s.service, ap service_index same))),
      )
