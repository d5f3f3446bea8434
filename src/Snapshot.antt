-- ===== src/Snapshot.antt =====
-- registry.rs, `rebuild_clusters_into`: the snapshot of the visible trains, one entry to a pixel.
pub mod Seen
pub mod Runs
pub mod Content
pub mod View
pub mod Placed
pub mod Determined
pub mod Extensional
use mathlib.Core.Bool.{Bool, true, false}
use ns_pixels.Prelude.{
  ℕ, zero, suc, ◌+◌, Option, none, some, List, [], ◌∷◌, ltb, ◌==◌, length, get_elem?, set, take,
  bit_or,
}
use ns_pixels.Extern.Clock.{Clock}
use ns_pixels.Extern.Heapless.{BoundedVec}
use ns_pixels.Extern.Sorting.{UnstableSort}
use ns_pixels.Projection.{PixelCoord, as_u16}
use ns_pixels.MapMode.{MapMode, canvas_to_display}
use ns_pixels.Train.{TrainState, PixelData, type_as_bit, service_as_bit}
use ns_pixels.Registry.{TrainMap}

-- What is pushed for a train that is shown at `display`.
pub entry_of : TrainState → PixelCoord → PixelData
entry_of state display = record {
  coord_key = as_u16 display;
  types = type_as_bit state.typ;
  services = service_as_bit state.service;
}

-- The first loop: the pixels of the trains that the view shows.
unfoldable pub visible : MapMode → List (ℕ × TrainState) → List PixelData
unfolding entry_of
visible mode [] = []
visible mode ((_, state) ∷ rest) = elim (canvas_to_display state.pixel mode) [
  | none ↦ visible mode rest
  | some display ↦ entry_of state display ∷ visible mode rest
]

-- `out[write].types |= out[read].types`, and the same for the services.
pub absorb : PixelData → PixelData → PixelData
absorb c e = record c { types = bit_or c.types e.types; services = bit_or c.services e.services }

-- The inner `while`. `none` is an index out of bounds, or fuel that has run out.
absorb_loop : ℕ → List PixelData → ℕ → ℕ → Option (List PixelData × ℕ)
absorb_loop zero out write read = none
absorb_loop (suc fuel) out write read = elim (ltb read (length out)) [
  | false ↦ some (out, read)
  | true ↦ elim (get_elem? out read) [
    | none ↦ none
    | some e ↦ elim (get_elem? out write) [
      | none ↦ none
      | some c ↦ elim (e.coord_key == c.coord_key) [
        | false ↦ some (out, read)
        | true ↦ absorb_loop fuel (set out write (absorb c e)) write (read + 1)
      ]
    ]
  ]
]

-- `if write != read { out[write] = out[read]; }`
copy_down : List PixelData → ℕ → ℕ → Option (List PixelData)
copy_down out write read = elim (write == read) [
  | true ↦ some out
  | false ↦ elim (get_elem? out read) [
    | none ↦ none
    | some e ↦ elim (get_elem? out write) [ none ↦ none | some _ ↦ some (set out write e) ]
  ]
]

-- The outer `while`, and the `truncate` behind it.
compact_loop : ℕ → List PixelData → ℕ → ℕ → Option (List PixelData)
compact_loop zero out write read = none
compact_loop (suc fuel) out write read = elim (ltb read (length out)) [
  | false ↦ some (take write out)
  | true ↦ elim (copy_down out write read) [
    | none ↦ none
    | some copied ↦ elim (absorb_loop (suc (length copied)) copied write (read + 1)) [
      | none ↦ none
      | some (out', read') ↦ compact_loop fuel out' (write + 1) read'
    ]
  ]
]

-- Each round of the outer loop moves `read`, so the length is fuel enough.
unfoldable pub compact : List PixelData → Option (List PixelData)
unfolding compact_loop copy_down absorb_loop absorb
compact out = compact_loop (suc (length out)) out 0 0

module _ (h : TrainMap) (sorting : UnstableSort) where
  unfoldable pub rebuild_clusters : h.Map → MapMode → Option (List PixelData)
  unfolding compact visible
  rebuild_clusters m mode = compact (sorting.sort (visible mode (h.entries m)))
