-- ===== src/Witnesses/Snapshot.antt =====
-- The theorems on the snapshot.
use mathlib.Core.Bool.{true}
use ns_pixels.Prelude.{ℕ, ◌↔◌, ◌≡◌, ◌≤◌, some, List, [], ◌∷◌, refl, arith, length}
use ns_pixels.Extern.InsertionSort.{insertion_sort}
use ns_pixels.Projection.{PixelCoord, as_u16}
use ns_pixels.MapMode.{netherlands, canvas_to_display}
use ns_pixels.Train.{TrainType, TrainState, PixelData}
use ns_pixels.Train.Masks.{type_index}
use ns_pixels.Registry.{max_trains}
use ns_pixels.Snapshot.{visible, rebuild_clusters}
use ns_pixels.Snapshot.Content.{any, shows, StrictlyAscending}
use ns_pixels.Snapshot.View.{rebuild_clusters-Strict, rebuild_clusters_types}
use ns_pixels.Snapshot.Extensional.{rebuild_clusters_equal}
use ns_pixels.Extern.AssocMap.{AssocMap}
use ns_pixels.Witnesses.Samples.{trains, two_trains, fresh_train, stale_train}

-- The display pixel of Utrecht in the country view.
abbrev pub shown_at : PixelCoord
shown_at = record { x = 31; y = 30 }

rebuild_clusters-Strict_example :
    (out : List PixelData) × (rebuild_clusters trains insertion_sort two_trains netherlands
      ≡ some out)
    × StrictlyAscending out
    × (length (visible netherlands (trains.entries two_trains)) ≤ max_trains)
    × (length out ≤ max_trains)
rebuild_clusters-Strict_example =
    rebuild_clusters-Strict trains insertion_sort two_trains netherlands

abbrev rebuilt : List PixelData
rebuilt = (rebuild_clusters-Strict trains insertion_sort two_trains netherlands).0

rebuild-rebuilt : rebuild_clusters trains insertion_sort two_trains netherlands ≡ some rebuilt
rebuild-rebuilt = (rebuild_clusters-Strict trains insertion_sort two_trains netherlands).1

rebuild_clusters_types_example :
    (any (shows (λ e. e.types) (as_u16 shown_at) (type_index TrainType.unknown)) rebuilt ≡ true) ↔ (
      (j : ℕ) × (s : TrainState) × (trains.get two_trains j ≡ some s)
      × (canvas_to_display s.pixel netherlands ≡ some shown_at)
      × (s.typ ≡ TrainType.unknown))
rebuild_clusters_types_example =
    rebuild_clusters_types trains insertion_sort two_trains netherlands shown_at TrainType.unknown
      rebuilt rebuild-rebuilt (omega arith) (omega arith)

-- The same rows, listed in the other order.
abbrev swapped : AssocMap max_trains TrainState
swapped = ((7, stale_train) ∷ (6441, fresh_train) ∷ [], (refl, (refl, tt)), omega arith)

rebuild_clusters_equal_example :
    rebuild_clusters trains insertion_sort two_trains netherlands
    ≡ rebuild_clusters trains insertion_sort swapped netherlands
rebuild_clusters_equal_example =
    rebuild_clusters_equal trains trains insertion_sort insertion_sort two_trains swapped
      netherlands (λ j. ground arith)
