-- ===== src/Witnesses/Picture.antt =====
-- The theorem on what is drawn, for a train of a known type on a board that is turned.
use ns_pixels.Prelude.{ℕ, ◌≡◌, ◌↔◌, refl, some, List, [], ◌∷◌, arith}
use ns_pixels.Extern.AssocMap.{AssocMap}
use ns_pixels.Extern.InsertionSort.{insertion_sort}
use ns_pixels.MapMode.{netherlands, canvas_to_display}
use ns_pixels.Train.{TrainState, PixelData, virm, type_as_bit}
use ns_pixels.Registry.{max_trains}
use ns_pixels.Snapshot.{rebuild_clusters}
use ns_pixels.Snapshot.View.{rebuild_clusters-Strict}
use ns_pixels.Accel.{x_up, y_down}
use ns_pixels.Display.{by_type, DisplayState}
use ns_pixels.Display.Colors.{color_for_type_bit}
use ns_pixels.Picture.{drawn_in_turn, Sets, pulse_types}
use ns_pixels.Witnesses.Samples.{trains, known_train}
use ns_pixels.Witnesses.Snapshot.{shown_at}

abbrev one_train : AssocMap max_trains TrainState
one_train = ((6441, known_train) ∷ [], (refl, tt), omega arith)

abbrev dark : DisplayState
dark = record { clusters = []; direction = x_up }

-- The snapshot of the train, with its keys in order.
abbrev shown : List PixelData
shown = (rebuild_clusters-Strict trains insertion_sort one_train netherlands).0

shown_rebuilt : rebuild_clusters trains insertion_sort one_train netherlands ≡ some shown
shown_rebuilt = (rebuild_clusters-Strict trains insertion_sort one_train netherlands).1

-- A thousand milliseconds into the sixth turn of the third cycle.
pulse_types_example :
    Sets trains insertion_sort one_train netherlands dark y_down shown_at
      (color_for_type_bit (type_as_bit virm))
      (drawn_in_turn trains insertion_sort one_train netherlands dark y_down by_type shown 2 5 1000)
    ↔ ((j : ℕ) × (s : TrainState) × (trains.get one_train j ≡ some s)
        × (canvas_to_display s.pixel netherlands ≡ some shown_at)
        × (s.typ ≡ virm))
pulse_types_example =
    pulse_types trains insertion_sort one_train netherlands dark y_down shown shown_at virm 2 5 1000
      shown_rebuilt (omega arith) (omega arith) refl (omega arith)
