-- ===== src/Witnesses/Exchange.antt =====
-- The theorems on the hand-over of buffers.
use ns_pixels.Prelude.{◌≡◌, ◌≢◌, refl, none, some}
use ns_pixels.Exchange.{
  feed, ns_api, map_mode, Buffers, started, try_take_free_clusters, Reach, take, start, later,
}
use ns_pixels.Exchange.Ownership.{held_alone}
use ns_pixels.Exchange.Returning.{Returns, Reach-Returns}
use ns_pixels.Exchange.Republish.{publish_snapshot, displayed, publish_snapshot-displayed}
use ns_pixels.Extern.InsertionSort.{insertion_sort}
use ns_pixels.Projection.{PixelCoord, as_u16}
use ns_pixels.MapMode.{randstad, canvas_to_display}
use ns_pixels.Train.{TrainType, TrainState}
use ns_pixels.Train.Masks.{type_index}
use ns_pixels.Snapshot.Content.{any, shows}
use ns_pixels.Witnesses.Samples.{trains, two_trains}
use mathlib.Core.Bool.{true}
use ns_pixels.Prelude.{ℕ, ◌<◌, ◌↔◌}
use ns_pixels.Exchange.Frames.{
  FrameReach, frames_started, send, send_frame_buffer, WillDraw, FrameReach-WillDraw,
}

-- The feed task has taken the free buffer.
abbrev feeding : Buffers
feeding = try_take_free_clusters feed started

abbrev feeding_reached : Reach feeding
feeding_reached = later start (take feed refl)

held_alone_example :
    (1 ≢ feeding.clusters)
    × (feeding.fresh ≡ none)
    × (feeding.free ≡ none)
    × (feeding.ns_api_buf ≡ none)
unfolding try_take_free_clusters
held_alone_example = held_alone feed ns_api 1 feeding_reached (λ e. cc) refl

Reach-Returns_example : Returns feeding
Reach-Returns_example = Reach-Returns feeding_reached

FrameReach-WillDraw_example : WillDraw (send_frame_buffer frames_started)
FrameReach-WillDraw_example = FrameReach-WillDraw (FrameReach.later FrameReach.start send)

-- The controller republishes with the second buffer, which is free at first.
publish_snapshot-displayed_example :
    (s' : Buffers) × (publish_snapshot trains insertion_sort map_mode two_trains randstad started
      ≡ some s')
    × Reach s'
    × ((d : PixelCoord) (t : TrainType)
        → d.x < 64
        → d.y < 64
        → (any (shows (λ e. e.types) (as_u16 d) (type_index t)) (displayed trains insertion_sort s')
            ≡ true)
          ↔ ((j : ℕ) × (v : TrainState) × (trains.get two_trains j ≡ some v)
              × (canvas_to_display v.pixel randstad ≡ some d)
              × (v.typ ≡ t)))
publish_snapshot-displayed_example =
    publish_snapshot-displayed trains insertion_sort map_mode two_trains randstad 1 start refl refl
