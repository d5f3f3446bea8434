-- ===== src/Firmware.antt =====
-- The tasks, the snapshot buffers and the display together: feed.rs, ns_api.rs, map_mode.rs and display.rs, in steps.
pub mod Handover
pub mod Tracked
pub mod Shown
pub mod Lights
use mathlib.Core.Bool.{Bool}
use ns_pixels.Prelude.{ℕ, ◌≡◌, Option, none, some, List, []}
use ns_pixels.Extern.Clock.{Clock}
use ns_pixels.Extern.Floats.{Floats}
use ns_pixels.Extern.Heapless.{BoundedVec}
use ns_pixels.Extern.Sorting.{UnstableSort}
use ns_pixels.Extern.Inflate.{Inflater}
use ns_pixels.Extern.Gateway.{Gateway}
use ns_pixels.MapMode.{MapMode}
use ns_pixels.Train.{PixelData}
use ns_pixels.Registry.{TrainMap}
use ns_pixels.Snapshot.{rebuild_clusters}
use ns_pixels.XmlParser.{Token}
use ns_pixels.NsApi.Fetch.{TrainInfo, JourneyResp}
use ns_pixels.Accel.{Direction, x_up}
use ns_pixels.Display.{DisplayState, frame}
use ns_pixels.Exchange.{
  Producer, Buffers, started, held, try_take_free_clusters, rebuild_into, publish_clusters,
  take_fresh_clusters, redraw,
}
use ns_pixels.System.{World, at_start}
use ns_pixels.System

-- What the tasks share, the buffers, and the direction of the display task.
pub record Firmware (Map : Type 0) : Type 0 where
  pub world : World Map
  pub buffers : Buffers
  pub direction : Direction

-- What stands in the fresh buffer, if there is one.
abbrev pub fresh_content : Buffers → Option (List PixelData)
fresh_content s = elim s.fresh [ none ↦ none | some b ↦ some (s.content b) ]

-- A frame of the display task up to the drawing, on the buffers.
abbrev pub frame_buffers : Direction → Direction → Buffers → Buffers
frame_buffers from_dir to_dir s =
    redraw
      (frame (fresh_content s) to_dir
        (record { clusters = s.content s.clusters; direction = from_dir })).clusters
      (take_fresh_clusters s)

module _ (h : TrainMap) (vec : BoundedVec) (c : Clock) (fl : Floats) (sorting : UnstableSort)
    (inf : Inflater) (tokenize : List ℕ → List (Option Token)) (parse_f32 : List ℕ → Option fl.F32)
    (gw : Gateway TrainInfo JourneyResp) where
  open h use {Map}

  abbrev pub booted : Firmware Map
  booted = record {
    world = at_start h vec c fl sorting inf tokenize parse_f32 gw;
    buffers = started;
    direction = x_up;
  }

  -- A step of a task on what the tasks share; a producer's snapshot of the registry, in a buffer that it took before
  -- the lock; its publication; a frame.
  pub data Step (f : Firmware Map) : Firmware Map → Type 0 where
    task :
        (w : World Map)
        → System.Step h vec c fl sorting inf tokenize parse_f32 gw f.world w
        → Step f (record f { world = w })
    prepare :
        (p : Producer) (b : ℕ) (mode : MapMode) (new : List PixelData)
        → f.buffers.free ≡ some b
        → held p f.buffers ≡ none
        → rebuild_clusters h sorting f.world.trains mode ≡ some new
        → Step f (record f { buffers = rebuild_into p new (try_take_free_clusters p f.buffers) })
    publish : (p : Producer) → Step f (record f { buffers = publish_clusters p f.buffers })
    next_frame :
        (to_dir : Direction)
        → Step f
            (record f { buffers = frame_buffers f.direction to_dir f.buffers; direction = to_dir })

  pub data Reach : Firmware Map → Type 0 where
    start : Reach booted
    later : {f g : Firmware Map} → Reach f → Step f g → Reach g
