-- ===== src/System.antt =====
-- The tasks over the shared registry: feed.rs and ns_api.rs, step by step. What is done under one lock is one
-- step, so the requests of a round of the NS API task are steps of their own, and messages come between them.
pub mod Rows
pub mod Sweeps
pub mod Sound
use mathlib.Core.Bool.{Bool}
use ns_pixels.Prelude.{ℕ, ◌+◌, ◌≤◌, ◌≡◌, Option, some, List, []}
use ns_pixels.Extern.Clock.{Clock}
use ns_pixels.Extern.Floats.{Floats}
use ns_pixels.Extern.Heapless.{BoundedVec}
use ns_pixels.Extern.Sorting.{UnstableSort}
use ns_pixels.Extern.Inflate.{Inflater}
use ns_pixels.Extern.Gateway.{Gateway}
use ns_pixels.MapMode.{MapMode}
use ns_pixels.Registry.{TrainMap}
use ns_pixels.XmlParser.{Token}
use ns_pixels.Feed.{FeedResult, on_message}
use ns_pixels.NsApi.Batches.{Batches, build_batches}
use ns_pixels.NsApi.Fetch.{TrainInfo, JourneyResp, fetch_types_on, fetch_service_on}

-- The registry, the channel of new trains, and the time.
pub record World (Map : Type 0) : Type 0 where
  pub trains : Map
  pub queue : List ℕ
  pub time : ℕ

module _ (h : TrainMap) (vec : BoundedVec) (c : Clock) (fl : Floats) (sorting : UnstableSort)
    (inf : Inflater) (tokenize : List ℕ → List (Option Token)) (parse_f32 : List ℕ → Option fl.F32)
    (gw : Gateway TrainInfo JourneyResp) where
  open h use {Map, empty}

  -- `main`: an empty registry and an empty channel.
  abbrev pub at_start : World Map
  at_start = record { trains = empty; queue = []; time = 0 }

  -- One step of a task, or the passing of time. The feed task reads the time before it waits for the lock, so the
  -- message's time may have passed by then; a sweep reads it under the lock.
  pub data Step (w : World Map) : World Map → Type 0 where
    pass : (d : ℕ) → Step w (record w { time = w.time + d })
    message :
        (frames : List (List ℕ)) (state : inf.S) (now : ℕ) (has_buffer : Bool) (mode : MapMode)
        (r : FeedResult Map)
        → now ≤ w.time
        → on_message h vec c fl sorting inf tokenize parse_f32 frames state now has_buffer mode
            w.queue w.trains
          ≡ some r
        → Step w (record w { trains = r.trains; queue = r.queue })
    sweep :
        (b : Batches)
        → build_batches h vec c w.trains w.time w.queue ≡ some b
        → Step w (record w { queue = b.queue })
    types :
        (conn : gw.Conn) (batch : List ℕ)
        → Step w (record w { trains = (fetch_types_on h vec c gw conn batch w.trains).1 })
    service :
        (conn : gw.Conn) (number : ℕ)
        → Step w (record w { trains = (fetch_service_on h vec c gw conn number w.trains).1 })

  pub data Reach : World Map → Type 0 where
    start : Reach at_start
    later : {v w : World Map} → Reach v → Step v w → Reach w
