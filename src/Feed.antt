-- ===== src/Feed.antt =====
-- feed.rs: what the feed task does with a message. The tokenizer and `f32::from_str` are arguments, and so are
-- the time that is read, whether a snapshot buffer was free, and the map mode.
pub mod Sightings
pub mod Queue
pub mod Newcomers
pub mod Rounds
pub mod Stream
use mathlib.Core.Bool.{Bool, true, false, ◌&&◌, not}
use ns_pixels.Prelude.{
  ℕ, zero, suc, ◌+◌, ◌*◌, Option, none, some, List, [], ◌∷◌, ◌++◌, if◌then◌else◌, ltb, ◌==◌, length,
  get_or,
}
use ns_pixels.Extern.Clock.{Clock}
use ns_pixels.Extern.Floats.{Floats}
use ns_pixels.Extern.Heapless.{BoundedVec}
use ns_pixels.Extern.Sorting.{UnstableSort}
use ns_pixels.Extern.Inflate.{Inflater}
use ns_pixels.Projection.{PixelCoord, wgs84_to_canvas}
use ns_pixels.MapMode.{MapMode}
use ns_pixels.Train.{PixelData}
use ns_pixels.Registry.{
  TrainMap, UnknownAxis, type_axis, service_axis, len, upsert, evict_older_than, unknown_count,
  unknown_numbers,
}
use ns_pixels.Snapshot.{rebuild_clusters}
use ns_pixels.Decompress.{Inflated, inflate_gzip}
use ns_pixels.XmlParser.{Train, Token, parse}
use ns_pixels.NsApi.{queue_capacity}

abbrev pub stale_after_s : ℕ
stale_after_s = 300

abbrev pub xml_buf_len : ℕ
xml_buf_len = 400 * 1024

abbrev pub unknown_list_threshold : ℕ
unknown_list_threshold = 5

-- The registry and the queue under the loop over the trains, with the two counts of it.
pub record Update (Map : Type 0) : Type 0 where
  pub trains : Map
  pub queue : List ℕ
  pub new_count : ℕ
  pub dropped : ℕ

-- What a message leaves, with what is logged of it.
pub record FeedResult (Map : Type 0) : Type 0 where
  pub trains : Map
  pub queue : List ℕ
  pub new_count : ℕ
  pub dropped : ℕ
  pub evicted : ℕ
  pub snapshot : Option (List PixelData)
  pub registry_len : ℕ
  pub unknowns : ℕ × ℕ
  pub unknown_types : List ℕ
  pub unknown_services : List ℕ

module _ (h : TrainMap) (vec : BoundedVec) (c : Clock) (fl : Floats) where
  open h use {Map}

  -- `try_send`, which fails on a full channel.
  abbrev pub send_new : ℕ → Update Map → Update Map
  send_new number u =
      if ltb (length u.queue) queue_capacity
      then record u { queue = u.queue ++ number ∷ []; new_count = suc u.new_count }
      else record u { new_count = suc u.new_count; dropped = suc u.dropped }

  -- The loop over the trains of the message.
  unfoldable pub update_trains : ℕ → List (Train fl.F32) → Update Map → Update Map
  update_trains now [] u = u
  update_trains now (t ∷ ts) u =
      let (trains, is_new) =
        upsert h vec c u.trains t.number (wgs84_to_canvas fl t.lat t.lon) now in
      update_trains now ts (
        if is_new
        then send_new t.number (record u { trains = trains })
        else record u { trains = trains })

  -- `now.checked_sub(STALE_AFTER).unwrap_or(now)`
  unfoldable pub cutoff_of : ℕ → ℕ
  cutoff_of now = elim (c.checked_sub now (c.from_secs stale_after_s)) [
    | none ↦ now
    | some cutoff ↦ cutoff
  ]

  -- The eviction, which a cutoff that is `now` skips.
  unfoldable pub evict_stale : ℕ → Map → Map × ℕ
  unfolding cutoff_of
  evict_stale now m =
      if not (cutoff_of now == now) then evict_older_than h vec c m (cutoff_of now) else (m, 0)

  -- The numbers of an axis are listed when they are few.
  unfoldable pub list_unknown : UnknownAxis → ℕ → Map → List ℕ
  list_unknown axis count m =
      if ltb 0 count && ltb count unknown_list_threshold
      then unknown_numbers h vec c m unknown_list_threshold axis
      else []

  module _ (sorting : UnstableSort) where
    -- What is done under the lock.
    unfoldable pub apply_trains :
        List (Train fl.F32) → ℕ → Bool → MapMode → List ℕ → Map → FeedResult Map
    unfolding update_trains evict_stale list_unknown
    apply_trains trains now has_buffer mode queue m =
        let (kept, evicted) = evict_stale now m in
        let u =
          update_trains now trains
            (record { trains = kept; queue = queue; new_count = 0; dropped = 0 }) in
        let unknowns = unknown_count h vec c u.trains in
        record {
          trains = u.trains;
          queue = u.queue;
          new_count = u.new_count;
          dropped = u.dropped;
          evicted = evicted;
          snapshot = if has_buffer then rebuild_clusters h sorting u.trains mode else none;
          registry_len = len h vec c u.trains;
          unknowns = unknowns;
          unknown_types = list_unknown type_axis unknowns.0 u.trains;
          unknown_services = list_unknown service_axis unknowns.1 u.trains;
        }

    module _ (inf : Inflater) (tokenize : List ℕ → List (Option Token))
        (parse_f32 : List ℕ → Option fl.F32) where
      -- The trains of a message, or none when it has too few frames or does not decompress.
      unfoldable pub message_trains : List (List ℕ) → inf.S → Option (List (Train fl.F32))
      message_trains frames state =
          if ltb (length frames) 2
          then none
          else elim (inflate_gzip inf xml_buf_len (get_or frames 1 []) state) [
            | Inflated.ok xml ↦ some (parse parse_f32 (tokenize xml))
            | Inflated.err e ↦ none
            | Inflated.stalled ↦ none
            | Inflated.out_of_range ↦ none
          ]

      -- A round of the loop; a message that is passed over changes nothing.
      unfoldable pub on_message :
          List (List ℕ) → inf.S → ℕ → Bool → MapMode → List ℕ → Map → Option (FeedResult Map)
      unfolding message_trains apply_trains
      on_message frames state now has_buffer mode queue m = elim (message_trains frames state) [
        | none ↦ none
        | some trains ↦ some (apply_trains trains now has_buffer mode queue m)
      ]
