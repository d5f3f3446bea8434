-- ===== src/Exchange/Republish.antt =====
-- `publish_snapshot` of ns_api.rs and `republish` of map_mode.rs: from the registry to what the display has.
use mathlib.Core.Bool.{true}
use ns_pixels.Prelude.{ℕ, ◌<◌, ◌≡◌, ◌↔◌, subst, sym, Option, none, some, List, arith}
use ns_pixels.Extern.Sorting.{UnstableSort}
use ns_pixels.Projection.{PixelCoord, display_side, as_u16}
use ns_pixels.MapMode.{MapMode, canvas_to_display}
use ns_pixels.Train.{TrainType, TrainState, PixelData}
use ns_pixels.Train.Masks.{type_index}
use ns_pixels.Registry.{TrainMap}
use ns_pixels.Snapshot.{rebuild_clusters}
use ns_pixels.Snapshot.Content.{any, shows}
use ns_pixels.Snapshot.View.{rebuild_clusters-Strict, rebuild_clusters_types}
use ns_pixels.Exchange.{
  Producer, feed, ns_api, map_mode, Buffers, held, try_take_free_clusters, rebuild_into,
  publish_clusters, take_fresh_clusters, Reach, take, rebuild, publish, later,
}
use ns_pixels.Exchange.Returning.{published_shown}

take-held :
    (p : Producer) (s : Buffers) (b : ℕ)
    → s.free ≡ some b
    → held p (try_take_free_clusters p s) ≡ some b
unfolding try_take_free_clusters
take-held feed s b e = ground (arith, e)
take-held ns_api s b e = ground (arith, e)
take-held map_mode s b e = ground (arith, e)

module _ (h : TrainMap) (sorting : UnstableSort) where
  open h use {Map, get}

  -- A registry is turned into a snapshot when a buffer is free, else nothing is done; none stands for a panic.
  unfoldable pub publish_snapshot : Producer → Map → MapMode → Buffers → Option Buffers
  publish_snapshot p m mode s = elim s.free [
    | none ↦ some s
    | some b ↦ elim (rebuild_clusters h sorting m mode) [
      | none ↦ none
      | some new ↦ some (publish_clusters p (rebuild_into p new (try_take_free_clusters p s)))
    ]
  ]

  -- The controller's, with the mode that is current under the lock.
  unfoldable pub republish : Map → MapMode → Buffers → Option Buffers
  republish m mode s = publish_snapshot map_mode m mode s

  -- What the display has after its next frame has begun.
  abbrev pub displayed : Buffers → List PixelData
  displayed s = (take_fresh_clusters s).content (take_fresh_clusters s).clusters

  publish_run :
      (p : Producer) (m : Map) (mode : MapMode) (s : Buffers) (b : ℕ) (new : List PixelData)
      → s.free ≡ some b
      → rebuild_clusters h sorting m mode ≡ some new
      → publish_snapshot p m mode s
        ≡ some (publish_clusters p (rebuild_into p new (try_take_free_clusters p s)))
  unfolding publish_snapshot
  publish_run p m mode s b new e f = ground (arith, e, f)

  -- Take a producer that holds no buffer, in a reachable state in which one is free. Then its publication ends,
  -- in a reachable state, and when the display's next frame begins, what the display has is the registry in the
  -- mode given: a pixel has the bit of a train type exactly when some train of that type is projected to it.
  pub publish_snapshot-displayed :
      {s : Buffers} (p : Producer) (m : Map) (mode : MapMode) (b : ℕ)
      → Reach s
      → held p s ≡ none
      → s.free ≡ some b
      → (s' : Buffers) × (publish_snapshot p m mode s ≡ some s')
        × Reach s'
        × ((d : PixelCoord) (t : TrainType)
            → d.x < display_side
            → d.y < display_side
            → (any (shows (λ e. e.types) (as_u16 d) (type_index t)) (displayed s') ≡ true) ↔ (
                (j : ℕ) × (v : TrainState) × (get m j ≡ some v)
                × (canvas_to_display v.pixel mode ≡ some d)
                × (v.typ ≡ t)))
  publish_snapshot-displayed {s} p m mode b r idle e =
      let (new, f, _, _, _) = rebuild_clusters-Strict h sorting m mode in
      let taken = later r (take p idle) in
      let (same, _) = published_shown p b new taken (take-held p s b e) in
      (
        _,
        publish_run p m mode s b new e f,
        later (later taken (rebuild p new)) (publish p),
        λ d t bx by.
            subst
              (λ (out : List PixelData).
                (any (shows (λ e. e.types) (as_u16 d) (type_index t)) out ≡ true) ↔ (
                  (j : ℕ) × (v : TrainState) × (get m j ≡ some v)
                  × (canvas_to_display v.pixel mode ≡ some d)
                  × (v.typ ≡ t)))
              (sym same) (rebuild_clusters_types h sorting m mode d t new f bx by),
      )
