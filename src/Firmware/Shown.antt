-- ===== src/Firmware/Shown.antt =====
-- What the display has in every state that the firmware reaches: a registry of the past, turned with the board.
use ns_pixels.Prelude.{ℕ, ◌≡◌, ◌⊎◌, inl, inr, refl, ap, ◌∙◌, Option, some, List, []}
use ns_pixels.Extern.Clock.{Clock}
use ns_pixels.Extern.Floats.{Floats}
use ns_pixels.Extern.Heapless.{BoundedVec}
use ns_pixels.Extern.Sorting.{UnstableSort}
use ns_pixels.Extern.Inflate.{Inflater}
use ns_pixels.Extern.Gateway.{Gateway}
use ns_pixels.MapMode.{MapMode}
use ns_pixels.Train.{PixelData}
use ns_pixels.Registry.{TrainMap}
use ns_pixels.Snapshot.{rebuild_clusters}
use ns_pixels.Snapshot.Placed.{AllPlaced, rebuild_clusters-AllPlaced}
use ns_pixels.XmlParser.{Token}
use ns_pixels.NsApi.Fetch.{TrainInfo, JourneyResp}
use ns_pixels.Accel.{x_up}
use ns_pixels.Display.{rotate}
use ns_pixels.Exchange.{Buffers}
use ns_pixels.System.{World, at_start}
use ns_pixels.System
use ns_pixels.Firmware.{Firmware, task, prepare, publish, next_frame, Reach, start, later}
use ns_pixels.Firmware.Tracked.{
  PastOrEmpty, Tracked, started-Tracked, rebuild_into-Tracked, publish_clusters-Tracked,
  frame_buffers-Tracked, Tracked-stays,
}

module _ (h : TrainMap) (vec : BoundedVec) (c : Clock) (fl : Floats) (sorting : UnstableSort)
    (inf : Inflater) (tokenize : List ℕ → List (Option Token)) (parse_f32 : List ℕ → Option fl.F32)
    (gw : Gateway TrainInfo JourneyResp) where
  open h use {Map}

  -- The world has been `v` before it is `w`, or still is.
  pub data Leads (v : World Map) : World Map → Type 0 where
    here : Leads v v
    onward :
        {w x : World Map}
        → Leads v w
        → System.Step h vec c fl sorting inf tokenize parse_f32 gw w x
        → Leads v x

  -- The snapshot of a registry of the past.
  abbrev pub Traced : List PixelData → World Map → Type 0
  Traced out w =
      (v : World Map) × (mode : MapMode) × Leads v w
      × System.Reach h vec c fl sorting inf tokenize parse_f32 gw v
      × (rebuild_clusters h sorting v.trains mode ≡ some out)

  Traced-placed : (w : World Map) (out : List PixelData) → Traced out w → AllPlaced out
  Traced-placed w out (v, mode, _, _, e) = rebuild_clusters-AllPlaced h sorting v.trains mode out e

  abbrev Inv : Firmware Map → Type 0
  Inv f =
      System.Reach h vec c fl sorting inf tokenize parse_f32 gw f.world
      × Tracked (λ out. Traced out f.world) f.direction f.buffers

  Reach-Inv : {f : Firmware Map} → Reach h vec c fl sorting inf tokenize parse_f32 gw f → Inv f
  Reach-Inv start = (System.start, started-Tracked _)
  Reach-Inv (later {f} r (task w s)) =
      let (reached, tracked) = Reach-Inv r in
      (
        System.later reached s,
        Tracked-stays (λ out. Traced out f.world) (λ out. Traced out w)
            (λ out (u, mode, l, q, e). (u, mode, onward l s, q, e)) f.direction f.buffers tracked,
      )
  Reach-Inv (later {f} r (prepare p b mode new free idle done)) =
      let (reached, tracked) = Reach-Inv r in
      (
        reached,
        rebuild_into-Tracked (λ out. Traced out f.world) f.direction f.buffers p b new free
            (f.world, mode, here, reached, done) tracked,
      )
  Reach-Inv (later {f} r (publish p)) =
      let (reached, tracked) = Reach-Inv r in
      (
        reached,
        publish_clusters-Tracked (λ out. Traced out f.world) f.direction f.buffers p tracked,
      )
  Reach-Inv (later {f} r (next_frame b)) =
      let (reached, tracked) = Reach-Inv r in
      (
        reached,
        frame_buffers-Tracked (λ out. Traced out f.world) (Traced-placed f.world) f.direction b
            f.buffers tracked,
      )

  -- In every state that the firmware reaches, whatever the order of the steps of its tasks, what the display has
  -- either is empty, or is the snapshot of a registry that the tasks have reached and that has led to the present
  -- one, in some view, turned for the direction that the display task has last read.
  pub Reach-shown :
      {f : Firmware Map}
      → Reach h vec c fl sorting inf tokenize parse_f32 gw f
      → (f.buffers.content f.buffers.clusters ≡ [])
        ⊎ ((v : World Map) × (mode : MapMode) × (out : List PixelData) × Leads v f.world
            × System.Reach h vec c fl sorting inf tokenize parse_f32 gw v
            × (rebuild_clusters h sorting v.trains mode ≡ some out)
            × (f.buffers.content f.buffers.clusters ≡ rotate out x_up f.direction))
  Reach-shown {f} r =
      let (_, (place, d, content, l, e, (out, has, shown), there)) = Reach-Inv r in
      told out (ap (λ (s : Buffers). s.content s.clusters) e ∙ has) shown
    where
      told :
          (out : List PixelData)
          → f.buffers.content f.buffers.clusters ≡ rotate out x_up f.direction
          → PastOrEmpty (λ out. Traced out f.world) out
          → (f.buffers.content f.buffers.clusters ≡ [])
            ⊎ ((v : World Map) × (mode : MapMode) × (out : List PixelData) × Leads v f.world
                × System.Reach h vec c fl sorting inf tokenize parse_f32 gw v
                × (rebuild_clusters h sorting v.trains mode ≡ some out)
                × (f.buffers.content f.buffers.clusters ≡ rotate out x_up f.direction))
      told out has (inl none_yet) =
          inl (has ∙ ap (λ o. rotate o x_up f.direction) none_yet ∙ unfold rotate in refl)
      told out has (inr (v, mode, leads, reached, e)) = inr (v, mode, out, leads, reached, e, has)
