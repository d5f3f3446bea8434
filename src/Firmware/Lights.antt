-- ===== src/Firmware/Lights.antt =====
-- What is lit, in every state that the firmware reaches.
use ns_pixels.Prelude.{
  arith, ℕ, suc, ◌+◌, ◌<◌, ◌≤◌, ◌≡◌, sym, ap, ◌∙◌, inl, inr, true, false, Option, some, List, [],
  length,
}
use ns_pixels.Extern.Clock.{Clock}
use ns_pixels.Extern.Floats.{Floats}
use ns_pixels.Extern.Heapless.{BoundedVec}
use ns_pixels.Extern.Sorting.{UnstableSort}
use ns_pixels.Extern.Inflate.{Inflater}
use ns_pixels.Extern.Gateway.{Gateway}
use ns_pixels.Projection.{PixelCoord, display_side}
use ns_pixels.MapMode.{MapMode, canvas_to_display}
use ns_pixels.Train.{TrainType, TrainState, PixelData, type_as_bit}
use ns_pixels.Train.Masks.{type_index}
use ns_pixels.Registry.{TrainMap}
use ns_pixels.Snapshot.Content.{any}
use ns_pixels.XmlParser.{Token}
use ns_pixels.NsApi.Fetch.{TrainInfo, JourneyResp}
use ns_pixels.Accel.{x_up}
use ns_pixels.Display.{rotate, frame, take_fresh, by_type, global_pulse, DisplayState}
use ns_pixels.Display.Rotation.{seen_x, seen_y}
use ns_pixels.Display.Colors.{Rgb, slot_ms, fade_ms, active, color_for_type_bit, draw_global_pulse}
use ns_pixels.Display.Cluster.{draw_trains}
use ns_pixels.Display.Turns.{moment}
use ns_pixels.Display.Lit.{lit}
use ns_pixels.Picture.{pulse_types}
use ns_pixels.System.{World}
use ns_pixels.System
use ns_pixels.System.Rows.{IsRow}
use ns_pixels.System.Sound.{Reach-IsRow}
use ns_pixels.Firmware.{Firmware, Reach}
use ns_pixels.Firmware.Shown.{Leads, Reach-shown}

module _ (h : TrainMap) (vec : BoundedVec) (c : Clock) (fl : Floats) (sorting : UnstableSort)
    (inf : Inflater) (tokenize : List ℕ → List (Option Token)) (parse_f32 : List ℕ → Option fl.F32)
    (gw : Gateway TrainInfo JourneyResp) where
  open h use {Map, get}

  -- What the display task draws `d` milliseconds into the turn `k` of the global pulse by type.
  abbrev pub pulse_by_type : Firmware Map → ℕ → ℕ → ℕ → List (ℕ × ℕ × Rgb)
  pulse_by_type f cycle k d =
      draw_trains (record { viz = global_pulse; col = by_type })
        (moment (length (active by_type)) cycle k d) (f.buffers.content f.buffers.clusters)

  dark_pulse :
      (f : Firmware Map) (x y cycle k d : ℕ) (colour : Rgb)
      → f.buffers.content f.buffers.clusters ≡ []
      → any (lit x y colour) (pulse_by_type f cycle k d) ≡ false
  unfolding draw_trains draw_global_pulse
  dark_pulse f x y cycle k d colour e =
      ap
        (λ (es : List PixelData).
          any (lit x y colour)
            (draw_trains (record { viz = global_pulse; col = by_type }) (moment 7 cycle k d) es))
        e

  drawn_frame :
      (f : Firmware Map) (out : List PixelData) (st : DisplayState)
      → f.buffers.content f.buffers.clusters ≡ rotate out x_up f.direction
      → f.buffers.content f.buffers.clusters ≡ (frame (some out) f.direction st).clusters
  unfolding frame take_fresh
  drawn_frame f out st e = e

  -- In every state that the firmware reaches, whatever the order of the steps of its tasks: when the global pulse by
  -- type sets the place of a display pixel under the current direction to the colour of a known train type, in the
  -- turn of that type and before the fade, then a train of that type was projected to that pixel, in some view, in a
  -- registry that the tasks have reached and that has led to the present one, and was seen by the time of it.
  pub Reach-lights :
      {f : Firmware Map} (p : PixelCoord) (t : TrainType) (cycle k d : ℕ)
      → Reach h vec c fl sorting inf tokenize parse_f32 gw f
      → p.x < display_side
      → p.y < display_side
      → type_index t ≡ suc k
      → d + fade_ms ≤ slot_ms
      → any
          (lit
            (seen_x f.direction p.x p.y)
            (seen_y f.direction p.x p.y)
            (color_for_type_bit (type_as_bit t)))
          (pulse_by_type f cycle k d)
        ≡ true
      → (v : World Map) × (mode : MapMode) × (j : ℕ) × (s : TrainState) × Leads h vec c fl sorting
          inf tokenize parse_f32 gw v f.world
        × System.Reach h vec c fl sorting inf tokenize parse_f32 gw v
        × (get v.trains j ≡ some s)
        × (canvas_to_display s.pixel mode ≡ some p)
        × (s.typ ≡ t)
        × IsRow v.time s
  Reach-lights {f} p t cycle k d r hx hy turn steady there =
      elim (Reach-shown h vec c fl sorting inf tokenize parse_f32 gw r) [
        | inl dark ↦
            let off =
              dark_pulse f (seen_x f.direction p.x p.y) (seen_y f.direction p.x p.y) cycle k d
                (color_for_type_bit (type_as_bit t)) dark in
            absurd (ground (arith, off, there))
        | inr (v, mode, out, leads, reached, e, has) ↦
            let st : DisplayState = record { clusters = []; direction = x_up } in
            let (fwd, _) =
              pulse_types h sorting v.trains mode st f.direction out p t cycle k d e hx hy turn
                steady in
            let (j, s, row, shown, typ) = fwd (
              ap
                (λ (es : List PixelData).
                  any
                    (lit (seen_x f.direction p.x p.y) (seen_y f.direction p.x p.y)
                      (color_for_type_bit (type_as_bit t)))
                    (draw_trains (record { viz = global_pulse; col = by_type }) (moment 7 cycle k d)
                      es))
                (sym (drawn_frame f out st has))
              ∙ there) in
            (
              v,
              mode,
              j,
              s,
              leads,
              reached,
              row,
              shown,
              typ,
              (Reach-IsRow h vec c fl sorting inf tokenize parse_f32 gw reached).0 j s row,
            )
      ]
