-- ===== src/Picture.antt =====
-- From the registry to the LEDs: registry.rs, map_mode.rs and display.rs together. The snapshot is rebuilt for a view,
-- taken by the display task, turned with the board, and drawn by the global pulse.
use ns_pixels.Prelude.{
  ℕ, suc, ◌+◌, ◌<◌, ◌≤◌, ◌≡◌, ◌↔◌, sym, ap, ◌∙◌, true, some, List, arith, get_or, length,
}
use ns_pixels.Extern.Sorting.{UnstableSort}
use ns_pixels.Projection.{PixelCoord, display_side, as_u16}
use ns_pixels.Projection.Key.{as_u16-eq}
use ns_pixels.MapMode.{MapMode, canvas_to_display}
use ns_pixels.Train.{TrainType, ServiceType, TrainState, PixelData, type_as_bit, service_as_bit}
use ns_pixels.Train.Masks.{type_index, service_index}
use ns_pixels.Registry.{TrainMap}
use ns_pixels.Snapshot.{rebuild_clusters}
use ns_pixels.Snapshot.Content.{any, shows}
use ns_pixels.Snapshot.View.{rebuild_clusters_types, rebuild_clusters_services}
use ns_pixels.Snapshot.Placed.{rebuild_clusters-AllPlaced}
use ns_pixels.Accel.{Direction}
use ns_pixels.Display.{
  ColorMode, by_type, by_service, global_pulse, DisplayState, take_fresh, frame,
}
use ns_pixels.Display.Rotation.{seen_x, seen_y}
use ns_pixels.Display.Colors.{
  Rgb, slot_ms, fade_ms, active, color_for, color_for_type_bit, color_for_service_bit, extract,
}
use ns_pixels.Display.Cluster.{draw_trains}
use ns_pixels.Display.Turns.{moment}
use ns_pixels.Display.Bright.{last_turn}
use ns_pixels.Display.Lit.{lit, draw_global_pulse-shows}

type_turn :
    (t : TrainType) (k : ℕ)
    → type_index t ≡ suc k
    → (k < 7) × (get_or (active by_type) k 0 ≡ type_as_bit t)
unfolding type_as_bit
type_turn TrainType.unknown k e = absurd (omega arith)
type_turn _ k e = (omega arith, ground arith)

service_turn :
    (t : ServiceType) (k : ℕ)
    → service_index t ≡ suc k
    → (k < 3) × (get_or (active by_service) k 0 ≡ service_as_bit t)
unfolding service_as_bit
service_turn ServiceType.unknown k e = absurd (omega arith)
service_turn _ k e = (omega arith, ground arith)

module _ (h : TrainMap) (sorting : UnstableSort) (m : h.Map) (mode : MapMode) (st : DisplayState)
    (dir : Direction) where
  open h use {get}

  -- What the display task draws `d` milliseconds into the turn `k` of a cycle, in the frame in which it takes `out`.
  abbrev pub drawn_in_turn : ColorMode → List PixelData → ℕ → ℕ → ℕ → List (ℕ × ℕ × Rgb)
  drawn_in_turn axis out cycle k d =
      draw_trains (record { viz = global_pulse; col = axis })
        (moment (length (active axis)) cycle k d) (frame (some out) dir st).clusters

  -- Some pixel is set where the board's tilt puts `p`, to the colour `c`.
  abbrev pub Sets : PixelCoord → Rgb → List (ℕ × ℕ × Rgb) → Type 0
  Sets p c drawn = any (lit (seen_x dir p.x p.y) (seen_y dir p.x p.y) c) drawn ≡ true

  drawn-shows :
      (axis : ColorMode) (out : List PixelData) (p : PixelCoord) (cycle k d : ℕ)
      → rebuild_clusters h sorting m mode ≡ some out
      → p.x < display_side
      → p.y < display_side
      → k < last_turn axis
      → d + fade_ms ≤ slot_ms
      → any
          (lit
            (seen_x dir p.x p.y)
            (seen_y dir p.x p.y)
            (color_for axis (get_or (active axis) k 0)))
          (drawn_in_turn axis out cycle k d)
        ≡ any (shows (extract axis) (as_u16 p) (suc k)) out
  unfolding draw_trains frame take_fresh
  drawn-shows axis out p cycle k d e hx hy l steady =
      draw_global_pulse-shows axis k cycle d dir p.x p.y out l steady hx hy
        (rebuild_clusters-AllPlaced h sorting m mode out e)
      ∙ ap (λ (c : ℕ). any (shows (extract axis) c (suc k)) out)
          (sym (as_u16-eq p (record { x_byte = omega (arith, hx); y_byte = omega (arith, hy) })))

  -- Take the frame in which the display task takes the snapshot of a registry for a view, in any direction, whatever
  -- it showed before, in the global pulse by type, in the turn of a known train type and before the fade. Then it
  -- sets the place of a display pixel under that direction to the colour of the type exactly when some train of the
  -- type is in the registry and projected to that pixel by the view.
  pub pulse_types :
      (out : List PixelData) (p : PixelCoord) (t : TrainType) (cycle k d : ℕ)
      → rebuild_clusters h sorting m mode ≡ some out
      → p.x < display_side
      → p.y < display_side
      → type_index t ≡ suc k
      → d + fade_ms ≤ slot_ms
      → Sets p (color_for_type_bit (type_as_bit t)) (drawn_in_turn by_type out cycle k d) ↔ (
          (j : ℕ) × (s : TrainState) × (get m j ≡ some s)
          × (canvas_to_display s.pixel mode ≡ some p)
          × (s.typ ≡ t))
  pulse_types out p t cycle k d e hx hy turn steady =
      let (l, colour) = type_turn t k turn in
      let (fwd, bwd) = rebuild_clusters_types h sorting m mode p t out e hx hy in
      let drawn =
        ap
          (λ (b : ℕ).
            any (lit (seen_x dir p.x p.y) (seen_y dir p.x p.y) (color_for_type_bit b))
              (drawn_in_turn by_type out cycle k d))
          (sym colour)
        ∙ drawn-shows by_type out p cycle k d e hx hy l steady
        ∙ ap (λ (i : ℕ). any (shows (λ x. x.types) (as_u16 p) i) out) (sym turn) in
      (λ there. fwd (sym drawn ∙ there), λ train. drawn ∙ bwd train)

  -- The same in the global pulse by service, for a known service category.
  pub pulse_services :
      (out : List PixelData) (p : PixelCoord) (t : ServiceType) (cycle k d : ℕ)
      → rebuild_clusters h sorting m mode ≡ some out
      → p.x < display_side
      → p.y < display_side
      → service_index t ≡ suc k
      → d + fade_ms ≤ slot_ms
      → Sets p (color_for_service_bit (service_as_bit t)) (drawn_in_turn by_service out cycle k d)
        ↔ ((j : ℕ) × (s : TrainState) × (get m j ≡ some s)
            × (canvas_to_display s.pixel mode ≡ some p)
            × (s.service ≡ t))
  pulse_services out p t cycle k d e hx hy turn steady =
      let (l, colour) = service_turn t k turn in
      let (fwd, bwd) = rebuild_clusters_services h sorting m mode p t out e hx hy in
      let drawn =
        ap
          (λ (b : ℕ).
            any (lit (seen_x dir p.x p.y) (seen_y dir p.x p.y) (color_for_service_bit b))
              (drawn_in_turn by_service out cycle k d))
          (sym colour)
        ∙ drawn-shows by_service out p cycle k d e hx hy l steady
        ∙ ap (λ (i : ℕ). any (shows (λ x. x.services) (as_u16 p) i) out) (sym turn) in
      (λ there. fwd (sym drawn ∙ there), λ train. drawn ∙ bwd train)
