-- ===== src/Witnesses/Firmware.antt =====
-- The theorem on the whole firmware: a message, a request for its train's type, a snapshot and a frame.
use ns_pixels.Prelude.{true, sym, ap, ◌∙◌, ℕ, ◌≡◌, refl, some, List, [], ◌∷◌, arith}
use ns_pixels.Prelude.Text.{
  trim, trim_start, trim_end, is_whitespace, to_ascii_uppercase, as_bytes, encode_utf8,
}
use ns_pixels.Extern.AssocMap.{list_vec, microseconds}
use ns_pixels.Extern.InsertionSort.{insertion_sort}
use ns_pixels.Decompress.Utf8.{is_utf8}
use ns_pixels.Projection.{PixelCoord}
use ns_pixels.MapMode.{MapMode, netherlands, canvas_to_display}
use ns_pixels.Train.{PixelData, TrainState, ServiceType, virm}
use ns_pixels.NsApi.Labels.{map_train_type, head_of, type_of_bytes}
use ns_pixels.Decompress.Utf8.{scan}
use ns_pixels.NsApi.Fetch.{fetch_types_on, apply_types, apply_types_body, apply_parsed, apply_infos}
use ns_pixels.Registry.{set_type, stamp_type, upsert, evict_older_than, remove_all, collect_stale}
use ns_pixels.Registry.Attempts.{attempt_offset_s}
use ns_pixels.Train.{new_state}
use ns_pixels.Feed.{apply_trains, evict_stale, update_trains, cutoff_of}
use ns_pixels.Extern.AssocMap.{modify, modify_at, insert, insert_told}
use ns_pixels.Extern.FixedPoint.{fixed_point, is_nan, lift, le, div_ℤ, shrink, as_u8}
use ns_pixels.Prelude.Int.{pos, ◌*ℤ◌, ◌-ℤ◌, ◌+ℤ◌}
use ns_pixels.Projection.{
  wgs84_to_canvas, sat_u8, canvas_px, easting, d_lam_of, d_phi_of, canvas_py, northing,
}
use ns_pixels.Snapshot.{rebuild_clusters}
use ns_pixels.Train.{type_as_bit}
use ns_pixels.Snapshot.View.{rebuild_clusters-Strict}
use ns_pixels.Snapshot.Content.{any}
use ns_pixels.Accel.{x_up, y_down}
use ns_pixels.Display.{DisplayState, frame, by_type, global_pulse}
use ns_pixels.Display.Rotation.{seen_x, seen_y}
use ns_pixels.Display.Colors.{color_for_type_bit}
use ns_pixels.Display.Cluster.{draw_trains}
use ns_pixels.Display.Turns.{moment}
use ns_pixels.Display.Lit.{lit}
use ns_pixels.Picture.{pulse_types}
use ns_pixels.Extern.Stored.{stored}
use ns_pixels.Exchange.{
  ns_api, started, try_take_free_clusters, rebuild_into, publish_clusters, take_fresh_clusters,
  redraw,
}
use ns_pixels.System.{World, pass, message, types}
use ns_pixels.System
use ns_pixels.System.Rows.{IsRow}
use ns_pixels.Firmware.{
  Firmware, frame_buffers, Reach, start, later, task, prepare, publish, next_frame,
}
use ns_pixels.Firmware.Shown.{Leads}
use ns_pixels.Firmware.Lights.{pulse_by_type, Reach-lights}
use ns_pixels.Witnesses.Feed.{frames, tokens, parse_whole, outcome, on_message-outcome}
use ns_pixels.Witnesses.NsApi.{gateway}
use ns_pixels.Witnesses.Samples.{trains}
use ns_pixels.Witnesses.System.{world}

abbrev here : PixelCoord
here = wgs84_to_canvas fixed_point (some (pos 51_000_000)) (some (pos 5_000_000))

abbrev typed_train : TrainState
typed_train = record {
  pixel = here;
  last_seen = 400_000_001;
  typ = virm;
  service = ServiceType.unknown;
  last_type_attempt_ago_s = 400;
  last_service_attempt_ago_s = 65535;
}

typed_row : trains.get world.trains 6441 ≡ some typed_train
unfolding is_utf8 scan map_train_type trim trim_start trim_end is_whitespace to_ascii_uppercase
    as_bytes encode_utf8 head_of type_of_bytes fetch_types_on apply_types apply_types_body
    apply_parsed apply_infos set_type stamp_type modify modify_at attempt_offset_s apply_trains
    evict_stale evict_older_than remove_all collect_stale update_trains upsert new_state insert
    insert_told cutoff_of
typed_row = refl

abbrev place : PixelCoord
place = record { x = 29; y = 57 }

here-shown : canvas_to_display here netherlands ≡ some place
unfolding canvas_to_display wgs84_to_canvas sat_u8 is_nan canvas_px lift easting d_lam_of d_phi_of
    le div_ℤ shrink ◌*ℤ◌ ◌-ℤ◌ ◌+ℤ◌ as_u8 canvas_py northing
here-shown = refl

abbrev new : List PixelData
new = (rebuild_clusters-Strict trains insertion_sort world.trains netherlands).0

new_rebuilt : rebuild_clusters trains insertion_sort world.trains netherlands ≡ some new
new_rebuilt = (rebuild_clusters-Strict trains insertion_sort world.trains netherlands).1

abbrev firmware : Firmware trains.Map
firmware = record {
  world = world;
  buffers =
      frame_buffers x_up y_down
        (publish_clusters ns_api (rebuild_into ns_api new (try_take_free_clusters ns_api started)));
  direction = y_down;
}

firmware_reached :
    Reach trains list_vec microseconds fixed_point insertion_sort stored tokens parse_whole gateway
      firmware
unfolding try_take_free_clusters
firmware_reached =
    later
      (later
        (later
          (later
            (later (later start (task _ (pass 400_000_001))) (
              task _ (
                message frames tt 400_000_001 true netherlands outcome (omega arith)
                  on_message-outcome)))
            (task _ (types 0 (6441 ∷ []))))
          (prepare ns_api 1 netherlands new refl refl new_rebuilt))
        (publish ns_api))
      (next_frame y_down)

abbrev dark : DisplayState
dark = record { clusters = []; direction = x_up }

firmware_content :
    (frame (some new) y_down dark).clusters ≡ firmware.buffers.content firmware.buffers.clusters
unfolding try_take_free_clusters rebuild_into publish_clusters take_fresh_clusters redraw
firmware_content = refl

-- The train is lit in the turn of its type.
train_lit :
    any
      (lit
        (seen_x y_down place.x place.y)
        (seen_y y_down place.x place.y)
        (color_for_type_bit (type_as_bit virm)))
      (pulse_by_type trains list_vec microseconds fixed_point insertion_sort stored tokens
        parse_whole gateway firmware 2 5 1000)
    ≡ true
train_lit =
    ap
      (λ (es : List PixelData).
        any
          (lit (seen_x y_down place.x place.y) (seen_y y_down place.x place.y)
            (color_for_type_bit (type_as_bit virm)))
          (draw_trains (record { viz = global_pulse; col = by_type }) (moment 7 2 5 1000) es))
      (sym firmware_content)
    ∙ (pulse_types trains insertion_sort world.trains netherlands dark y_down new place virm 2 5
          1000 new_rebuilt (omega arith) (omega arith) refl (omega arith)).1
        (6441, typed_train, typed_row, here-shown, refl)

Reach-lights_example :
    (v : World trains.Map) × (mode : MapMode) × (j : ℕ) × (s : TrainState) × Leads trains list_vec
      microseconds fixed_point insertion_sort stored tokens parse_whole gateway v world
    × System.Reach trains list_vec microseconds fixed_point insertion_sort stored tokens parse_whole
        gateway v
    × (trains.get v.trains j ≡ some s)
    × (canvas_to_display s.pixel mode ≡ some place)
    × (s.typ ≡ virm)
    × IsRow v.time s
Reach-lights_example =
    Reach-lights trains list_vec microseconds fixed_point insertion_sort stored tokens parse_whole
      gateway {f = firmware} place virm 2 5 1000 firmware_reached (omega arith) (omega arith) refl
      (omega arith) train_lit
