-- ===== src/Witnesses/Input.antt =====
-- The theorems on presses, saves and the mode.
use mathlib.Core.Bool.{true, false, ◌&&◌}
use ns_pixels.Prelude.{◌≡◌, refl, none, List, [], ◌∷◌, arith, leb, ltb}
use ns_pixels.MapMode.{randstad, next}
use ns_pixels.Input.{
  Panel, panel_at_start, Event, up_short, up_long, down_press, timeout, save, step, run, current,
}
use ns_pixels.Input.Timing.{Pins, up, press_round, press_round_up}
use ns_pixels.Input.Presses.{Synced, run-Synced, run_mode}

-- The first start, with blank flash.
abbrev at_boot : Panel
at_boot = panel_at_start none

-- Two presses, one save between them.
abbrev presses : List Event
presses = up_short ∷ save true ∷ down_press ∷ up_long ∷ timeout ∷ up_long ∷ []

run-Synced_example : Synced (run presses at_boot)
run-Synced_example = run-Synced presses none (refl, tt)

run_mode_example : current (run presses at_boot).mode ≡ randstad
unfolding current next
run_mode_example = run_mode presses at_boot

-- UP is held for 815 ms, longer than the threshold, and bounces at first.
abbrev held_long : Pins
held_long = record { up_low = λ i. leb 103 i && ltb i 915; down_low = λ i. false }

press_round_up_example : press_round up held_long 100 at_boot ≡ step up_short at_boot
press_round_up_example = press_round_up held_long 100 815 at_boot (λ i h k. ground arith)
