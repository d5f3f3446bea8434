-- ===== src/Input/Presses.antt =====
-- What any sequence of presses, timers and saves leaves.
use mathlib.Core.Bool.{Bool, true, false}
use ns_pixels.Prelude.{◌≡◌, refl, ap, ◌∙◌, ◌⊎◌, inl, inr, Option, none, some, List, [], ◌∷◌, arith}
use ns_pixels.MapMode.{MapMode, netherlands, randstad, next, mode_as_u8}
use ns_pixels.Display.{DisplayConfig}
use ns_pixels.Input.{
  Panel, start_config, panel_at_start, Event, up_short, up_long, down_press, bounce, timeout,
  change_seen, save, step, run, current, update_and_save, flip_mode, toggle, save_round,
}

-- A save of the configuration is due; or none is, and the next start has the configuration.
abbrev pub Synced : Panel → Type 0
Synced p =
    (p.save_signal ≡ some p.cfg) ⊎ ((p.save_signal ≡ none) × (start_config p.in_flash ≡ p.cfg))

abbrev pub SavesSucceed : List Event → Type 0
SavesSucceed [] = Unit
SavesSucceed (save b ∷ es) = (b ≡ true) × SavesSucceed es
SavesSucceed (e ∷ es) = SavesSucceed es

save_round-Synced : (p : Panel) → Synced p → Synced (save_round true p)
unfolding save_round
save_round-Synced p (inl e) = inr (ground arith, ground arith)
save_round-Synced p (inr (e, f)) = inr (ground arith, ground arith)

run_keeps : (es : List Event) (p : Panel) → SavesSucceed es → Synced p → Synced (run es p)
unfolding run step update_and_save toggle flip_mode
run_keeps [] p s y = y
run_keeps (up_short ∷ es) p s y = run_keeps es (step up_short p) s (inl refl)
run_keeps (down_press ∷ es) p s y = run_keeps es (step down_press p) s (inl refl)
run_keeps (up_long ∷ es) p s y = run_keeps es (step up_long p) s y
run_keeps (bounce ∷ es) p s y = run_keeps es p s y
run_keeps (timeout ∷ es) p s y = run_keeps es (step timeout p) s y
run_keeps (change_seen ∷ es) p s y = run_keeps es (step change_seen p) s y
run_keeps (save true ∷ es) p s y = run_keeps es (save_round true p) s.1 (save_round-Synced p y)
run_keeps (save false ∷ es) p s y = absurd (ground arith)

-- From the start of the firmware, whatever the flash held, blank or not, and while the writes succeed, no change of
-- the configuration is lost: after any sequence of events a save of the current configuration is due, or none is
-- and the firmware would start with the current configuration.
pub run-Synced :
    (es : List Event) (stored : Option DisplayConfig)
    → SavesSucceed es
    → Synced (run es (panel_at_start stored))
run-Synced es stored s = run_keeps es (panel_at_start stored) s (inr (refl, refl))

current-mode_as_u8 : (m : MapMode) → current (mode_as_u8 m) ≡ m
unfolding current mode_as_u8
current-mode_as_u8 netherlands = refl
current-mode_as_u8 randstad = refl

-- The mode that is expected.
abbrev pub flipped_by : List Event → MapMode → MapMode
flipped_by [] m = m
flipped_by (up_long ∷ es) m = flipped_by es (next m)
flipped_by (timeout ∷ es) m = flipped_by es (next m)
flipped_by (e ∷ es) m = flipped_by es m

save_round_mode : (b : Bool) (p : Panel) → (save_round b p).mode ≡ p.mode
unfolding save_round
save_round_mode b p = go p.save_signal refl
  where
    go : (o : Option DisplayConfig) → p.save_signal ≡ o → (save_round b p).mode ≡ p.mode
    go none e = ground arith
    go (some c) e = ground arith

-- Over any sequence of events, each long press and each timeout flips the mode once, and nothing else
-- does.
pub run_mode :
    (es : List Event) (p : Panel) → current (run es p).mode ≡ flipped_by es (current p.mode)
unfolding run step update_and_save toggle flip_mode
run_mode [] p = refl
run_mode (up_short ∷ es) p = run_mode es (step up_short p)
run_mode (down_press ∷ es) p = run_mode es (step down_press p)
run_mode (up_long ∷ es) p =
    run_mode es (toggle p) ∙ ap (flipped_by es) (current-mode_as_u8 (next (current p.mode)))
run_mode (bounce ∷ es) p = run_mode es p
run_mode (timeout ∷ es) p =
    run_mode es (flip_mode p.changed p)
    ∙ ap (flipped_by es) (current-mode_as_u8 (next (current p.mode)))
run_mode (change_seen ∷ es) p = run_mode es (step change_seen p)
run_mode (save b ∷ es) p =
    run_mode es (save_round b p) ∙ ap (λ m. flipped_by es (current m)) (save_round_mode b p)
