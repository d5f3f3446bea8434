-- ===== src/Registry/Attempts.antt =====
-- registry.rs: the attempt offsets of a row, in seconds before `last_seen`.
use ns_pixels.Prelude.{ℕ, ◌+◌, ◌-◌, ◌%◌, ◌^◌, min, Bool, true, none, some, if◌then◌else◌, ◌==◌, leb}
use ns_pixels.Extern.Clock.{Clock}
use ns_pixels.Train.{attempt_never}

unfoldable pub attempt_offset_s : Clock → ℕ → ℕ → ℕ
attempt_offset_s c last_seen now = elim (c.checked_duration_since last_seen now) [
  | none ↦ 0
  | some d ↦ min (c.as_secs d) (attempt_never - 1) % 2 ^ 16
]

unfoldable pub bump_attempt_ago : ℕ → ℕ → ℕ
bump_attempt_ago ago_s delta_s =
    if ago_s == attempt_never
    then attempt_never
    else min (ago_s + delta_s) (attempt_never - 1) % 2 ^ 16

unfoldable pub ready : ℕ → ℕ → ℕ → Bool
ready ago_s since_seen_s cooldown_s =
    if ago_s == attempt_never then true else leb cooldown_s (since_seen_s + ago_s)
