-- ===== src/Extern/Clock.antt =====
-- embassy_time: an `Instant` and a `Duration` are counts of ticks, `tick_hz` to the second.
use ns_pixels.Prelude.{ℕ, ◌-◌, ◌*◌, ◌/◌, ◌<◌, ◌≡◌, Option, none, some, if◌then◌else◌, leb}

pub record Clock : Type 0 where
  pub tick_hz : ℕ
  pub from_secs : ℕ → ℕ
  pub as_secs : ℕ → ℕ
  -- `later.checked_duration_since(earlier)`. `duration_since` panics where this is `none`.
  pub checked_duration_since : ℕ → ℕ → Option ℕ
  -- `instant.checked_sub(duration)`
  pub checked_sub : ℕ → ℕ → Option ℕ
  pub tick_hz_pos : 0 < tick_hz
  pub from_secs_lem : (s : ℕ) → from_secs s ≡ s * tick_hz
  pub as_secs_lem : (d : ℕ) → as_secs d ≡ d / tick_hz
  pub since_lem :
      (later earlier : ℕ)
      → checked_duration_since later earlier
        ≡ (if leb earlier later then some (later - earlier) else none)
  pub sub_lem : (at d : ℕ) → checked_sub at d ≡ (if leb d at then some (at - d) else none)
