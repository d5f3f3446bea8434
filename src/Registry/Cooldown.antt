-- ===== src/Registry/Cooldown.antt =====
-- The cooldown between two enrichment attempts for one train.
use mathlib.Core.Bool.{false}
use native.Mathlib.Nat.{div-mul-le_self, mul-le-mul_right}
use ns_pixels.Prelude.{ℕ, ◌+◌, ◌-◌, ◌*◌, ◌≤◌, ◌<◌, ◌≡◌, ◌↔◌, some, arith}
use ns_pixels.Extern.Clock.{Clock}
use ns_pixels.Projection.{PixelCoord}
use ns_pixels.Train.{TrainType, TrainState, attempt_never}
use ns_pixels.Registry.Attempts.{attempt_offset_s, bump_attempt_ago, ready}
use ns_pixels.Registry.{refresh, stamp_type}

-- The type axis of the row was attempted when the train had last been seen at `seen`, and the
-- offset has not been overstated since.
pub record Attempted (c : Clock) (seen : ℕ) (s : TrainState) : Type 0 where
  pub stamped : s.last_type_attempt_ago_s < attempt_never
  pub anchored : s.last_type_attempt_ago_s * c.tick_hz + seen ≤ s.last_seen

module _ (c : Clock) where
  -- An offset stays a 16-bit number, and never becomes the sentinel nor ceases to be it.
  pub bump_attempt_ago_bounds :
      (ago_s delta_s : ℕ)
      → ago_s ≤ attempt_never
      → (bump_attempt_ago ago_s delta_s ≤ attempt_never)
        × ((bump_attempt_ago ago_s delta_s ≡ attempt_never) ↔ (ago_s ≡ attempt_never))
  unfolding bump_attempt_ago
  bump_attempt_ago_bounds ago_s delta_s b = ground arith

  pub stamp_type-Attempted :
      (s : TrainState) (typ : TrainType) (now : ℕ)
      → s.last_seen ≤ now
      → Attempted c s.last_seen (stamp_type c typ now s)
  unfolding stamp_type attempt_offset_s
  stamp_type-Attempted s typ now b = ground (arith, c.since_lem s.last_seen now, c.as_secs_lem 0)

  bump_attempt_ago-le :
      (ago_s delta_s : ℕ)
      → ago_s < attempt_never
      → (bump_attempt_ago ago_s delta_s < attempt_never)
        × (bump_attempt_ago ago_s delta_s ≤ ago_s + delta_s)
  unfolding bump_attempt_ago
  bump_attempt_ago-le ago_s delta_s b = ground arith

  as_secs-mul-le : (d : ℕ) → c.as_secs d * c.tick_hz ≤ d
  as_secs-mul-le d = rw (c.as_secs_lem d) (div-mul-le_self d c.tick_hz)

  pub since-eq : (now seen : ℕ) → seen ≤ now → c.checked_duration_since now seen ≡ some (now - seen)
  since-eq now seen b = ground (arith, c.since_lem now seen)

  pub refresh-Attempted :
      (seen : ℕ) (s : TrainState) (pixel : PixelCoord) (now : ℕ)
      → s.last_seen ≤ now
      → Attempted c seen s
      → Attempted c seen (refresh c pixel now s)
  unfolding refresh
  refresh-Attempted seen s pixel now b a =
      let elapsed : ℕ = now - s.last_seen in
      let bound = bump_attempt_ago-le s.last_type_attempt_ago_s (c.as_secs elapsed) a.stamped in
      rw (since-eq now s.last_seen b, refresh)
        (record {
          stamped = bound.0;
          anchored =
              omega (arith, mul-le-mul_right c.tick_hz bound.1, as_secs-mul-le elapsed, a.anchored);
        })

  -- Within the cooldown of the moment at which the train had been seen, the row is not ready.
  pub Attempted-ready :
      (seen : ℕ) (s : TrainState) (d now cooldown_s : ℕ)
      → Attempted c seen s
      → c.checked_duration_since now s.last_seen ≡ some d
      → now < seen + cooldown_s * c.tick_hz
      → ready s.last_type_attempt_ago_s (c.as_secs d) cooldown_s ≡ false
  unfolding ready
  Attempted-ready seen s d now cooldown_s a e early = ground (
    arith,
    c.since_lem now s.last_seen,
    as_secs-mul-le d,
    a.anchored,
    mul-le-mul_right {m = cooldown_s} {n = c.as_secs d + s.last_type_attempt_ago_s} c.tick_hz,
  )
