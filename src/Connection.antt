-- ===== src/Connection.antt =====
-- bin/main.rs, the task `connection`: when it tries to connect. Times are in milliseconds.
use ns_pixels.Prelude.{ℕ, ◌+◌, ◌≤◌, Option, none, some, List, [], ◌∷◌, arith}

abbrev pub reconnect_ms : ℕ
reconnect_ms = 5000

-- A round: how long the attempt takes, and how long the connection lasts when it succeeds.
pub record Attempt : Type 0 where
  pub connecting : ℕ
  pub connected : Option ℕ

-- The end of a round, a wait after it included.
unfoldable pub after_attempt : ℕ → Attempt → ℕ
after_attempt t a = elim a.connected [
  | none ↦ t + a.connecting + reconnect_ms
  | some lasted ↦ t + a.connecting + lasted + reconnect_ms
]

-- When each round calls `connect_async`.
unfoldable pub connect_times : ℕ → List Attempt → List ℕ
unfolding after_attempt
connect_times t [] = []
connect_times t (a ∷ rest) = t ∷ connect_times (after_attempt t a) rest

abbrev pub Spaced : ℕ → List ℕ → Type 0
Spaced earliest [] = Unit
Spaced earliest (t ∷ ts) = (earliest ≤ t) × Spaced (t + reconnect_ms) ts

after_attempt_le : (t : ℕ) (a : Attempt) → t + reconnect_ms ≤ after_attempt t a
unfolding after_attempt
after_attempt_le t a = ground arith

-- The access point is asked no more often than every five seconds, whether the attempts fail, or succeed and the
-- connection is lost at once.
connect_times-Spaced :
    (t earliest : ℕ) (rounds : List Attempt)
    → earliest ≤ t
    → Spaced earliest (connect_times t rounds)
unfolding connect_times
connect_times-Spaced t earliest [] l = tt
connect_times-Spaced t earliest (a ∷ rest) l =
    (l, connect_times-Spaced (after_attempt t a) (t + reconnect_ms) rest (after_attempt_le t a))
