-- ===== src/Registry/Gate.antt =====
-- The cooldown over a history: a type attempt, then sightings of any trains, then a sweep.
use mathlib.Core.Bool.{true, false}
use mathlib.Core.Option
use mathlib.Core.Option.{some-injective}
use native.Mathlib.Nat.{le-div_iff_mul-le}
use ns_pixels.Prelude.{
  ℕ, ◌+◌, ◌-◌, ◌*◌, ◌≤◌, ◌<◌, ◌≡◌, refl, subst, inl, inr, Option, none, some, List, [], ◌∷◌, arith,
  ◌==◌, length, Bool-cases, contains,
}
use ns_pixels.Extern.Heapless.{BoundedVec}
use ns_pixels.Extern.Clock.{Clock}
use ns_pixels.Projection.{PixelCoord}
use ns_pixels.Train.{TrainType, TrainState, new_state}
use ns_pixels.Registry.Attempts.{ready}
use ns_pixels.Registry.{TrainMap, refresh, stamp_type, upsert, set_type, pending_enrichment}
use ns_pixels.Registry.Rows.{upserted, upsert_rows, set_type_rows}
use ns_pixels.Registry.Cooldown.{
  Attempted, stamp_type-Attempted, refresh-Attempted, Attempted-ready, since-eq,
}
use ns_pixels.Registry.Pending.{pending_enrichment-Fills, wants_type}

-- A train on the feed.
pub record Sighting : Type 0 where
  pub number : ℕ
  pub pixel : PixelCoord
  pub at : ℕ

-- The sightings come in order of time, from `start` to `stop`.
abbrev pub InOrder : ℕ → List Sighting → ℕ → Type 0
InOrder start [] stop = start ≤ stop
InOrder start (t ∷ ts) stop = (start ≤ t.at) × InOrder t.at ts stop

module _ (h : TrainMap) (vec : BoundedVec) (c : Clock) where
  open h use {Map, get}

  unfoldable pub upsert_all : Map → List Sighting → Map
  upsert_all m [] = m
  upsert_all m (t ∷ ts) = upsert_all (upsert h vec c m t.number t.pixel t.at).0 ts

  -- No row was seen after `now`.
  abbrev pub SeenBy : ℕ → Map → Type 0
  SeenBy now m = (k : ℕ) (v : TrainState) → get m k ≡ some v → v.last_seen ≤ now

  upserted-last_seen :
      (m : Map) (pixel : PixelCoord) (now : ℕ) (o : Option TrainState) (v : TrainState)
      → upserted h vec c m pixel now o ≡ some v
      → v.last_seen ≡ now
  unfolding refresh new_state
  upserted-last_seen m pixel now none v e = ground arith
  upserted-last_seen m pixel now (some s) v e = ground arith

  upsert-SeenBy :
      (m : Map) (j : ℕ) (pixel : PixelCoord) (start now : ℕ)
      → start ≤ now
      → SeenBy start m
      → SeenBy now (upsert h vec c m j pixel now).0
  upsert-SeenBy m j pixel start now b seen k v e = elim (Bool-cases (k == j)) [
    | inl same ↦
        ground (
          arith,
          (upsert_rows h vec c m j k pixel now).0,
          upserted-last_seen m pixel now (get m j) v,
        )
    | inr other ↦ ground (arith, (upsert_rows h vec c m j k pixel now).0, seen k v)
  ]

  stamped-last_seen :
      (typ : TrainType) (now : ℕ) (o : Option TrainState) (v : TrainState)
      → Option.map (stamp_type c typ now) o ≡ some v
      → (s : TrainState) × (o ≡ some s) × (v.last_seen ≡ s.last_seen)
  unfolding stamp_type
  stamped-last_seen typ now none v e = cc
  stamped-last_seen typ now (some s) v e = (s, refl, ground arith)

  set_type-SeenBy :
      (m : Map) (j : ℕ) (typ : TrainType) (now : ℕ)
      → SeenBy now m
      → SeenBy now (set_type h vec c m j typ now)
  set_type-SeenBy m j typ now seen k v e = elim (Bool-cases (k == j)) [
    | inl same ↦
        let (s, f, g) =
          stamped-last_seen typ now (get m j) v
            (ground (arith, set_type_rows h vec c m j k typ now)) in
        omega (arith, g, seen j s f)
    | inr other ↦ ground (arith, set_type_rows h vec c m j k typ now, seen k v)
  ]

  -- The row of `k` was stamped when it had last been seen at `seen`.
  abbrev Stamped : ℕ → ℕ → Map → Type 0
  Stamped k seen m = (v : TrainState) × (get m k ≡ some v) × Attempted c seen v

  upsert-Stamped :
      (m : Map) (k seen j : ℕ) (pixel : PixelCoord) (start now : ℕ)
      → start ≤ now
      → SeenBy start m
      → Stamped k seen m
      → Stamped k seen (upsert h vec c m j pixel now).0
  upsert-Stamped m k seen j pixel start now b seen_by (v, e, a) = elim (Bool-cases (k == j)) [
    | inl same ↦ (
      refresh c pixel now v,
      ground (arith, (upsert_rows h vec c m j k pixel now).0),
      refresh-Attempted c seen v pixel now (omega (arith, seen_by k v e)) a,
    )
    | inr other ↦ (v, ground (arith, (upsert_rows h vec c m j k pixel now).0), a)
  ]

  upsert_all-Stamped :
      (m : Map) (k seen start stop : ℕ) (ts : List Sighting)
      → InOrder start ts stop
      → SeenBy start m
      → Stamped k seen m
      → SeenBy stop (upsert_all m ts) × Stamped k seen (upsert_all m ts)
  unfolding upsert_all
  upsert_all-Stamped m k seen start stop [] o b st = (λ j v e. omega (arith, b j v e), st)
  upsert_all-Stamped m k seen start stop (t ∷ ts) o b st =
      upsert_all-Stamped (upsert h vec c m t.number t.pixel t.at).0 k seen t.at stop ts o.1
        (upsert-SeenBy m t.number t.pixel start t.at o.0 b)
        (upsert-Stamped m k seen t.number t.pixel start t.at o.0 b st)

  Stamped-unwanted :
      (m : Map) (k seen now cooldown_s : ℕ) (x : TrainState)
      → now < seen + cooldown_s * c.tick_hz
      → SeenBy now m
      → Stamped k seen m
      → get m k ≡ some x
      → ¬ (wants_type c cooldown_s (now - x.last_seen) x ≡ true)
  Stamped-unwanted m k seen now cooldown_s x early seen_by (w, f, a) g wanted =
      let same : w ≡ x = cc in
      ground (
        arith,
        Attempted-ready c seen x (now - x.last_seen) now cooldown_s
            (subst (Attempted c seen) same a) (since-eq c now x.last_seen (seen_by k x g)) early,
      )

  -- A train that had not been seen for the length of the cooldown gets no cooldown at all: right after
  -- an attempt that resolved nothing, and at every later moment, its row wants the next attempt.
  pub unseen_retried :
      (m : Map) (k : ℕ) (v : TrainState) (at now cooldown_s : ℕ)
      → get m k ≡ some v
      → v.last_seen + cooldown_s * c.tick_hz ≤ at
      → at ≤ now
      → (w : TrainState) × (get (set_type h vec c m k TrainType.unknown at) k ≡ some w)
        × (wants_type c cooldown_s (now - w.last_seen) w ≡ true)
  unfolding stamp_type ready
  unseen_retried m k v at now cooldown_s e long later = (
    stamp_type c TrainType.unknown at v,
    ground (arith, set_type_rows h vec c m k k TrainType.unknown at),
    ground (
      arith,
      c.as_secs_lem (now - v.last_seen),
      (le-div_iff_mul-le {k = c.tick_hz} {x = cooldown_s} {y = now - v.last_seen} c.tick_hz_pos).1
          (omega arith),
    ),
  )

  -- Once the type of a known train has been attempted, no sweep offers the train for another attempt
  -- before the cooldown has passed since the train had last been seen at the attempt, whatever trains
  -- are sighted in between. The sweep does not panic, and its buffer may hold other numbers already.
  pub type_cooldown :
      (m : Map) (k : ℕ) (v : TrainState) (typ : TrainType) (at now cooldown t_cap s_cap : ℕ)
      (ts : List Sighting) (t s : List ℕ)
      → get m k ≡ some v
      → SeenBy at m
      → InOrder at ts now
      → now < v.last_seen + c.as_secs cooldown * c.tick_hz
      → length t ≤ t_cap
      → length s ≤ s_cap
      → contains k t ≡ false
      → (t' : List ℕ) × (s' : List ℕ) × (pending_enrichment h vec c
            (upsert_all (set_type h vec c m k typ at) ts)
            t_cap
            s_cap
            t
            s
            cooldown
            now
          ≡ some (t', s'))
        × (contains k t' ≡ false)
  type_cooldown m k v typ at now cooldown t_cap s_cap ts t s e seen o early bt bs fresh =
      let m1 = set_type h vec c m k typ at in
      let stamped : Stamped k v.last_seen m1 = (
        stamp_type c typ at v,
        ground (arith, set_type_rows h vec c m k k typ at),
        stamp_type-Attempted c v typ at (seen k v e),
      ) in
      let (seen', (w, f, a)) =
        upsert_all-Stamped m1 k v.last_seen at now ts o (set_type-SeenBy m k typ at seen) stamped in
      let (t', s', run, fills_t, fills_s) =
        pending_enrichment-Fills h vec c (upsert_all m1 ts) t_cap s_cap t s cooldown now bt bs
          seen' in
      (
        t',
        s',
        run,
        elim (Bool-cases (contains k t')) [
          | inl there ↦ elim (fills_t.2 k there) [
            | inl old ↦ cc
            | inr (x, g, wanted) ↦ absurd (
                Stamped-unwanted (upsert_all m1 ts) k v.last_seen now (c.as_secs cooldown) x early
                  seen' (w, f, a) g wanted)
          ]
          | inr gone ↦ gone
        ],
      )
