-- ===== src/Witnesses/Registry.antt =====
-- The theorems on the registry.
use mathlib.Core.Bool.{true, false}
use ns_pixels.Prelude.{ℕ, ◌+◌, ◌-◌, ◌≡◌, refl, some, List, [], ◌∷◌, arith, contains}
use ns_pixels.Extern.AssocMap.{list_vec, microseconds}
use ns_pixels.Train.{TrainType, TrainState}
use ns_pixels.Registry.{set_type, len, evict_older_than, pending_enrichment}
use ns_pixels.Registry.Eviction.{evict_older_than_rows}
use ns_pixels.Registry.Fill.{Fills}
use ns_pixels.Registry.Pending.{wants_type, wants_service, pending_enrichment-Fills}
use ns_pixels.Registry.Gate.{type_cooldown, unseen_retried, upsert_all, SeenBy, Sighting}
use ns_pixels.Witnesses.Samples.{trains, utrecht, fresh_train, stale_train, two_trains}

evict_older_than_rows_example :
    len trains list_vec microseconds
        (evict_older_than trains list_vec microseconds two_trains 200_000_000).0
      + (evict_older_than trains list_vec microseconds two_trains 200_000_000).1
    ≡ len trains list_vec microseconds two_trains
evict_older_than_rows_example =
    (evict_older_than_rows trains list_vec microseconds two_trains 200_000_000 7).1

all_seen : SeenBy trains list_vec microseconds 400_000_000 two_trains
all_seen k v e = ground arith

pending_enrichment-Fills_example :
    (t' : List ℕ) × (s' : List ℕ) × (pending_enrichment trains list_vec microseconds two_trains 32 4
        []
        (9 ∷ [])
        120_000_000
        400_000_000
      ≡ some (t', s'))
    × Fills
        (trains.get two_trains)
        32
        (λ v. wants_type microseconds 120 (400_000_000 - v.last_seen) v)
        []
        t'
    × Fills
        (trains.get two_trains)
        4
        (λ v. wants_service microseconds 120 (400_000_000 - v.last_seen) v)
        (9 ∷ [])
        s'
pending_enrichment-Fills_example =
    pending_enrichment-Fills trains list_vec microseconds two_trains 32 4 [] (9 ∷ []) 120_000_000
      400_000_000 (omega arith) (omega arith) all_seen

unseen_retried_example :
    (w : TrainState) × (trains.get
        (set_type trains list_vec microseconds two_trains 7 TrainType.unknown 400_000_000)
        7
      ≡ some w)
    × (wants_type microseconds 120 (402_000_000 - w.last_seen) w ≡ true)
unseen_retried_example =
    unseen_retried trains list_vec microseconds two_trains 7 stale_train 400_000_000 402_000_000 120
      refl (omega arith) (omega arith)

abbrev sightings : List Sighting
sightings =
    record { number = 8; pixel = utrecht; at = 410_000_000 }
    ∷ record { number = 6441; pixel = utrecht; at = 420_000_000 }
    ∷ []

type_cooldown_example :
    (t' : List ℕ) × (s' : List ℕ) × (pending_enrichment trains list_vec microseconds
        (upsert_all trains list_vec microseconds
          (set_type trains list_vec microseconds two_trains 6441 TrainType.unknown 400_000_000)
          sightings)
        32
        4
        []
        []
        120_000_000
        519_000_000
      ≡ some (t', s'))
    × (contains 6441 t' ≡ false)
type_cooldown_example =
    type_cooldown trains list_vec microseconds two_trains 6441 fresh_train TrainType.unknown
      400_000_000 519_000_000 120_000_000 32 4 sightings [] [] refl all_seen (omega arith)
      (omega arith) (omega arith) (omega arith) refl
