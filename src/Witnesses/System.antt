-- ===== src/Witnesses/System.antt =====
-- The theorems on the tasks together: a message of one new train, and a request for its type.
use mathlib.Core.Bool.{true}
use ns_pixels.Prelude.{ℕ, ◌≡◌, some, [], ◌∷◌, arith}
use ns_pixels.Extern.AssocMap.{list_vec, microseconds}
use ns_pixels.Extern.FixedPoint.{fixed_point}
use ns_pixels.Extern.InsertionSort.{insertion_sort}
use ns_pixels.Extern.Stored.{stored}
use ns_pixels.MapMode.{netherlands}
use ns_pixels.NsApi.Fetch.{fetch_types_on}
use ns_pixels.NsApi.Round.{RoundResult, enrich_round}
use ns_pixels.System.{World, Reach, start, later, pass, message, types}
use ns_pixels.System.Sound.{Reach-sweeps}
use ns_pixels.Witnesses.Samples.{trains}
use ns_pixels.Witnesses.Feed.{frames, tokens, parse_whole, outcome, on_message-outcome}
use ns_pixels.Witnesses.NsApi.{gateway}

abbrev pub world : World trains.Map
world = record {
  trains = (fetch_types_on trains list_vec microseconds gateway 0 (6441 ∷ []) outcome.trains).1;
  queue = outcome.queue;
  time = 400_000_001;
}

abbrev pub world_reached :
    Reach trains list_vec microseconds fixed_point insertion_sort stored tokens parse_whole gateway
      world
world_reached =
    later
      (later (later start (pass 400_000_001))
        (message frames tt 400_000_001 true netherlands outcome (omega arith) on_message-outcome))
      (types 0 (6441 ∷ []))

Reach-sweeps_example :
    (r : RoundResult ℕ trains.Map) × (enrich_round trains list_vec microseconds gateway world.queue
        400_000_001 tt 1 world.trains
      ≡ some r)
Reach-sweeps_example =
    Reach-sweeps trains list_vec microseconds fixed_point insertion_sort stored tokens parse_whole
      gateway world_reached tt 1
