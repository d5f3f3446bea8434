-- ===== src/Witnesses/Sweep.antt =====
-- The theorem on a sweep over a gateway that answers, for two trains that are due.
use mathlib.Core.Bool.{true}
use ns_pixels.Prelude.{
  ℕ, ◌-◌, ◌≤◌, ◌≡◌, refl, ◌⊎◌, some, none, List, [], ◌∷◌, arith, if◌then◌else◌, ◌==◌, contains,
}
use ns_pixels.Prelude.Text.{
  codes, trim, trim_start, trim_end, is_whitespace, to_ascii_uppercase, as_bytes, encode_utf8,
}
use ns_pixels.Extern.AssocMap.{list_vec, push, microseconds}
use ns_pixels.Decompress.Utf8.{is_utf8}
use ns_pixels.Train.{TrainType, TrainState, virm, slt}
use ns_pixels.Registry.{pending_enrichment, pending_loop, offer}
use ns_pixels.Registry.Attempts.{ready}
use ns_pixels.Registry.Pending.{wants_type}
use ns_pixels.NsApi.{type_buffer_cap}
use ns_pixels.NsApi.Labels.{map_train_type, head_of, type_of_bytes}
use ns_pixels.NsApi.Fetch.{TrainInfo}
use ns_pixels.NsApi.Fetch.Effects.{last_info}
use ns_pixels.NsApi.Fetch.Answered.{Answered}
use ns_pixels.NsApi.Batches.{Batches, build_batches, drain, top_up, chunks, chunks_of}
use ns_pixels.NsApi.Round.{RoundResult, enrich_round}
use ns_pixels.NsApi.Round.Resolving.{sweep_resolves}
use ns_pixels.Witnesses.Samples.{trains, two_trains}
use ns_pixels.Witnesses.NsApi.{answering}

abbrev due_batches : Batches
due_batches = record { queue = []; types = 6441 ∷ 7 ∷ []; services = 6441 ∷ 7 ∷ [] }

due_batches_built :
    build_batches trains list_vec microseconds two_trains 400_000_001 [] ≡ some due_batches
unfolding build_batches drain top_up push pending_enrichment pending_loop offer ready
due_batches_built = refl

abbrev infos : List TrainInfo
infos =
    record { number = 6441; train_type = some (codes "VIRM-VI") }
    ∷ record { number = 7; train_type = some (codes "SLT") }
    ∷ []

abbrev truth : ℕ → TrainType
truth k = if k == 6441 then virm else slt

seen_before :
    (k : ℕ) (v : TrainState) → trains.get two_trains k ≡ some v → v.last_seen ≤ 400_000_001
seen_before k v e = ground arith

last_infos :
    (k : ℕ) → last_info k infos ≡ (if contains k (6441 ∷ 7 ∷ []) then some (truth k) else none)
unfolding map_train_type trim trim_start trim_end is_whitespace to_ascii_uppercase as_bytes
    encode_utf8 head_of type_of_bytes
last_infos k = ground arith

due_request : Answered (answering infos) truth (6441 ∷ 7 ∷ [])
unfolding is_utf8
due_request conn = (200, [], infos, refl, refl, refl, refl, last_infos)

sweep_resolves_example :
    (r : RoundResult ℕ trains.Map) × (enrich_round trains list_vec microseconds
        (answering infos)
        []
        400_000_001
        tt
        1
        two_trains
      ≡ some r)
    × ((k : ℕ) (v : TrainState)
        → trains.get two_trains k ≡ some v
        → wants_type microseconds 120 (400_000_001 - v.last_seen) v ≡ true
        → ((w : TrainState) × (trains.get r.trains k ≡ some w) × (w.typ ≡ truth k))
          ⊎ (type_buffer_cap ≤ 2))
unfolding chunks chunks_of
sweep_resolves_example =
    sweep_resolves (answering infos) truth trains list_vec microseconds two_trains 400_000_001 tt 1
      410_000_000 due_batches seen_before refl due_batches_built (due_request, tt)
