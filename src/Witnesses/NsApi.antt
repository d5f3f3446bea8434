-- ===== src/Witnesses/NsApi.antt =====
-- The theorems on the enrichment task, with a gateway that gives one answer.
use ns_pixels.Prelude.{ℕ, ◌+◌, ◌≡◌, refl, some, List, [], ◌∷◌, arith, drop, length, map, ◌++◌}
use ns_pixels.Prelude.Text.{
  codes, trim, trim_start, trim_end, is_whitespace, to_ascii_uppercase, as_bytes, encode_utf8,
}
use ns_pixels.Extern.AssocMap.{list_vec, push, microseconds}
use ns_pixels.Extern.Gateway.{Gateway, response, whole}
use ns_pixels.Decompress.Utf8.{is_utf8}
use ns_pixels.Train.{virm}
use ns_pixels.NsApi.Labels.{map_train_type, map_train_type_equiv, head_of, type_of_bytes}
use ns_pixels.NsApi.Paths.{types_path, service_path, types_prefix, types_path_ids, read_all, pieces}
use ns_pixels.NsApi.Fetch.{
  TrainInfo, JourneyResp, fetch_types_on, apply_types, apply_types_body, apply_parsed, apply_infos,
  fetch_service_on, apply_service, apply_service_body,
}
use ns_pixels.NsApi.Fetch.Effects.{fetch_types_on_rows, given}
use ns_pixels.NsApi.Batches.{
  Batches, build_batches, drain, top_up, chunks, chunks_of, concat, Chunked,
}
use ns_pixels.NsApi.Round.{
  RoundResult, enrich_round, work_round, request_all, request_types, request_services,
}
use ns_pixels.NsApi.Round.Requests.{logging, enrich_round_covers}
use ns_pixels.Witnesses.Samples.{trains, two_trains, fresh_train}

map_train_type_equiv_example :
    (map_train_type (some (codes " virm-VI")) ≡ virm)
    × (map_train_type (some (codes " VIRM-VI")) ≡ map_train_type (some (codes " virm-VI")))
unfolding trim trim_start trim_end is_whitespace to_ascii_uppercase as_bytes encode_utf8 head_of
    type_of_bytes
map_train_type_equiv_example = map_train_type_equiv (codes " virm-VI")

types_path_ids_example :
    read_all (pieces (drop (length types_prefix) (types_path (6441 ∷ 7 ∷ []))))
    ≡ some 6441 ∷ some 7 ∷ []
types_path_ids_example = types_path_ids 6441 (7 ∷ []) (omega arith) (omega arith, (omega arith, tt))

-- Ten seconds after the sightings, each request a microsecond.
abbrev pub answering : List TrainInfo → Gateway TrainInfo JourneyResp
answering infos = record {
  E = ⊥;
  Network = Unit;
  Conn = ℕ;
  open_resource = λ net seed. some 410_000_000;
  get = λ conn path. (conn + 1, response 200 (whole []));
  now = λ conn. conn;
  parse_infos = λ body. some infos;
  parse_journey = λ body. some (record { stops = [] });
}

abbrev pub gateway : Gateway TrainInfo JourneyResp
gateway = answering (record { number = 6441; train_type = some (codes "VIRM-VI") } ∷ [])

fetch_types_on_rows_example :
    trains.get
      (fetch_types_on trains list_vec microseconds gateway 410_000_000 (6441 ∷ 7 ∷ []) two_trains).1
      6441
    ≡ given microseconds 410_000_001 (some virm) (some fresh_train)
unfolding is_utf8 map_train_type trim trim_start trim_end is_whitespace to_ascii_uppercase as_bytes
    encode_utf8 head_of type_of_bytes
fetch_types_on_rows_example =
    fetch_types_on_rows trains list_vec microseconds gateway 410_000_000 (6441 ∷ 7 ∷ []) two_trains
      6441

-- A round for one new train.
abbrev batches : Batches
batches = record { queue = []; types = 6441 ∷ []; services = 6441 ∷ [] }

abbrev logged_round : RoundResult (ℕ × List (List ℕ)) trains.Map
logged_round = work_round trains list_vec microseconds (logging gateway) batches tt 1 two_trains

enrich_round_covers_example :
    (conn : ℕ) × (cs : List (List ℕ)) × (logged_round.conn
      ≡ some (conn, map types_path cs ++ map service_path (6441 ∷ [])))
    × (concat cs ≡ 6441 ∷ [])
    × Chunked cs
unfolding enrich_round work_round request_all request_types request_services build_batches drain
    top_up chunks chunks_of fetch_types_on apply_types apply_types_body apply_parsed apply_infos
    fetch_service_on apply_service apply_service_body is_utf8 push
enrich_round_covers_example =
    enrich_round_covers trains list_vec microseconds gateway (6441 ∷ []) 400_000_000 tt 1 two_trains
      batches logged_round refl refl refl
