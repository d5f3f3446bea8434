-- ===== src/Witnesses/Samples.antt =====
-- Test data.
use ns_pixels.Prelude.{refl, [], ◌∷◌, arith}
use ns_pixels.Projection.{PixelCoord}
use ns_pixels.Train.{TrainType, ServiceType, TrainState, virm, sprinter, attempt_never}
use ns_pixels.Registry.{TrainMap, max_trains}
use ns_pixels.Extern.AssocMap.{AssocMap, assoc_map}

abbrev pub trains : TrainMap
trains = assoc_map max_trains TrainState

abbrev pub utrecht : PixelCoord
utrecht = record { x = 109; y = 105 }

-- A train that has just been seen, one that has not been seen for five minutes, and one with a type.
abbrev pub fresh_train : TrainState
fresh_train = record {
  pixel = utrecht;
  last_seen = 400_000_000;
  typ = TrainType.unknown;
  service = ServiceType.unknown;
  last_type_attempt_ago_s = attempt_never;
  last_service_attempt_ago_s = attempt_never;
}

abbrev pub stale_train : TrainState
stale_train = record fresh_train { last_seen = 90_000_000 }

abbrev pub known_train : TrainState
known_train = record fresh_train { typ = virm; service = sprinter }

abbrev pub two_trains : AssocMap max_trains TrainState
two_trains = ((6441, fresh_train) ∷ (7, stale_train) ∷ [], (refl, (refl, tt)), omega arith)
