-- ===== src/NsApi/Fetch.antt =====
-- `fetch_types_on` and `fetch_service_on`: one request, and what it does to the registry.
pub mod Effects
pub mod Services
pub mod Answered
use mathlib.Core.Bool.{Bool, true, false, ◌&&◌, not}
use ns_pixels.Prelude.{
  ℕ, zero, suc, ◌+◌, Option, none, some, List, [], ◌∷◌, ◌++◌, if◌then◌else◌, leb,
}
use ns_pixels.Extern.Clock.{Clock}
use ns_pixels.Extern.Heapless.{BoundedVec}
use ns_pixels.Extern.Gateway.{Gateway, Sent, Body, send_failed, response, read_failed, whole}
use ns_pixels.Decompress.Utf8.{is_utf8}
use ns_pixels.Train.{TrainType, ServiceType, is_unknown_type}
use ns_pixels.Registry.{TrainMap, set_type, set_service}
use ns_pixels.NsApi.Labels.{map_train_type, map_category_code}
use ns_pixels.NsApi.Paths.{types_path, service_path}

pub record TrainInfo : Type 0 where
  pub number : ℕ
  pub train_type : Option (List ℕ)

-- A `JourneyEvent` has a product or not, and a product a category code or not.
pub record JourneyProduct : Type 0 where
  pub category_code : Option (List ℕ)

pub record JourneyEvent : Type 0 where
  pub product : Option JourneyProduct

pub record JourneyStop : Type 0 where
  pub departures : List JourneyEvent
  pub arrivals : List JourneyEvent

pub record JourneyResp : Type 0 where
  pub stops : List JourneyStop

pub data FetchError (E : Type 0) : Type 0 where
  http : E → FetchError E
  http_status : ℕ → FetchError E
  invalid_utf8 json : FetchError E

pub data Fetched (E A : Type 0) : Type 0 where
  ok : A → Fetched E A
  err : FetchError E → Fetched E A

-- `Status::is_successful`
abbrev pub is_successful : ℕ → Bool
is_successful status = leb 200 status && leb status 299

-- The category code of an event, if it has one.
abbrev pub code_of : JourneyEvent → Option (List ℕ)
code_of e = elim e.product [ none ↦ none | some p ↦ p.category_code ]

-- `filter_map` and `next`, over events.
unfoldable pub first_code : List JourneyEvent → Option (List ℕ)
first_code [] = none
first_code (e ∷ es) = elim (code_of e) [ some code ↦ some code | none ↦ first_code es ]

-- The `flat_map`: departures first, then arrivals.
unfoldable pub events_of : List JourneyStop → List JourneyEvent
events_of [] = []
events_of (s ∷ ss) = (s.departures ++ s.arrivals) ++ events_of ss

unfoldable pub service_of : JourneyResp → ServiceType
unfolding first_code events_of map_category_code
service_of parsed = elim (first_code (events_of parsed.stops)) [
  | some code ↦ map_category_code code
  | none ↦ ServiceType.unknown
]

module _ (h : TrainMap) (vec : BoundedVec) (c : Clock) (gw : Gateway TrainInfo JourneyResp) where
  open h use {Map}
  open gw use {E, Conn}

  -- The stamping of each batch member when the status is not a success.
  unfoldable pub stamp_batch : List ℕ → ℕ → Map → Map
  stamp_batch [] now m = m
  stamp_batch (n ∷ batch) now m = stamp_batch batch now (set_type h vec c m n TrainType.unknown now)

  -- The loop over the records, with the count of those that have a known type.
  unfoldable pub apply_infos : List TrainInfo → ℕ → ℕ → Map → Map × ℕ
  unfolding map_train_type
  apply_infos [] now applied m = (m, applied)
  apply_infos (info ∷ infos) now applied m =
      let typ = map_train_type info.train_type in
      apply_infos infos now (if not (is_unknown_type typ) then suc applied else applied)
        (set_type h vec c m info.number typ now)

  unfoldable pub apply_parsed : Option (List TrainInfo) → ℕ → Map → Map × Fetched E ℕ
  unfolding apply_infos
  apply_parsed none now m = (m, err json)
  apply_parsed (some parsed) now m = let done = apply_infos parsed now 0 m in (done.0, ok done.1)

  -- What a body that has arrived does.
  unfoldable pub apply_types_body : List ℕ → ℕ → Map → Map × Fetched E ℕ
  unfolding apply_parsed is_utf8
  apply_types_body body now m =
      if is_utf8 body then apply_parsed (gw.parse_infos body) now m else (m, err invalid_utf8)

  unfoldable pub apply_types : Sent E → List ℕ → ℕ → Map → Map × Fetched E ℕ
  unfolding stamp_batch apply_types_body
  apply_types (send_failed e) batch now m = (m, err (http e))
  apply_types (response status body) batch now m =
      if not (is_successful status)
      then (stamp_batch batch now m, err (http_status status))
      else elim body [ read_failed e ↦ (m, err (http e)) | whole bs ↦ apply_types_body bs now m ]

  unfoldable pub fetch_types_on : Conn → List ℕ → Map → Conn × Map × Fetched E ℕ
  unfolding apply_types types_path
  fetch_types_on conn batch m =
      let sent = gw.get conn (types_path batch) in
      let done = apply_types sent.1 batch (gw.now sent.0) m in (sent.0, done.0, done.1)

  unfoldable pub apply_service_body : List ℕ → ℕ → ℕ → Map → Map × Fetched E ServiceType
  unfolding is_utf8 service_of
  apply_service_body body number now m =
      if is_utf8 body
      then elim (gw.parse_journey body) [
        | none ↦ (m, err json)
        | some parsed ↦
            (set_service h vec c m number (service_of parsed) now, ok (service_of parsed))
      ]
      else (m, err invalid_utf8)

  unfoldable pub apply_service : Sent E → ℕ → ℕ → Map → Map × Fetched E ServiceType
  unfolding apply_service_body
  apply_service (send_failed e) number now m = (m, err (http e))
  apply_service (response status body) number now m =
      if not (is_successful status)
      then (set_service h vec c m number ServiceType.unknown now, err (http_status status))
      else elim body [
        | read_failed e ↦ (m, err (http e))
        | whole bs ↦ apply_service_body bs number now m
      ]

  unfoldable pub fetch_service_on : Conn → ℕ → Map → Conn × Map × Fetched E ServiceType
  unfolding apply_service service_path
  fetch_service_on conn number m =
      let sent = gw.get conn (service_path number) in
      let done = apply_service sent.1 number (gw.now sent.0) m in (sent.0, done.0, done.1)
