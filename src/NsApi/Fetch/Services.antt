-- ===== src/NsApi/Fetch/Services.antt =====
-- What a request for a service category does to each row of the registry, on every branch.
use mathlib.Core.Option
use ns_pixels.Prelude.{
  ℕ, ◌≡◌, ap, Option, none, some, List, if◌then◌else◌, ◌==◌, arith, Bool-cases, Option-cases, inl,
  inr,
}
use ns_pixels.Extern.Clock.{Clock}
use ns_pixels.Extern.Heapless.{BoundedVec}
use ns_pixels.Extern.Gateway.{Gateway, Sent, send_failed, response, read_failed, whole}
use ns_pixels.Decompress.Utf8.{is_utf8}
use ns_pixels.Train.{ServiceType, TrainState}
use ns_pixels.Registry.{TrainMap, stamp_service, set_service}
use ns_pixels.Registry.Rows.{set_service_rows}
use ns_pixels.NsApi.Paths.{service_path}
use ns_pixels.NsApi.Fetch.{
  TrainInfo, JourneyResp, is_successful, service_of, apply_service_body, apply_service,
  fetch_service_on,
}

-- A row that is given a service category, or left as it is.
abbrev pub served : Clock → ℕ → Option ServiceType → Option TrainState → Option TrainState
served c now none row = row
served c now (some service) row = Option.map (stamp_service c service now) row

-- The category that an answer gives out: that of the journey, if there is one to be read; unknown when the status
-- is not a success.
module _ (gw : Gateway TrainInfo JourneyResp) where
  abbrev pub body_verdict : List ℕ → Option ServiceType
  body_verdict bs = if is_utf8 bs then Option.map service_of (gw.parse_journey bs) else none

  abbrev pub service_verdict : Sent gw.E → Option ServiceType
  service_verdict (send_failed e) = none
  service_verdict (response status body) =
      if is_successful status
      then elim body [ read_failed e ↦ none | whole bs ↦ body_verdict bs ]
      else some ServiceType.unknown

module _ (h : TrainMap) (vec : BoundedVec) (c : Clock) (gw : Gateway TrainInfo JourneyResp) where
  open h use {Map, get}

  -- The category goes to the number that was asked for.
  abbrev pub ServedAt : ℕ → ℕ → ℕ → Option ServiceType → Map → Map → Type 0
  ServedAt number now k v m m' = get m' k ≡ served c now (if k == number then v else none) (get m k)

  served_none : (number now k : ℕ) (m : Map) → ServedAt number now k none m m
  served_none number now k m = ground arith

  served-set_service :
      (number now k : ℕ) (service : ServiceType) (m : Map)
      → ServedAt number now k (some service) m (set_service h vec c m number service now)
  served-set_service number now k service m = elim (Bool-cases (k == number)) [
    | inl same ↦ ground (
      arith,
      set_service_rows h vec c m number k service now,
      ap (λ j. Option.map (stamp_service c service now) (get m j)) {x = number} {y = k}
          (ground arith),
    )
    | inr other ↦ ground (arith, set_service_rows h vec c m number k service now)
  ]

  served_as :
      (number now k : ℕ) (v w : Option ServiceType) (m m' m'' : Map)
      → v ≡ w
      → m' ≡ m''
      → ServedAt number now k w m m''
      → ServedAt number now k v m m'
  served_as number now k v w m m' m'' e f s = ground (arith, e, f, s)

  apply_service_body_rows :
      (bs : List ℕ) (number now k : ℕ) (m : Map)
      → ServedAt number now k
          (body_verdict gw bs)
          m
          (apply_service_body h vec c gw bs number now m).0
  unfolding apply_service_body
  apply_service_body_rows bs number now k m = elim (Bool-cases (is_utf8 bs)) [
    | inl text ↦ elim (Option-cases (gw.parse_journey bs)) [
      | inl e ↦
          served_as number now k _ none m _ m (ground (arith, text, e)) (ground (arith, text, e))
            (served_none number now k m)
      | inr (parsed, e) ↦
          served_as number now k _ (some (service_of parsed)) m _ _ (ground (arith, text, e))
            (ground (arith, text, e)) (served-set_service number now k (service_of parsed) m)
    ]
    | inr bad ↦
        served_as number now k _ none m _ m (ground (arith, bad)) (ground (arith, bad))
          (served_none number now k m)
  ]

  apply_service_rows :
      (sent : Sent gw.E) (number now k : ℕ) (m : Map)
      → ServedAt number now k
          (service_verdict gw sent)
          m
          (apply_service h vec c gw sent number now m).0
  unfolding apply_service
  apply_service_rows (send_failed e) number now k m = served_none number now k m
  apply_service_rows (response status (read_failed e)) number now k m =
      elim (Bool-cases (is_successful status)) [
        | inl good ↦
            served_as number now k _ none m _ m (ground (arith, good)) (ground (arith, good))
              (served_none number now k m)
        | inr bad ↦
            served_as number now k _ (some ServiceType.unknown) m _ _ (ground (arith, bad))
              (ground (arith, bad)) (served-set_service number now k ServiceType.unknown m)
      ]
  apply_service_rows (response status (whole bs)) number now k m =
      elim (Bool-cases (is_successful status)) [
        | inl good ↦
            served_as number now k _ (body_verdict gw bs) m _ _ (ground (arith, good))
              (ground (arith, good)) (apply_service_body_rows bs number now k m)
        | inr bad ↦
            served_as number now k _ (some ServiceType.unknown) m _ _ (ground (arith, bad))
              (ground (arith, bad)) (served-set_service number now k ServiceType.unknown m)
      ]

  -- A request for the service category of a train, whatever the gateway answers, touches no other train's row, and
  -- gives the train's row the verdict of the answer: the category of its journey, `Unknown` when the status is no
  -- success, and nothing when the request or the body fails or cannot be read.
  pub fetch_service_on_rows :
      (conn : gw.Conn) (number k : ℕ) (m : Map)
      → let sent = gw.get conn (service_path number) in
        get (fetch_service_on h vec c gw conn number m).1 k
        ≡ served c
            (gw.now sent.0)
            (if k == number then service_verdict gw sent.1 else none)
            (get m k)
  unfolding fetch_service_on
  fetch_service_on_rows conn number k m =
      let sent = gw.get conn (service_path number) in
      apply_service_rows sent.1 number (gw.now sent.0) k m
