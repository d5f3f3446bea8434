-- ===== src/NsApi/Fetch/Effects.antt =====
-- What a request for types does to each row of the registry, on every branch.
use mathlib.Core.Bool.{Bool, true, false, not}
use mathlib.Core.Option
use ns_pixels.Prelude.{
  ℕ, suc, ◌≡◌, refl, ap, ◌∙◌, Option, none, some, List, [], ◌∷◌, if◌then◌else◌, ◌==◌, arith,
  contains, Bool-cases, inl, inr,
}
use ns_pixels.Extern.Clock.{Clock}
use ns_pixels.Extern.Heapless.{BoundedVec}
use ns_pixels.Extern.Gateway.{Gateway, Sent, send_failed, response, read_failed, whole}
use ns_pixels.Decompress.Utf8.{is_utf8}
use ns_pixels.Train.{TrainType, TrainState, is_unknown_type}
use ns_pixels.Registry.{TrainMap, stamp_type, set_type}
use ns_pixels.Registry.Rows.{set_type_rows}
use ns_pixels.NsApi.Labels.{map_train_type}
use ns_pixels.NsApi.Paths.{types_path}
use ns_pixels.NsApi.Fetch.{
  TrainInfo, JourneyResp, err, invalid_utf8, is_successful, stamp_batch, apply_infos, apply_parsed,
  apply_types_body, apply_types, fetch_types_on,
}

-- What was given last counts.
abbrev pub later : Option TrainType → Option TrainType → Option TrainType
later (some typ) first = some typ
later none first = first

-- The type that a list of records gives a train: that of its last record.
abbrev pub last_info : ℕ → List TrainInfo → Option TrainType
last_info k [] = none
last_info k (i ∷ is) =
    later (last_info k is) (if i.number == k then some (map_train_type i.train_type) else none)

-- A row that is given a type, or left as it is.
abbrev pub given : Clock → ℕ → Option TrainType → Option TrainState → Option TrainState
given c now none row = row
given c now (some typ) row = Option.map (stamp_type c typ now) row

abbrev pub infos_of : Option (List TrainInfo) → List TrainInfo
infos_of none = []
infos_of (some infos) = infos

-- The train types that an answer gives out.
module _ (gw : Gateway TrainInfo JourneyResp) where
  abbrev pub read_infos : List ℕ → List TrainInfo
  read_infos body = if is_utf8 body then infos_of (gw.parse_infos body) else []

  abbrev pub verdict : Sent gw.E → List ℕ → ℕ → Option TrainType
  verdict (send_failed e) batch k = none
  verdict (response status body) batch k =
      if is_successful status
      then elim body [ read_failed e ↦ none | whole bs ↦ last_info k (read_infos bs) ]
      else if contains k batch
      then some TrainType.unknown
      else none

stamp_type_twice :
    (c : Clock) (a b : TrainType) (now : ℕ) (row : Option TrainState)
    → Option.map (stamp_type c b now) (Option.map (stamp_type c a now) row)
      ≡ Option.map (stamp_type c b now) row
unfolding stamp_type
stamp_type_twice c a b now none = refl
stamp_type_twice c a b now (some s) = refl

module _ (h : TrainMap) (vec : BoundedVec) (c : Clock) (gw : Gateway TrainInfo JourneyResp) where
  open h use {Map, get}

  -- One type that is set before others are given.
  given-set_type :
      (n k now : ℕ) (typ : TrainType) (v : Option TrainType) (m : Map)
      → given c now v (get (set_type h vec c m n typ now) k)
        ≡ given c now (later v (if n == k then some typ else none)) (get m k)
  given-set_type n k now typ none m = elim (Bool-cases (n == k)) [
    | inl same ↦ ground (arith, set_type_rows h vec c m n k typ now)
    | inr other ↦ ground (arith, set_type_rows h vec c m n k typ now)
  ]
  given-set_type n k now typ (some t) m = elim (Bool-cases (k == n)) [
    | inl same ↦
        ap (Option.map (stamp_type c t now)) (ground (arith, set_type_rows h vec c m n k typ now))
        ∙ stamp_type_twice c typ t now (get m n)
        ∙ ap (λ j. Option.map (stamp_type c t now) (get m j)) {x = n} {y = k} (ground arith)
    | inr other ↦
        ap (Option.map (stamp_type c t now)) (ground (arith, set_type_rows h vec c m n k typ now))
  ]

  stamp_batch_rows :
      (batch : List ℕ) (now k : ℕ) (m : Map)
      → get (stamp_batch h vec c gw batch now m) k
        ≡ given c now (if contains k batch then some TrainType.unknown else none) (get m k)
  unfolding stamp_batch
  stamp_batch_rows [] now k m = refl
  stamp_batch_rows (n ∷ batch) now k m =
      stamp_batch_rows batch now k (set_type h vec c m n TrainType.unknown now)
      ∙ given-set_type n k now TrainType.unknown
          (if contains k batch then some TrainType.unknown else none) m
      ∙ ap (λ v. given c now v (get m k)) (ground arith)

  apply_infos_rows :
      (infos : List TrainInfo) (now applied k : ℕ) (m : Map)
      → get (apply_infos h vec c gw infos now applied m).0 k
        ≡ given c now (last_info k infos) (get m k)
  unfolding apply_infos
  apply_infos_rows [] now applied k m = refl
  apply_infos_rows (i ∷ infos) now applied k m =
      let typ = map_train_type i.train_type in
      apply_infos_rows infos now (if not (is_unknown_type typ) then suc applied else applied) k
        (set_type h vec c m i.number typ now)
      ∙ given-set_type i.number k now typ (last_info k infos) m

  apply_parsed_rows :
      (o : Option (List TrainInfo)) (now k : ℕ) (m : Map)
      → get (apply_parsed h vec c gw o now m).0 k ≡ given c now (last_info k (infos_of o)) (get m k)
  unfolding apply_parsed
  apply_parsed_rows none now k m = refl
  apply_parsed_rows (some infos) now k m = apply_infos_rows infos now 0 k m

  apply_types_body_rows :
      (body : List ℕ) (now k : ℕ) (m : Map)
      → get (apply_types_body h vec c gw body now m).0 k
        ≡ given c now (last_info k (read_infos gw body)) (get m k)
  unfolding apply_types_body
  apply_types_body_rows body now k m = go (is_utf8 body)
    where
      go :
          (b : Bool)
          → get
              (if b
                then apply_parsed h vec c gw (gw.parse_infos body) now m
                else (m, err invalid_utf8)).0
              k
            ≡ given c now (last_info k (if b then infos_of (gw.parse_infos body) else [])) (get m k)
      go false = refl
      go true = apply_parsed_rows (gw.parse_infos body) now k m

  apply_types_rows :
      (sent : Sent gw.E) (batch : List ℕ) (now k : ℕ) (m : Map)
      → get (apply_types h vec c gw sent batch now m).0 k
        ≡ given c now (verdict gw sent batch k) (get m k)
  unfolding apply_types
  apply_types_rows (send_failed e) batch now k m = refl
  apply_types_rows (response status (read_failed e)) batch now k m =
      ground (arith, stamp_batch_rows batch now k m)
  apply_types_rows (response status (whole bs)) batch now k m =
      ground (arith, stamp_batch_rows batch now k m, apply_types_body_rows bs now k m)

  -- A request for the types of a batch, whatever the gateway answers, gives each row the verdict of the
  -- answer and leaves it alone where there is none: the type of the train's last record in a good answer,
  -- `Unknown` for each train of the batch when the status is no success, and nothing when the request or
  -- the body fails or cannot be read.
  pub fetch_types_on_rows :
      (conn : gw.Conn) (batch : List ℕ) (m : Map) (k : ℕ)
      → let sent = gw.get conn (types_path batch) in
        get (fetch_types_on h vec c gw conn batch m).1 k
        ≡ given c (gw.now sent.0) (verdict gw sent.1 batch k) (get m k)
  unfolding fetch_types_on
  fetch_types_on_rows conn batch m k =
      let sent = gw.get conn (types_path batch) in apply_types_rows sent.1 batch (gw.now sent.0) k m
