-- ===== src/NsApi/Fetch/Answered.antt =====
-- What a request does to the rows when the gateway answers it with the types of its trains.
use mathlib.Core.Bool.{Bool, true}
use mathlib.Core.Option
use mathlib.Core.Option.{some-injective}
use ns_pixels.Prelude.{
  ℕ, ◌≡◌, refl, sym, ap, ◌∙◌, subst, inl, inr, Option, none, some, List, [], ◌∷◌, arith,
  if◌then◌else◌, ◌==◌, contains, Bool-cases,
}
use ns_pixels.Extern.Clock.{Clock}
use ns_pixels.Extern.Heapless.{BoundedVec}
use ns_pixels.Extern.Gateway.{Gateway, Sent, response, whole}
use ns_pixels.Decompress.Utf8.{is_utf8}
use ns_pixels.Train.{TrainType, ServiceType, TrainState}
use ns_pixels.Registry.{TrainMap, stamp_type, stamp_service}
use ns_pixels.NsApi.Paths.{types_path, service_path}
use ns_pixels.NsApi.Fetch.{
  TrainInfo, JourneyResp, ok, is_successful, apply_types, apply_types_body, apply_parsed,
  apply_infos, fetch_types_on, fetch_service_on,
}
use ns_pixels.NsApi.Fetch.Effects.{last_info, given, verdict, fetch_types_on_rows}
use ns_pixels.NsApi.Fetch.Services.{served, service_verdict, fetch_service_on_rows}

module _ (gw : Gateway TrainInfo JourneyResp) (truth : ℕ → TrainType) where
  -- Over any connection, the gateway answers the request for a chunk with a body that reads as records of the chunk's
  -- trains, and the last record of each has a label of its type.
  abbrev pub Answered : List ℕ → Type 0
  Answered chunk =
      (conn : gw.Conn)
      → (status : ℕ) × (bs : List ℕ) × (infos : List TrainInfo) × ((gw.get conn
            (types_path chunk)).1
          ≡ response status (whole bs))
        × (is_successful status ≡ true)
        × (is_utf8 bs ≡ true)
        × (gw.parse_infos bs ≡ some infos)
        × ((k : ℕ) → last_info k infos ≡ (if contains k chunk then some (truth k) else none))

  abbrev pub AllAnswered : List (List ℕ) → Type 0
  AllAnswered [] = Unit
  AllAnswered (chunk ∷ rest) = Answered chunk × AllAnswered rest

  -- The row has the type that is true of the train.
  abbrev pub Typed : ℕ → Option TrainState → Type 0
  Typed k row = (v : TrainState) × (row ≡ some v) × (v.typ ≡ truth k)

  given-Typed :
      (c : Clock) (now k : ℕ) (v : TrainState) → Typed k (given c now (some (truth k)) (some v))
  unfolding stamp_type
  given-Typed c now k v = (stamp_type c (truth k) now v, refl, refl)

  served-Typed :
      (c : Clock) (now k : ℕ) (o : Option ServiceType) (row : Option TrainState)
      → Typed k row
      → Typed k (served c now o row)
  unfolding stamp_service
  served-Typed c now k none row t = t
  served-Typed c now k (some service) row (v, e, t) =
      (stamp_service c service now v, ap (Option.map (stamp_service c service now)) e, t)

  module _ (h : TrainMap) (vec : BoundedVec) (c : Clock) where
    open h use {Map, get}

    -- A body that is read is applied.
    applied_body :
        (status now : ℕ) (bs chunk : List ℕ) (infos : List TrainInfo) (m : Map)
        → is_successful status ≡ true
        → is_utf8 bs ≡ true
        → gw.parse_infos bs ≡ some infos
        → (apply_types h vec c gw (response status (whole bs)) chunk now m).1
          ≡ ok (apply_infos h vec c gw infos now 0 m).1
    unfolding apply_types apply_types_body apply_parsed
    applied_body status now bs chunk infos m good text read = ground (arith, good, text, read)

    -- A request that is answered does not fail, and types the trains of its chunk.
    pub fetch_succeeds :
        (conn : gw.Conn) (chunk : List ℕ) (m : Map)
        → Answered chunk
        → (applied : ℕ) × ((fetch_types_on h vec c gw conn chunk m).2 ≡ ok applied)
          × ((k : ℕ)
              → get (fetch_types_on h vec c gw conn chunk m).1 k
                ≡ given c
                    (gw.now (gw.get conn (types_path chunk)).0)
                    (if contains k chunk then some (truth k) else none)
                    (get m k))
    unfolding fetch_types_on
    fetch_succeeds conn chunk m answered =
        let (status, bs, infos, e, good, text, read, last) = answered conn in
        let now = gw.now (gw.get conn (types_path chunk)).0 in
        (
          (apply_infos h vec c gw infos now 0 m).1,
          ap (λ (sent : Sent gw.E). (apply_types h vec c gw sent chunk now m).1) e
              ∙ applied_body status now bs chunk infos m good text read,
          λ k.
              fetch_types_on_rows h vec c gw conn chunk m k
              ∙ ap (λ (v : Option TrainType). given c now v (get m k))
                  (ap (λ (sent : Sent gw.E). verdict gw sent chunk k) e
                    ∙ ground (arith, good, text, read, last k)),
        )

    -- A typed train stays typed, and one of the chunk becomes typed.
    pub fetch_writes :
        (conn : gw.Conn) (chunk : List ℕ) (m : Map) (k : ℕ)
        → Answered chunk
        → (Typed k (get m k) → Typed k (get (fetch_types_on h vec c gw conn chunk m).1 k))
          × ((v : TrainState)
              → get m k ≡ some v
              → contains k chunk ≡ true
              → Typed k (get (fetch_types_on h vec c gw conn chunk m).1 k))
    fetch_writes conn chunk m k answered =
        let (_, _, rows) = fetch_succeeds conn chunk m answered in
        let now = gw.now (gw.get conn (types_path chunk)).0 in
        let becomes : (v : TrainState)
            → get m k ≡ some v
            → contains k chunk ≡ true
            → Typed k (get (fetch_types_on h vec c gw conn chunk m).1 k) =
          λ v e there.
            subst (Typed k)
              (sym (
                rows k
                ∙ ap (λ (b : Bool). given c now (if b then some (truth k) else none) (get m k))
                    there
                ∙ ap (given c now (some (truth k))) e))
              (given-Typed c now k v) in
        (
          λ (v, e, t). elim (Bool-cases (contains k chunk)) [
            | inl there ↦ becomes v e there
            | inr absent ↦ (
              v,
              rows k
                  ∙ ap (λ (b : Bool). given c now (if b then some (truth k) else none) (get m k))
                      absent
                  ∙ e,
              t,
            )
          ],
          becomes,
        )

    pub fetch_present :
        (conn : gw.Conn) (chunk : List ℕ) (m : Map) (k : ℕ) (v : TrainState)
        → Answered chunk
        → get m k ≡ some v
        → (w : TrainState) × (get (fetch_types_on h vec c gw conn chunk m).1 k ≡ some w)
    fetch_present conn chunk m k v answered e =
        let now = gw.now (gw.get conn (types_path chunk)).0 in
        present (if contains k chunk then some (truth k) else none) (
          ((fetch_succeeds conn chunk m answered).2 k)
          ∙ ap (given c now (if contains k chunk then some (truth k) else none)) e)
      where
        present :
            (o : Option TrainType)
            → get (fetch_types_on h vec c gw conn chunk m).1 k
              ≡ given c (gw.now (gw.get conn (types_path chunk)).0) o (some v)
            → (w : TrainState) × (get (fetch_types_on h vec c gw conn chunk m).1 k ≡ some w)
        present none f = (v, f)
        present (some t) f = (stamp_type c t (gw.now (gw.get conn (types_path chunk)).0) v, f)

    pub fetch_service_keeps :
        (conn : gw.Conn) (n : ℕ) (m : Map) (k : ℕ)
        → Typed k (get m k)
        → Typed k (get (fetch_service_on h vec c gw conn n m).1 k)
    fetch_service_keeps conn n m k t =
        let sent = gw.get conn (service_path n) in
        subst (Typed k) (sym (fetch_service_on_rows h vec c gw conn n k m)) (
          served-Typed c (gw.now sent.0) k (if k == n then service_verdict gw sent.1 else none)
            (get m k) t)
