-- ===== src/NsApi/Round/Requests.antt =====
-- Which requests a round makes, as the gateway sees them.
use mathlib.Core.Bool.{Bool, false}
use mathlib.Core.List.{append_assoc, append-nil}
use ns_pixels.Prelude.{
  ℕ, ◌≡◌, refl, sym, ap, ◌∙◌, Option, none, some, List, [], ◌∷◌, ◌++◌, map, arith, Bool-cases,
  subst, inl, inr,
}
use ns_pixels.Extern.Clock.{Clock}
use ns_pixels.Extern.Heapless.{BoundedVec}
use ns_pixels.Extern.Gateway.{Gateway}
use ns_pixels.Registry.{TrainMap}
use ns_pixels.Train.{ServiceType}
use ns_pixels.NsApi.Paths.{types_path, service_path}
use ns_pixels.NsApi.Fetch.{
  TrainInfo, JourneyResp, Fetched, ok, err, fetch_types_on, fetch_service_on,
}
use ns_pixels.NsApi.Batches.{Batches, chunks, concat, Chunked, concat-chunks, build_batches}
use ns_pixels.NsApi.Round.{
  finished, RoundResult, request_types, request_services, request_all, work_round, enrich_round,
  next_seed,
}

-- The gateway, with a log of the paths that it has been asked for over a connection.
abbrev pub logging : Gateway TrainInfo JourneyResp → Gateway TrainInfo JourneyResp
logging gw = record {
  E = gw.E;
  Network = gw.Network;
  Conn = gw.Conn × List (List ℕ);
  open_resource =
      λ net seed. elim (gw.open_resource net seed) [ none ↦ none | some conn ↦ some (conn, []) ];
  get = λ (conn, log) path. let sent = gw.get conn path in ((sent.0, log ++ path ∷ []), sent.1);
  now = λ (conn, log). gw.now conn;
  parse_infos = gw.parse_infos;
  parse_journey = gw.parse_journey;
}

module _ (h : TrainMap) (vec : BoundedVec) (c : Clock) (gw : Gateway TrainInfo JourneyResp) where
  open h use {Map}

  abbrev Logged : Type 0
  Logged = gw.Conn × List (List ℕ)

  log_next :
      (path : List ℕ) (rest log : List (List ℕ)) → log ++ path ∷ [] ++ rest ≡ log ++ path ∷ rest
  log_next path rest log = append_assoc log (path ∷ []) rest

  fetch_types_log :
      (conn : Logged) (chunk : List ℕ) (m : Map)
      → (fetch_types_on h vec c (logging gw) conn chunk m).0.1 ≡ conn.1 ++ types_path chunk ∷ []
  unfolding fetch_types_on
  fetch_types_log conn chunk m = refl

  fetch_service_log :
      (conn : Logged) (n : ℕ) (m : Map)
      → (fetch_service_on h vec c (logging gw) conn n m).0.1 ≡ conn.1 ++ service_path n ∷ []
  unfolding fetch_service_on
  fetch_service_log conn n m = refl

  -- Types that are asked for without a failure are asked for chunk by chunk.
  request_types_log :
      (cs : List (List ℕ)) (conn : Logged) (m : Map)
      → (request_types h vec c (logging gw) cs conn m).failed ≡ false
      → (request_types h vec c (logging gw) cs conn m).conn.1 ≡ conn.1 ++ map types_path cs
  unfolding request_types
  request_types_log [] conn m e = sym (append-nil conn.1)
  request_types_log (chunk ∷ rest) conn m e =
      let next = fetch_types_on h vec c (logging gw) conn chunk m in
      go next.2 refl (request_types_log rest next.0 next.1)
    where
      go :
          (f : Fetched gw.E ℕ)
          → (fetch_types_on h vec c (logging gw) conn chunk m).2 ≡ f
          → ((request_types h vec c
                  (logging gw)
                  rest
                  (fetch_types_on h vec c (logging gw) conn chunk m).0
                  (fetch_types_on h vec c (logging gw) conn chunk m).1).failed
                ≡ false
              → (request_types h vec c
                  (logging gw)
                  rest
                  (fetch_types_on h vec c (logging gw) conn chunk m).0
                  (fetch_types_on h vec c (logging gw) conn chunk m).1).conn.1
                ≡ (fetch_types_on h vec c (logging gw) conn chunk m).0.1 ++ map types_path rest)
          → (request_types h vec c (logging gw) (chunk ∷ rest) conn m).conn.1
            ≡ conn.1 ++ map types_path (chunk ∷ rest)
      go (err x) p i = absurd (ground arith)
      go (ok a) p i =
          let next = fetch_types_on h vec c (logging gw) conn chunk m in
          let same : (request_types h vec c (logging gw) (chunk ∷ rest) conn m).conn.1
              ≡ (request_types h vec c (logging gw) rest next.0 next.1).conn.1 =
            ground (arith, p) in
          same
          ∙ i (ground (arith, e, p))
          ∙ ap (λ l. l ++ map types_path rest) (fetch_types_log conn chunk m)
          ∙ log_next (types_path chunk) (map types_path rest) conn.1

  -- Services that are asked for without a failure are asked for one by one.
  request_services_log :
      (ns : List ℕ) (conn : Logged) (m : Map)
      → (request_services h vec c (logging gw) ns conn m).failed ≡ false
      → (request_services h vec c (logging gw) ns conn m).conn.1 ≡ conn.1 ++ map service_path ns
  unfolding request_services
  request_services_log [] conn m e = sym (append-nil conn.1)
  request_services_log (n ∷ rest) conn m e =
      let next = fetch_service_on h vec c (logging gw) conn n m in
      go next.2 refl (request_services_log rest next.0 next.1)
    where
      go :
          (f : Fetched gw.E ServiceType)
          → (fetch_service_on h vec c (logging gw) conn n m).2 ≡ f
          → ((request_services h vec c
                  (logging gw)
                  rest
                  (fetch_service_on h vec c (logging gw) conn n m).0
                  (fetch_service_on h vec c (logging gw) conn n m).1).failed
                ≡ false
              → (request_services h vec c
                  (logging gw)
                  rest
                  (fetch_service_on h vec c (logging gw) conn n m).0
                  (fetch_service_on h vec c (logging gw) conn n m).1).conn.1
                ≡ (fetch_service_on h vec c (logging gw) conn n m).0.1 ++ map service_path rest)
          → (request_services h vec c (logging gw) (n ∷ rest) conn m).conn.1
            ≡ conn.1 ++ map service_path (n ∷ rest)
      go (err x) p i = absurd (ground arith)
      go (ok a) p i =
          let next = fetch_service_on h vec c (logging gw) conn n m in
          let same : (request_services h vec c (logging gw) (n ∷ rest) conn m).conn.1
              ≡ (request_services h vec c (logging gw) rest next.0 next.1).conn.1 =
            ground (arith, p) in
          same
          ∙ i (ground (arith, e, p))
          ∙ ap (λ l. l ++ map service_path rest) (fetch_service_log conn n m)
          ∙ log_next (service_path n) (map service_path rest) conn.1

  -- What the gateway has been asked for over the connection of a round.
  abbrev pub Asked : Batches → RoundResult Logged Map → Type 0
  Asked b r =
      (conn : gw.Conn) × (cs : List (List ℕ)) × (r.conn
        ≡ some (conn, map types_path cs ++ map service_path b.services))
      × (concat cs ≡ b.types)
      × Chunked cs

  request_all-Asked :
      (b : Batches) (seed : ℕ) (conn : gw.Conn) (m : Map)
      → (request_all h vec c (logging gw) b seed (conn, []) m).end ≡ finished false
      → Asked b (request_all h vec c (logging gw) b seed (conn, []) m)
  unfolding request_all
  request_all-Asked b seed conn m e =
      let types = request_types h vec c (logging gw) (chunks b.types) (conn, []) m in
      elim (Bool-cases types.failed) [
        | inl bad ↦ absurd (ground arith)
        | inr good ↦
            let services =
              request_services h vec c (logging gw) b.services types.conn types.trains in
            let done : services.failed ≡ false = ground arith in
            let (whole, chunked) = concat-chunks b.types in
            let log =
              request_services_log b.services types.conn types.trains done
              ∙ ap (λ l. l ++ map service_path b.services)
                  (request_types_log (chunks b.types) (conn, []) m good) in
            (
              services.conn.0,
              chunks b.types,
              ground (arith, good) ∙ ap (λ (l : List (List ℕ)). some (services.conn.0, l)) log,
              whole,
              chunked,
            )
      ]

  -- A round that finishes has made its requests over a connection that was opened for it.
  work_round_finished :
      (b : Batches) (net : gw.Network) (seed : ℕ) (m : Map) (f : Bool)
      → (work_round h vec c (logging gw) b net seed m).end ≡ finished f
      → (conn : gw.Conn) × (work_round h vec c (logging gw) b net seed m
          ≡ request_all h vec c (logging gw) b (next_seed seed) (conn, []) m)
  unfolding work_round
  work_round_finished b net seed m f e = go (gw.open_resource net (next_seed seed)) refl
    where
      go :
          (o : Option gw.Conn)
          → gw.open_resource net (next_seed seed) ≡ o
          → (conn : gw.Conn) × (work_round h vec c (logging gw) b net seed m
              ≡ request_all h vec c (logging gw) b (next_seed seed) (conn, []) m)
      go none p = absurd (ground arith)
      go (some conn) p = (conn, ground arith)

  -- Take a gateway that logs the paths it is asked for over a connection. When a round finishes without a failure,
  -- the log of its connection is: for each chunk of the type batch in turn, the path that asks for the types of
  -- that chunk; then, for each train of the service batch in turn, the path that asks for its service. The chunks
  -- have one to eight trains and are the type batch, cut.
  pub enrich_round_covers :
      (queue : List ℕ) (now : ℕ) (net : gw.Network) (seed : ℕ) (m : Map) (b : Batches)
      (r : RoundResult Logged Map)
      → build_batches h vec c m now queue ≡ some b
      → enrich_round h vec c (logging gw) queue now net seed m ≡ some r
      → r.end ≡ finished false
      → (conn : gw.Conn) × (cs : List (List ℕ)) × (r.conn
          ≡ some (conn, map types_path cs ++ map service_path b.services))
        × (concat cs ≡ b.types)
        × Chunked cs
  unfolding enrich_round
  enrich_round_covers queue now net seed m b r e f g =
      let same : work_round h vec c (logging gw) b net seed m ≡ r = ground arith in
      let (conn, p) = work_round_finished b net seed m false (ap (λ x. x.end) same ∙ g) in
      subst (Asked b) (sym p ∙ same)
        (request_all-Asked b (next_seed seed) conn m (ap (λ x. x.end) (sym p ∙ same) ∙ g))
