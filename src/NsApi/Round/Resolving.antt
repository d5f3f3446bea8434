-- ===== src/NsApi/Round/Resolving.antt =====
-- What a sweep achieves when the gateway answers: the trains that it asks for get their types.
use mathlib.Core.Bool.{true, false, ◌||◌}
use mathlib.Core.Option.{some-injective}
use ns_pixels.Prelude.{
  ℕ, ◌-◌, ◌≤◌, ◌≡◌, refl, sym, ap, ◌∙◌, subst, ◌⊎◌, inl, inr, some, List, [], ◌∷◌, ◌++◌, arith,
  ◌==◌, length, contains, Bool-cases,
}
use ns_pixels.Extern.Clock.{Clock}
use ns_pixels.Extern.Heapless.{BoundedVec}
use ns_pixels.Extern.Gateway.{Gateway}
use ns_pixels.Train.{TrainType, ServiceType, TrainState}
use ns_pixels.Registry.{TrainMap}
use ns_pixels.Registry.Pending.{wants_type, pending_enrichment-Fills}
use ns_pixels.NsApi.{type_buffer_cap, service_buffer_cap, retry_cooldown_s}
use ns_pixels.NsApi.Fetch.{
  TrainInfo, JourneyResp, Fetched, ok, err, fetch_types_on, fetch_service_on,
}
use ns_pixels.NsApi.Batches.{Batches, chunks, concat, concat-chunks, drain, top_up, build_batches}
use ns_pixels.NsApi.Round.{
  RoundResult, request_types, request_services, request_all, work_round, enrich_round, next_seed,
}
use ns_pixels.NsApi.Fetch.Answered.{
  AllAnswered, Typed, fetch_succeeds, fetch_writes, fetch_present, fetch_service_keeps,
}

contains-append :
    (k : ℕ) (xs ys : List ℕ) → contains k (xs ++ ys) ≡ (contains k xs || contains k ys)
contains-append k [] ys = refl
contains-append k (x ∷ xs) ys = ground (arith, contains-append k xs ys)

contains_some : (k : ℕ) (xs : List ℕ) → contains k xs ≡ true → (length xs == 0) ≡ false
contains_some k [] e = absurd (ground arith)
contains_some k (x ∷ xs) e = ground arith

module _ (h : TrainMap) (vec : BoundedVec) (c : Clock) where
  -- A train that is due is in the batch of a sweep, unless the batch is full.
  due_in_batch :
      (m : h.Map) (now k : ℕ) (v : TrainState) (b : Batches)
      → ((j : ℕ) (w : TrainState) → h.get m j ≡ some w → w.last_seen ≤ now)
      → build_batches h vec c m now [] ≡ some b
      → h.get m k ≡ some v
      → wants_type c (c.as_secs (c.from_secs retry_cooldown_s)) (now - v.last_seen) v ≡ true
      → (contains k b.types ≡ true) ⊎ (type_buffer_cap ≤ length b.types)
  unfolding build_batches drain top_up
  due_in_batch m now k v b seen e f wanted =
      let (ts, ss, filled, (_, _, _, complete), _) =
        pending_enrichment-Fills h vec c m type_buffer_cap service_buffer_cap [] []
          (c.from_secs retry_cooldown_s) now (omega arith) (omega arith) seen in
      let batch : b ≡ record { queue = []; types = ts; services = ss } =
        some-injective _ _ (sym e ∙ ground (arith, filled)) in
      subst (λ (x : Batches). (contains k x.types ≡ true) ⊎ (type_buffer_cap ≤ length x.types))
        (sym batch) (complete k v f wanted)

module _ (gw : Gateway TrainInfo JourneyResp) (truth : ℕ → TrainType) where
  module _ (h : TrainMap) (vec : BoundedVec) (c : Clock) where
    open h use {Map, get}

    request_types_next :
        (chunk : List ℕ) (rest : List (List ℕ)) (conn : gw.Conn) (m : Map) (applied : ℕ)
        → (fetch_types_on h vec c gw conn chunk m).2 ≡ ok applied
        → let done = fetch_types_on h vec c gw conn chunk m in
          let after = request_types h vec c gw rest done.0 done.1 in
          ((request_types h vec c gw (chunk ∷ rest) conn m).failed ≡ after.failed)
          × ((request_types h vec c gw (chunk ∷ rest) conn m).trains ≡ after.trains)
          × ((request_types h vec c gw (chunk ∷ rest) conn m).conn ≡ after.conn)
    unfolding request_types
    request_types_next chunk rest conn m applied e =
        (ground (arith, e), ground (arith, e), ground (arith, e))

    -- All requests of the types are made, and type the trains of their chunks.
    request_types_answered :
        (cs : List (List ℕ)) (conn : gw.Conn) (m : Map)
        → AllAnswered gw truth cs
        → ((request_types h vec c gw cs conn m).failed ≡ false)
          × ((k : ℕ)
              → Typed gw truth k (get m k)
              → Typed gw truth k (get (request_types h vec c gw cs conn m).trains k))
          × ((k : ℕ) (v : TrainState)
              → get m k ≡ some v
              → contains k (concat cs) ≡ true
              → Typed gw truth k (get (request_types h vec c gw cs conn m).trains k))
    unfolding request_types
    request_types_answered [] conn m a = (refl, λ k t. t, λ k v e there. absurd (ground arith))
    request_types_answered (chunk ∷ rest) conn m (answered, all) =
        let (applied, done, _) = fetch_succeeds gw truth h vec c conn chunk m answered in
        let (same_failed, same_trains, _) = request_types_next chunk rest conn m applied done in
        let next = fetch_types_on h vec c gw conn chunk m in
        let (failed, keeps, types) = request_types_answered rest next.0 next.1 all in
        (
          same_failed ∙ failed,
          λ k t.
              subst (Typed gw truth k) (sym (ap (λ (x : Map). get x k) same_trains))
                (keeps k ((fetch_writes gw truth h vec c conn chunk m k answered).0 t)),
          λ k v e there. elim (Bool-cases (contains k chunk)) [
            | inl here ↦
                subst (Typed gw truth k) (sym (ap (λ (x : Map). get x k) same_trains))
                  (keeps k ((fetch_writes gw truth h vec c conn chunk m k answered).1 v e here))
            | inr absent ↦
                let (w, f) = fetch_present gw truth h vec c conn chunk m k v answered e in
                subst (Typed gw truth k) (sym (ap (λ (x : Map). get x k) same_trains))
                  (types k w f (ground (arith, contains-append k chunk (concat rest), absent)))
          ],
        )

    request_services_keeps :
        (ns : List ℕ) (conn : gw.Conn) (m : Map) (k : ℕ)
        → Typed gw truth k (get m k)
        → Typed gw truth k (get (request_services h vec c gw ns conn m).trains k)
    unfolding request_services
    request_services_keeps [] conn m k t = t
    request_services_keeps (n ∷ ns) conn m k t =
        let next = fetch_service_on h vec c gw conn n m in
        let here = fetch_service_keeps gw truth h vec c conn n m k t in
        ended next.2 refl here (request_services_keeps ns next.0 next.1 k here)
      where
        ended :
            (f : Fetched gw.E ServiceType)
            → (fetch_service_on h vec c gw conn n m).2 ≡ f
            → Typed gw truth k (get (fetch_service_on h vec c gw conn n m).1 k)
            → Typed gw truth k (
                get
                  (request_services h vec c gw ns
                    (fetch_service_on h vec c gw conn n m).0
                    (fetch_service_on h vec c gw conn n m).1).trains
                  k)
            → Typed gw truth k (get (request_services h vec c gw (n ∷ ns) conn m).trains k)
        ended (err x) e (v, f, t) after = (v, ground (arith, e, f), t)
        ended (ok s) e here (v, f, t) = (v, ground (arith, e, f), t)

    -- A round over an open connection types each train of its batch that has a row.
    request_all_types :
        (b : Batches) (seed : ℕ) (conn : gw.Conn) (m : Map) (k : ℕ) (v : TrainState)
        → AllAnswered gw truth (chunks b.types)
        → get m k ≡ some v
        → contains k b.types ≡ true
        → Typed gw truth k (get (request_all h vec c gw b seed conn m).trains k)
    unfolding request_all
    request_all_types b seed conn m k v all e there =
        let (good, _, types) = request_types_answered (chunks b.types) conn m all in
        let asked = request_types h vec c gw (chunks b.types) conn m in
        let (whole_batch, _) = concat-chunks b.types in
        let (w, f, t) =
          request_services_keeps b.services asked.conn asked.trains k
            (types k v e (ap (contains k) whole_batch ∙ there)) in
        (w, ground (arith, good, f), t)

    work_round_opened :
        (b : Batches) (net : gw.Network) (seed k : ℕ) (conn : gw.Conn) (m : Map)
        → contains k b.types ≡ true
        → gw.open_resource net (next_seed seed) ≡ some conn
        → work_round h vec c gw b net seed m ≡ request_all h vec c gw b (next_seed seed) conn m
    unfolding work_round
    work_round_opened b net seed k conn m there opened =
        ground (arith, contains_some k b.types there, opened)

    -- Take a sweep at a time that no row was last seen after, with no new trains in the channel, over a connection that
    -- opens, at which each chunk of the type batch is answered. Then the round ends in a result, in whose registry
    -- each train that was due, of unknown type and out of its cooldown, has its true type, unless the type batch of 32
    -- was full.
    pub sweep_resolves :
        (m : Map) (now : ℕ) (net : gw.Network) (seed : ℕ) (conn : gw.Conn) (b : Batches)
        → ((k : ℕ) (v : TrainState) → get m k ≡ some v → v.last_seen ≤ now)
        → gw.open_resource net (next_seed seed) ≡ some conn
        → build_batches h vec c m now [] ≡ some b
        → AllAnswered gw truth (chunks b.types)
        → (r : RoundResult gw.Conn Map) × (enrich_round h vec c gw [] now net seed m ≡ some r)
          × ((k : ℕ) (v : TrainState)
              → get m k ≡ some v
              → wants_type c (c.as_secs (c.from_secs retry_cooldown_s)) (now - v.last_seen) v ≡ true
              → ((w : TrainState) × (get r.trains k ≡ some w) × (w.typ ≡ truth k))
                ⊎ (type_buffer_cap ≤ length b.types))
    unfolding enrich_round
    sweep_resolves m now net seed conn b seen opened e all = (
      work_round h vec c gw b net seed m,
      ground (arith, e),
      λ k v f wanted. elim (due_in_batch h vec c m now k v b seen e f wanted) [
        | inl there ↦
            let typed = request_all_types b (next_seed seed) conn m k v all f there in
            inl (
              subst (λ (x : RoundResult gw.Conn Map). Typed gw truth k (get x.trains k))
                (sym (work_round_opened b net seed k conn m there opened)) typed)
        | inr full ↦ inr full
      ],
    )
