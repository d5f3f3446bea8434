-- ===== src/NsApi/Round.antt =====
-- A round of the task's loop, behind its wake-up.
pub mod Requests
pub mod Resolving
use mathlib.Core.Bool.{Bool, true, false, ◌&&◌, not}
use ns_pixels.Prelude.{
  ℕ, zero, suc, ◌+◌, ◌*◌, ◌%◌, ◌^◌, Option, none, some, List, [], ◌∷◌, ◌++◌, if◌then◌else◌, length,
  ◌==◌,
}
use ns_pixels.Extern.Clock.{Clock}
use ns_pixels.Extern.Heapless.{BoundedVec}
use ns_pixels.Extern.Gateway.{Gateway}
use ns_pixels.Registry.{TrainMap}
use ns_pixels.NsApi.Fetch.{TrainInfo, JourneyResp, ok, err, fetch_types_on, fetch_service_on}
use ns_pixels.NsApi.Batches.{Batches, chunks, build_batches}

-- How a round ends: without work, without a connection, or with its requests made, after which the
-- snapshot is published. A connection that is not opened and a failed request are followed by the backoff.
pub data End : Type 0 where
  idle not_opened : End
  finished : Bool → End

-- What the requests of one kind leave: the connection, the registry, and whether a request failed.
pub record Requested (Conn Map : Type 0) : Type 0 where
  pub conn : Conn
  pub trains : Map
  pub failed : Bool

-- What a round leaves. A connection that was opened is dropped at the end of the round, as it stands then.
pub record RoundResult (Conn Map : Type 0) : Type 0 where
  pub trains : Map
  pub queue : List ℕ
  pub rng_seed : ℕ
  pub conn : Option Conn
  pub end : End

-- The seed of the next connection.
abbrev pub next_seed : ℕ → ℕ
next_seed seed = (seed * 6364136223846793005 + 1) % 2 ^ 64

module _ (h : TrainMap) (vec : BoundedVec) (c : Clock) (gw : Gateway TrainInfo JourneyResp) where
  open h use {Map}
  open gw use {Conn, Network}

  -- The loop over the chunks, which the first failure breaks.
  unfoldable pub request_types : List (List ℕ) → Conn → Map → Requested Conn Map
  unfolding fetch_types_on
  request_types [] conn m = record { conn = conn; trains = m; failed = false }
  request_types (chunk ∷ rest) conn m =
      let (conn2, m2, result) = fetch_types_on h vec c gw conn chunk m in
      elim result [
        | err e ↦ record { conn = conn2; trains = m2; failed = true }
        | ok applied ↦ request_types rest conn2 m2
      ]

  -- The loop over the services.
  unfoldable pub request_services : List ℕ → Conn → Map → Requested Conn Map
  unfolding fetch_service_on
  request_services [] conn m = record { conn = conn; trains = m; failed = false }
  request_services (n ∷ rest) conn m =
      let (conn2, m2, result) = fetch_service_on h vec c gw conn n m in
      elim result [
        | err e ↦ record { conn = conn2; trains = m2; failed = true }
        | ok s ↦ request_services rest conn2 m2
      ]

  -- Both kinds over one connection.
  unfoldable pub request_all : Batches → ℕ → Conn → Map → RoundResult Conn Map
  unfolding request_types request_services
  request_all b seed conn m =
      let types = request_types (chunks b.types) conn m in
      elim types.failed [
        | true ↦ record {
          trains = types.trains;
          queue = b.queue;
          rng_seed = seed;
          conn = some types.conn;
          end = finished true;
        }
        | false ↦
            let services = request_services b.services types.conn types.trains in
            record {
              trains = services.trains;
              queue = b.queue;
              rng_seed = seed;
              conn = some services.conn;
              end = finished services.failed;
            }
      ]

  -- A round that asks for nothing.
  abbrev pub no_requests : Batches → ℕ → End → Map → RoundResult Conn Map
  no_requests b seed end m = record {
    trains = m;
    queue = b.queue;
    rng_seed = seed;
    conn = none;
    end = end;
  }

  unfoldable pub work_round : Batches → Network → ℕ → Map → RoundResult Conn Map
  unfolding request_all
  work_round b net seed m =
      if (length b.types == 0) && (length b.services == 0)
      then no_requests b seed idle m
      else elim (gw.open_resource net (next_seed seed)) [
        | none ↦ no_requests b (next_seed seed) not_opened m
        | some conn ↦ request_all b (next_seed seed) conn m
      ]

  -- The whole round, from the queue and the time of the sweep.
  unfoldable pub enrich_round : List ℕ → ℕ → Network → ℕ → Map → Option (RoundResult Conn Map)
  unfolding build_batches work_round
  enrich_round queue now net seed m = elim (build_batches h vec c m now queue) [
    | none ↦ none
    | some b ↦ some (work_round b net seed m)
  ]
