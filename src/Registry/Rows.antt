-- ===== src/Registry/Rows.antt =====
-- What the operations of the registry do to the row of each train number.
use mathlib.Core.Bool.{Bool, true, false}
use mathlib.Core.Option
use ns_pixels.Prelude.{ℕ, suc, ◌≡◌, Option, none, some, arith, if◌then◌else◌, ◌==◌, ltb, length}
use ns_pixels.Extern.Heapless.{BoundedVec}
use ns_pixels.Extern.Clock.{Clock}
use ns_pixels.Projection.{PixelCoord}
use ns_pixels.Train.{TrainType, ServiceType, TrainState, new_state}
use ns_pixels.Registry.{
  TrainMap, max_trains, refresh, stamp_type, stamp_service, len, upsert, set_type, set_service,
}

module _ (h : TrainMap) (vec : BoundedVec) (c : Clock) where
  open h use {Map, entries, get}

  -- The row that `upsert` leaves at its number.
  abbrev pub upserted : Map → PixelCoord → ℕ → Option TrainState → Option TrainState
  upserted m pixel now (some s) = some (refresh c pixel now s)
  upserted m pixel now none =
      if ltb (length (entries m)) max_trains then some (new_state pixel now) else none

  abbrev pub is_none : Option TrainState → Bool
  is_none none = true
  is_none (some _) = false

  -- After `upsert`, a known number has its row refreshed, a new one has a fresh row if there is
  -- room, and a new one at a full registry is dropped; every other row is as it was. The result
  -- tells whether the number was unknown.
  pub upsert_rows :
      (m : Map) (k j : ℕ) (pixel : PixelCoord) (now : ℕ)
      → (get (upsert h vec c m k pixel now).0 j
          ≡ (if j == k then upserted m pixel now (get m k) else get m j))
        × ((upsert h vec c m k pixel now).1 ≡ is_none (get m k))
  unfolding upsert
  upsert_rows m k j pixel now = ground (
    arith,
    h.get-insert m k j (new_state pixel now),
    h.insert_full m k (new_state pixel now),
    h.get-modify m k j (refresh c pixel now),
  )

  -- `set_type` stamps the row of a known number, and changes nothing else.
  pub set_type_rows :
      (m : Map) (k j : ℕ) (typ : TrainType) (now : ℕ)
      → get (set_type h vec c m k typ now) j
        ≡ (if j == k then Option.map (stamp_type c typ now) (get m k) else get m j)
  unfolding set_type
  set_type_rows m k j typ now = ground (arith, h.get-modify m k j (stamp_type c typ now))

  pub set_service_rows :
      (m : Map) (k j : ℕ) (service : ServiceType) (now : ℕ)
      → get (set_service h vec c m k service now) j
        ≡ (if j == k then Option.map (stamp_service c service now) (get m k) else get m j)
  unfolding set_service
  set_service_rows m k j service now =
      ground (arith, h.get-modify m k j (stamp_service c service now))

  -- The registry grows by one exactly when `upsert` reports a new number and there is room.
  pub len-upsert :
      (m : Map) (k : ℕ) (pixel : PixelCoord) (now : ℕ)
      → len h vec c (upsert h vec c m k pixel now).0 ≡ (
          if (upsert h vec c m k pixel now).1
          then (if ltb (len h vec c m) max_trains then suc (len h vec c m) else len h vec c m)
          else len h vec c m)
  unfolding upsert len
  len-upsert m k pixel now = ground (
    arith,
    h.length-insert m k (new_state pixel now),
    h.insert_full m k (new_state pixel now),
    h.length-modify m k (refresh c pixel now),
  )
