-- ===== src/System/Rows.antt =====
-- A property of every row of the registry, kept by each of its operations.
use mathlib.Core.Bool.{Bool, true, false}
use mathlib.Core.Option
use ns_pixels.Prelude.{
  ℕ, ◌≤◌, ◌<◌, ◌^◌, sym, subst, inl, inr, Option, none, some, arith, if◌then◌else◌, ltb, ◌==◌,
  length,
}
use ns_pixels.Extern.Clock.{Clock}
use ns_pixels.Extern.Heapless.{BoundedVec}
use ns_pixels.Projection.{PixelCoord, IsBytes}
use ns_pixels.Train.{TrainType, ServiceType, TrainState, new_state}
use ns_pixels.Registry.Attempts.{attempt_offset_s, bump_attempt_ago}
use ns_pixels.Registry.{
  TrainMap, max_trains, refresh, stamp_type, stamp_service, upsert, set_type, set_service,
  evict_older_than,
}
use ns_pixels.Registry.Rows.{upserted, upsert_rows, set_type_rows, set_service_rows}
use ns_pixels.Registry.Eviction.{evict_older_than_rows}

-- The fields of a row fit their machine types, and it was not seen in the future.
pub record IsRow (time : ℕ) (v : TrainState) : Type 0 where
  pub seen : v.last_seen ≤ time
  pub pixel_bytes : IsBytes v.pixel
  pub type_u16 : v.last_type_attempt_ago_s < 2 ^ 16
  pub service_u16 : v.last_service_attempt_ago_s < 2 ^ 16

attempt_offset_s-lt : (c : Clock) (a b : ℕ) → attempt_offset_s c a b < 2 ^ 16
unfolding attempt_offset_s
attempt_offset_s-lt c a b = ground arith

bump_attempt_ago-lt : (a b : ℕ) → bump_attempt_ago a b < 2 ^ 16
unfolding bump_attempt_ago
bump_attempt_ago-lt a b = ground arith

new_state-IsRow :
    (time now : ℕ) (p : PixelCoord) → now ≤ time → IsBytes p → IsRow time (new_state p now)
unfolding new_state
new_state-IsRow time now p l b = record {
  seen = l;
  pixel_bytes = b;
  type_u16 = omega arith;
  service_u16 = omega arith;
}

refresh-IsRow :
    (time now : ℕ) (c : Clock) (p : PixelCoord) (v : TrainState)
    → now ≤ time
    → IsBytes p
    → IsRow time (refresh c p now v)
unfolding refresh
refresh-IsRow time now c p v l b = record {
  seen = l;
  pixel_bytes = b;
  type_u16 = bump_attempt_ago-lt v.last_type_attempt_ago_s _;
  service_u16 = bump_attempt_ago-lt v.last_service_attempt_ago_s _;
}

pub stamp_type-IsRow :
    (time now : ℕ) (c : Clock) (t : TrainType) (v : TrainState)
    → IsRow time v
    → IsRow time (stamp_type c t now v)
unfolding stamp_type
stamp_type-IsRow time now c t v r = record {
  seen = r.seen;
  pixel_bytes = r.pixel_bytes;
  type_u16 = attempt_offset_s-lt c v.last_seen now;
  service_u16 = r.service_u16;
}

pub stamp_service-IsRow :
    (time now : ℕ) (c : Clock) (t : ServiceType) (v : TrainState)
    → IsRow time v
    → IsRow time (stamp_service c t now v)
unfolding stamp_service
stamp_service-IsRow time now c t v r = record {
  seen = r.seen;
  pixel_bytes = r.pixel_bytes;
  type_u16 = r.type_u16;
  service_u16 = attempt_offset_s-lt c v.last_seen now;
}

-- The same for a row that may be absent.
abbrev pub MaybeRow : ℕ → Option TrainState → Type 0
MaybeRow time none = Unit
MaybeRow time (some v) = IsRow time v

pub MaybeRow-map :
    (time : ℕ) (f : TrainState → TrainState)
    → ((v : TrainState) → IsRow time v → IsRow time (f v))
    → (o : Option TrainState) → MaybeRow time o
    → MaybeRow time (Option.map f o)
MaybeRow-map time f keep none r = tt
MaybeRow-map time f keep (some v) r = keep v r

MaybeRow-if :
    (time : ℕ) (b : Bool) (x y : Option TrainState)
    → MaybeRow time x
    → MaybeRow time y
    → MaybeRow time (if b then x else y)
MaybeRow-if time true x y r s = r
MaybeRow-if time false x y r s = s

module _ (h : TrainMap) (vec : BoundedVec) (c : Clock) where
  open h use {Map, entries, get}

  abbrev pub SoundRows : ℕ → Map → Type 0
  SoundRows time m = (k : ℕ) → MaybeRow time (get m k)

  upserted-MaybeRow :
      (time now : ℕ) (m : Map) (p : PixelCoord) (o : Option TrainState)
      → now ≤ time
      → IsBytes p
      → MaybeRow time (upserted h vec c m p now o)
  upserted-MaybeRow time now m p (some s) l b = refresh-IsRow time now c p s l b
  upserted-MaybeRow time now m p none l b =
      MaybeRow-if time (ltb (length (entries m)) max_trains) (some (new_state p now)) none
        (new_state-IsRow time now p l b) tt

  pub upsert-SoundRows :
      (time now : ℕ) (m : Map) (n : ℕ) (p : PixelCoord)
      → now ≤ time
      → IsBytes p
      → SoundRows time m
      → SoundRows time (upsert h vec c m n p now).0
  upsert-SoundRows time now m n p l b s k =
      subst (MaybeRow time) (sym (upsert_rows h vec c m n k p now).0) (
        MaybeRow-if time (k == n) (upserted h vec c m p now (get m n)) (get m k)
          (upserted-MaybeRow time now m p (get m n) l b) (s k))

  pub set_type-SoundRows :
      (time now : ℕ) (m : Map) (n : ℕ) (t : TrainType)
      → SoundRows time m
      → SoundRows time (set_type h vec c m n t now)
  set_type-SoundRows time now m n t s k =
      subst (MaybeRow time) (sym (set_type_rows h vec c m n k t now)) (
        MaybeRow-if time (k == n) (Option.map (stamp_type c t now) (get m n)) (get m k)
          (MaybeRow-map time (stamp_type c t now) (stamp_type-IsRow time now c t) (get m n) (s n))
          (s k))

  pub set_service-SoundRows :
      (time now : ℕ) (m : Map) (n : ℕ) (t : ServiceType)
      → SoundRows time m
      → SoundRows time (set_service h vec c m n t now)
  set_service-SoundRows time now m n t s k =
      subst (MaybeRow time) (sym (set_service_rows h vec c m n k t now)) (
        MaybeRow-if time (k == n) (Option.map (stamp_service c t now) (get m n)) (get m k)
          (MaybeRow-map time (stamp_service c t now) (stamp_service-IsRow time now c t) (get m n)
            (s n))
          (s k))

  pub evict_older_than-SoundRows :
      (time cutoff : ℕ) (m : Map)
      → SoundRows time m
      → SoundRows time (evict_older_than h vec c m cutoff).0
  evict_older_than-SoundRows time cutoff m s k =
      elim ((evict_older_than_rows h vec c m cutoff k).2) [
        | inl same ↦ subst (MaybeRow time) (sym same) (s k)
        | inr (gone, _) ↦ subst (MaybeRow time) (sym gone) tt
      ]
