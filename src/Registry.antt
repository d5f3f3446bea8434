-- ===== src/Registry.antt =====
-- registry.rs: the live registry of trains. The map is any `IndexMap` of 512 entries, `Vec` any
-- bounded vector, and the instant of a call is an argument of it.
pub mod Picked
pub mod Attempts
pub mod Rows
pub mod Cooldown
pub mod Fill
pub mod Pending
pub mod Gate
pub mod Eviction
use mathlib.Core.Bool.{Bool, true, false, ◌&&◌, not}
use ns_pixels.Prelude.{
  ℕ, suc, ◌+◌, Option, none, some, List, [], ◌∷◌, if◌then◌else◌, ◌==◌, ltb, length,
}
use ns_pixels.Extern.Heapless.{IndexMap, BoundedVec}
use ns_pixels.Extern.Clock.{Clock}
use ns_pixels.Projection.{PixelCoord}
use ns_pixels.Train.{
  TrainType, ServiceType, TrainState, new_state, is_unknown_type, is_unknown_service,
}
use Attempts.{attempt_offset_s, bump_attempt_ago, ready}

abbrev pub max_trains : ℕ
max_trains = 512

abbrev pub evict_batch : ℕ
evict_batch = 64

abbrev pub TrainMap : Type 1
TrainMap = IndexMap max_trains TrainState

-- The update of a row that `upsert` makes through `get_mut`.
unfoldable pub refresh : Clock → PixelCoord → ℕ → TrainState → TrainState
refresh c pixel now state =
    let elapsed = c.checked_duration_since now state.last_seen in
    let delta_s : ℕ = elim elapsed [ none ↦ 0 | some d ↦ c.as_secs d ] in
    record state {
      last_type_attempt_ago_s = bump_attempt_ago state.last_type_attempt_ago_s delta_s;
      last_service_attempt_ago_s = bump_attempt_ago state.last_service_attempt_ago_s delta_s;
      pixel = pixel;
      last_seen = now;
    }

-- The update of `set_type`, and of `set_service`.
unfoldable pub stamp_type : Clock → TrainType → ℕ → TrainState → TrainState
stamp_type c typ now s = record s {
  typ = typ;
  last_type_attempt_ago_s = attempt_offset_s c s.last_seen now;
}

unfoldable pub stamp_service : Clock → ServiceType → ℕ → TrainState → TrainState
stamp_service c service now s = record s {
  service = service;
  last_service_attempt_ago_s = attempt_offset_s c s.last_seen now;
}

pub data UnknownAxis : Type 0 where
  type_axis service_axis : UnknownAxis

-- The `match axis`.
abbrev pub is_unknown : UnknownAxis → TrainState → Bool
is_unknown type_axis v = is_unknown_type v.typ
is_unknown service_axis v = is_unknown_service v.service

module _ (h : TrainMap) (vec : BoundedVec) (c : Clock) where
  open h use {Map, empty, entries, get, modify, insert, remove}
  open vec use {push}

  -- `Registry::len`
  unfoldable pub len : Map → ℕ
  len m = length (entries m)

  -- `Registry::is_empty`
  unfoldable pub is_empty : Map → Bool
  is_empty m = length (entries m) == 0

  unfoldable pub upsert : Map → ℕ → PixelCoord → ℕ → Map × Bool
  upsert m number pixel now = elim (get m number) [
    | some _ ↦ (modify m number (refresh c pixel now), false)
    | none ↦ (insert m number (new_state pixel now), true)
  ]

  unfoldable pub set_type : Map → ℕ → TrainType → ℕ → Map
  set_type m number typ now = elim (get m number) [
    | some _ ↦ modify m number (stamp_type c typ now)
    | none ↦ m
  ]

  unfoldable pub set_service : Map → ℕ → ServiceType → ℕ → Map
  set_service m number service now = elim (get m number) [
    | some _ ↦ modify m number (stamp_service c service now)
    | none ↦ m
  ]

  -- The first loop of `evict_older_than`, over the entries that are left to visit.
  unfoldable pub collect_stale : ℕ → List (ℕ × TrainState) → List ℕ → List ℕ
  collect_stale cutoff [] to_remove = to_remove
  collect_stale cutoff ((k, v) ∷ rest) to_remove = elim (ltb v.last_seen cutoff) [
    | true ↦ elim (push evict_batch to_remove k) [
      | none ↦ to_remove
      | some longer ↦ collect_stale cutoff rest longer
    ]
    | false ↦ collect_stale cutoff rest to_remove
  ]

  -- The second loop.
  unfoldable pub remove_all : Map → List ℕ → Map
  remove_all m [] = m
  remove_all m (k ∷ ks) = remove_all (remove m k) ks

  unfoldable pub evict_older_than : Map → ℕ → Map × ℕ
  evict_older_than m cutoff =
      let to_remove = collect_stale cutoff (entries m) [] in
      (remove_all m to_remove, length to_remove)

  count_unknown : UnknownAxis → List (ℕ × TrainState) → ℕ
  count_unknown axis [] = 0
  count_unknown axis ((_, v) ∷ rest) =
      let n = count_unknown axis rest in if is_unknown axis v then suc n else n

  unfoldable pub unknown_count : Map → ℕ × ℕ
  unfolding count_unknown
  unknown_count m = (count_unknown type_axis (entries m), count_unknown service_axis (entries m))

  -- The loop of `unknown_numbers`, whose buffer holds `cap` numbers.
  collect_unknown : UnknownAxis → ℕ → List (ℕ × TrainState) → List ℕ → List ℕ
  collect_unknown axis cap [] buf = buf
  collect_unknown axis cap ((k, v) ∷ rest) buf = elim (is_unknown axis v) [
    | true ↦ elim (push cap buf k) [
      | none ↦ buf
      | some longer ↦ collect_unknown axis cap rest longer
    ]
    | false ↦ collect_unknown axis cap rest buf
  ]

  unfoldable pub unknown_numbers : Map → ℕ → UnknownAxis → List ℕ
  unfolding collect_unknown
  unknown_numbers m cap axis = collect_unknown axis cap (entries m) []

  -- One of the two `if`s of `pending_enrichment`; `none` is its `break`.
  unfoldable pub offer : ℕ → List ℕ → ℕ → Bool → Option (List ℕ)
  offer cap buf k wanted = if ltb (length buf) cap && wanted then push cap buf k else some buf

  -- The loop of `pending_enrichment`. `none` is the panic of `duration_since` at a row that was
  -- last seen after `now`.
  unfoldable pub pending_loop :
      ℕ → ℕ → ℕ → ℕ → List (ℕ × TrainState) → List ℕ → List ℕ → Option (List ℕ × List ℕ)
  pending_loop t_cap s_cap now cooldown_s [] t_buf s_buf = some (t_buf, s_buf)
  pending_loop t_cap s_cap now cooldown_s ((k, v) ∷ rest) t_buf s_buf =
      elim (length t_buf == t_cap && length s_buf == s_cap) [
        | true ↦ some (t_buf, s_buf)
        | false ↦ elim (c.checked_duration_since now v.last_seen) [
          | none ↦ none
          | some d ↦
              elim (offer t_cap t_buf k (
                is_unknown_type v.typ
                && ready v.last_type_attempt_ago_s (c.as_secs d) cooldown_s)) [
                  | none ↦ some (t_buf, s_buf)
                  | some t_buf' ↦
                      elim (offer s_cap s_buf k (
                        is_unknown_service v.service
                        && ready v.last_service_attempt_ago_s (c.as_secs d) cooldown_s)) [
                          | none ↦ some (t_buf', s_buf)
                          | some s_buf' ↦ pending_loop t_cap s_cap now cooldown_s rest t_buf' s_buf'
                        ]
                ]
        ]
      ]

  unfoldable pub pending_enrichment :
      Map → ℕ → ℕ → List ℕ → List ℕ → ℕ → ℕ → Option (List ℕ × List ℕ)
  pending_enrichment m t_cap s_cap t_buf s_buf cooldown now =
      pending_loop t_cap s_cap now (c.as_secs cooldown) (entries m) t_buf s_buf
