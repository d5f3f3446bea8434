-- ===== src/Registry/Eviction.antt =====
-- What `evict_older_than` removes.
use mathlib.Core.Bool.{true}
use mathlib.Core.List.{append-nil, append_assoc}
use ns_pixels.Prelude.{
  ℕ, zero, suc, ◌+◌, ◌≤◌, ◌<◌, ◌≡◌, refl, sym, ◌∙◌, min, ◌⊎◌, inl, inr, Option, none, some, List,
  [], ◌∷◌, ◌++◌, arith, if◌then◌else◌, length, length-append, Bool-cases, contains,
}
use ns_pixels.Prelude.Assoc.{lookup}
use ns_pixels.Extern.Heapless.{BoundedVec}
use ns_pixels.Extern.Clock.{Clock}
use ns_pixels.Train.{TrainState}
use ns_pixels.Registry.{TrainMap, evict_batch, len, collect_stale, remove_all, evict_older_than}
use ns_pixels.Registry.Picked.{
  stale, picked, picked-zero, length-picked, picked_sound, picked_complete, Removable,
  Removable-mono, picked-Removable,
}

module _ (h : TrainMap) (vec : BoundedVec) (c : Clock) where
  open h use {Map, entries, get, remove}

  collect_stale-picked :
      (cutoff n : ℕ) (es : List (ℕ × TrainState)) (acc : List ℕ)
      → length acc + n ≡ evict_batch
      → collect_stale h vec c cutoff es acc ≡ acc ++ picked cutoff n es
  unfolding collect_stale picked
  collect_stale-picked cutoff n [] acc e = sym (append-nil acc)
  collect_stale-picked cutoff zero ((k, v) ∷ es) acc e = ground (
    arith,
    vec.push_full evict_batch acc k,
    collect_stale-picked cutoff 0 es acc,
    picked-zero cutoff es,
    append-nil acc,
  )
  collect_stale-picked cutoff (suc n) ((k, v) ∷ es) acc e = ground (
    arith,
    vec.push_room evict_batch acc k,
    collect_stale-picked cutoff n es (acc ++ k ∷ []),
    collect_stale-picked cutoff (suc n) es acc,
    length-append acc (k ∷ []),
    append_assoc acc (k ∷ []) (picked cutoff n es),
  )

  get-remove_all :
      (m : Map) (ks : List ℕ) (j : ℕ)
      → get (remove_all h vec c m ks) j ≡ (if contains j ks then none else get m j)
  unfolding remove_all
  get-remove_all m [] j = refl
  get-remove_all m (k ∷ ks) j = ground (arith, get-remove_all (remove m k) ks j, h.get-remove m k j)

  len-remove_all :
      (m : Map) (ks : List ℕ)
      → Removable (get m) ks
      → len h vec c (remove_all h vec c m ks) + length ks ≡ len h vec c m
  unfolding remove_all len
  len-remove_all m [] r = omega arith
  len-remove_all m (k ∷ ks) ((v, e), fresh, r) = omega (
    arith,
    len-remove_all (remove m k) ks (
        Removable-mono (get m) (get (remove m k)) ks
          (λ j w there f. ground (arith, h.get-remove m k j, fresh)) r),
    h.length-remove m k e,
  )

  evicted : Map → ℕ → List ℕ
  evicted m cutoff = picked cutoff evict_batch (entries m)

  evict-eq :
      (m : Map) (cutoff : ℕ)
      → evict_older_than h vec c m cutoff
        ≡ (remove_all h vec c m (evicted m cutoff), length (evicted m cutoff))
  unfolding evict_older_than evicted
  evict-eq m cutoff = rw (collect_stale-picked cutoff evict_batch (entries m) [] refl)

  get-Distinct-lookup :
      (m : Map) (j : ℕ) {o : Option TrainState} → get m j ≡ o → lookup j (entries m) ≡ o
  get-Distinct-lookup m j e = sym (h.get-lookup m j) ∙ e

  -- `evict_older_than` reports the number of stale rows or 64, whichever is less, and the registry
  -- shrinks by just that. The row of each number is kept as it is, unless it was last seen before the
  -- cutoff: then it may be gone.
  pub evict_older_than_rows :
      (m : Map) (cutoff j : ℕ)
      → let (m', n) = evict_older_than h vec c m cutoff in
        (n ≡ min evict_batch (length (stale cutoff (entries m))))
        × (len h vec c m' + n ≡ len h vec c m)
        × ((get m' j ≡ get m j)
            ⊎ ((get m' j ≡ none)
                × ((v : TrainState) × (get m j ≡ some v) × (v.last_seen < cutoff))))
  evict_older_than_rows m cutoff j = rw (evict-eq m cutoff) (
    length-evicted,
    len-remove_all m (evicted m cutoff) evicted-Removable,
    elim (Bool-cases (contains j (evicted m cutoff))) [
      | inl there ↦ inr (ground (arith, get-remove_all m (evicted m cutoff) j), gone there)
      | inr spared ↦ inl (ground (arith, get-remove_all m (evicted m cutoff) j))
    ],
  )
    where
      length-evicted :
          length (evicted m cutoff) ≡ min evict_batch (length (stale cutoff (entries m)))
      length-evicted = unfold evicted in length-picked cutoff evict_batch (entries m)

      evicted-Removable : Removable (get m) (evicted m cutoff)
      evicted-Removable =
          Removable-mono (λ k. lookup k (entries m)) (get m) (evicted m cutoff)
            (λ k v _ e. h.get-lookup m k ∙ e)
            (unfold evicted in
              picked-Removable cutoff evict_batch (entries m) (h.entries-Distinct m))

      gone :
          contains j (evicted m cutoff) ≡ true
          → (v : TrainState) × (get m j ≡ some v) × (v.last_seen < cutoff)
      gone there =
          let (v, l, b) =
            picked_sound cutoff j evict_batch (entries m) (h.entries-Distinct m)
              (unfold evicted in there) in
          (v, h.get-lookup m j ∙ l, b)

  -- If at most 64 rows are stale, one call leaves none that was last seen before the cutoff.
  pub evict_older_than_all :
      (m : Map) (cutoff j : ℕ) (v : TrainState)
      → length (stale cutoff (entries m)) ≤ evict_batch
      → get (evict_older_than h vec c m cutoff).0 j ≡ some v
      → cutoff ≤ v.last_seen
  unfolding evicted
  evict_older_than_all m cutoff j v few e = ground (
    arith,
    evict-eq m cutoff,
    get-remove_all m (evicted m cutoff) j,
    h.get-lookup m j,
    picked_complete cutoff j evict_batch v (entries m) few,
  )
