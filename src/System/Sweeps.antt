-- ===== src/System/Sweeps.antt =====
-- The batches that a sweep of the registry and the channel gets.
use ns_pixels.Prelude.{
  ℕ, ◌≤◌, ◌≡◌, refl, subst, inl, inr, some, List, [], ◌∷◌, arith, ltb, length, length-append,
  Bool-cases,
}
use ns_pixels.Extern.Clock.{Clock}
use ns_pixels.Extern.Heapless.{BoundedVec}
use ns_pixels.Registry.{TrainMap}
use ns_pixels.Registry.Pending.{pending_enrichment-Fills}
use ns_pixels.NsApi.{type_buffer_cap, service_buffer_cap, retry_cooldown_s}
use ns_pixels.NsApi.Batches.{Batches, push_or_drop, drain, top_up, build_batches}
use ns_pixels.System.Rows.{IsRow, MaybeRow, SoundRows}

length-drain :
    (vec : BoundedVec) (queue ts ss : List ℕ) → length (drain vec queue ts ss).queue ≤ length queue
unfolding drain
length-drain vec [] ts ss = omega arith
length-drain vec (n ∷ queue) ts ss = ground (
  arith,
  length-drain vec queue (push_or_drop vec type_buffer_cap ts n)
      (push_or_drop vec service_buffer_cap ss n),
)

push_or_drop_bounded :
    (vec : BoundedVec) (cap : ℕ) (xs : List ℕ) (x : ℕ)
    → length xs ≤ cap
    → length (push_or_drop vec cap xs x) ≤ cap
push_or_drop_bounded vec cap xs x b = elim (Bool-cases (ltb (length xs) cap)) [
  | inl room ↦ ground (arith, room, vec.push_room cap xs x, length-append xs (x ∷ []))
  | inr full ↦ ground (arith, full, vec.push_full cap xs x)
]

drain_services :
    (vec : BoundedVec) (queue ts ss : List ℕ)
    → length ss ≤ service_buffer_cap
    → length (drain vec queue ts ss).services ≤ service_buffer_cap
unfolding drain
drain_services vec [] ts ss b = b
drain_services vec (n ∷ queue) ts ss b = ground (
  arith,
  drain_services vec queue (push_or_drop vec type_buffer_cap ts n)
      (push_or_drop vec service_buffer_cap ss n)
      (push_or_drop_bounded vec service_buffer_cap ss n b),
)

module _ (h : TrainMap) (vec : BoundedVec) (c : Clock) where
  open h use {Map}

  -- A sweep's batches come from a part of the channel, and there are some.
  pub build_batches_done :
      (m : Map) (time : ℕ) (queue : List ℕ)
      → SoundRows h vec c time m
      → (b : Batches) × (build_batches h vec c m time queue ≡ some b)
        × (length b.queue ≤ length queue)
  unfolding build_batches
  build_batches_done m time queue s =
      let drained = drain vec queue [] [] in
      topped drained.queue drained.types drained.services (length-drain vec queue [] [])
        (drain_services vec queue [] [] (omega arith))
    where
      topped :
          (q ts ss : List ℕ)
          → length q ≤ length queue
          → length ss ≤ service_buffer_cap
          → (b : Batches) × (top_up h vec c m time (record { queue = q; types = ts; services = ss })
              ≡ some b)
            × (length b.queue ≤ length queue)
      topped q (n ∷ ts) ss l b = (_, unfold top_up in refl, l)
      topped q [] ss l b =
          let (t', s', e, _, _) =
            pending_enrichment-Fills h vec c m type_buffer_cap service_buffer_cap [] ss
              (c.from_secs retry_cooldown_s) time (omega arith) b
              (λ k v found. let r : IsRow time v = subst (MaybeRow time) found (s k) in r.seen) in
          (record { queue = q; types = t'; services = s' }, unfold top_up in ground (arith, e), l)
