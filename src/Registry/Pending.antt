-- ===== src/Registry/Pending.antt =====
-- Which numbers `pending_enrichment` appends to its two buffers.
use mathlib.Core.Bool.{Bool, ◌&&◌}
use mathlib.Core.Path.{fun_ext, subst, sym}
use ns_pixels.Prelude.{
  ℕ, ◌-◌, ◌≤◌, ◌≡◌, refl, inl, inr, none, some, List, [], ◌∷◌, arith, if◌then◌else◌, ◌==◌, length,
  Bool-cases, Option-cases,
}
use ns_pixels.Prelude.Assoc.{AllEntries, AllEntries-lookup}
use ns_pixels.Extern.Heapless.{BoundedVec}
use ns_pixels.Extern.Clock.{Clock}
use ns_pixels.Train.{TrainState, is_unknown_type, is_unknown_service}
use ns_pixels.Registry.Fill.{grow, fill, length-grow, fill-full, Fills, fill-Fills}
use ns_pixels.Registry.Attempts.{ready}
use ns_pixels.Registry.{TrainMap, offer, pending_loop, pending_enrichment}

-- A row last seen `d` ticks ago wants a type: it is unknown and out of its cooldown.
abbrev pub wants_type : Clock → ℕ → ℕ → TrainState → Bool
wants_type c cooldown_s d v =
    is_unknown_type v.typ && ready v.last_type_attempt_ago_s (c.as_secs d) cooldown_s

abbrev pub wants_service : Clock → ℕ → ℕ → TrainState → Bool
wants_service c cooldown_s d v =
    is_unknown_service v.service && ready v.last_service_attempt_ago_s (c.as_secs d) cooldown_s

module _ (h : TrainMap) (vec : BoundedVec) (c : Clock) where
  open h use {Map, entries, get}

  offer-grow :
      (cap : ℕ) (buf : List ℕ) (k : ℕ) (wanted : Bool)
      → offer h vec c cap buf k wanted ≡ some (grow cap buf k wanted)
  unfolding offer
  offer-grow cap buf k wanted = ground (arith, vec.push_room cap buf k)

  module _ (t_cap s_cap now cooldown_s : ℕ) where
    -- One round of the loop.
    pending_loop-cons :
        (k : ℕ) (v : TrainState) (rest : List (ℕ × TrainState)) (t s : List ℕ)
        → pending_loop h vec c t_cap s_cap now cooldown_s ((k, v) ∷ rest) t s ≡ (
            if length t == t_cap && length s == s_cap
            then some (t, s)
            else elim (c.checked_duration_since now v.last_seen) [
              | none ↦ none
              | some d ↦
                  pending_loop h vec c t_cap s_cap now cooldown_s rest
                    (grow t_cap t k (wants_type c cooldown_s d v))
                    (grow s_cap s k (wants_service c cooldown_s d v))
            ])
    unfolding pending_loop
    pending_loop-cons k v rest t s = elim (Bool-cases (length t == t_cap && length s == s_cap)) [
      | inl full ↦ rw (full, pending_loop)
      | inr room ↦ elim (Option-cases (c.checked_duration_since now v.last_seen)) [
        | inl e ↦ rw (room, pending_loop) (rw (e, pending_loop))
        | inr (d, e) ↦
            rw (room, pending_loop)
              (rw (e, pending_loop)
                (rw (offer-grow t_cap t k (wants_type c cooldown_s d v), pending_loop)
                  (rw (offer-grow s_cap s k (wants_service c cooldown_s d v), pending_loop))))
      ]
    ]

    seen_first :
        (v : TrainState)
        → v.last_seen ≤ now
        → c.checked_duration_since now v.last_seen ≡ some (now - v.last_seen)
    seen_first v b = ground (arith, c.since_lem now v.last_seen)

    abbrev type_wanted : TrainState → Bool
    type_wanted v = wants_type c cooldown_s (now - v.last_seen) v

    abbrev service_wanted : TrainState → Bool
    service_wanted v = wants_service c cooldown_s (now - v.last_seen) v

    -- The shared loop fills each buffer as if it were alone.
    pending_loop-fill :
        (es : List (ℕ × TrainState)) (t s : List ℕ)
        → length t ≤ t_cap
        → length s ≤ s_cap
        → AllEntries (λ _ v. v.last_seen ≤ now) es
        → pending_loop h vec c t_cap s_cap now cooldown_s es t s
          ≡ some (fill t_cap type_wanted es t, fill s_cap service_wanted es s)
    unfolding pending_loop fill
    pending_loop-fill [] t s bt bs seen = refl
    pending_loop-fill ((k, v) ∷ es) t s bt bs seen =
        elim (Bool-cases (length t == t_cap && length s == s_cap)) [
          | inl full ↦ ground (
            arith,
            pending_loop-cons k v es t s,
            fill-full t_cap type_wanted ((k, v) ∷ es) t,
            fill-full s_cap service_wanted ((k, v) ∷ es) s,
          )
          | inr room ↦ ground (
            arith,
            pending_loop-cons k v es t s,
            seen_first v,
            length-grow t_cap t k (type_wanted v),
            length-grow s_cap s k (service_wanted v),
            pending_loop-fill es (grow t_cap t k (type_wanted v))
                (grow s_cap s k (service_wanted v)),
          )
        ]

  registry_Fills :
      (m : Map) (cap : ℕ) (wanted : TrainState → Bool) (buf : List ℕ)
      → length buf ≤ cap
      → Fills (get m) cap wanted buf (fill cap wanted (entries m) buf)
  registry_Fills m cap wanted buf b =
      subst (λ row. Fills row cap wanted buf (fill cap wanted (entries m) buf))
        (sym (fun_ext (h.get-lookup m)))
        (fill-Fills cap wanted (entries m) buf (h.entries-Distinct m) b)

  -- Unless a row is said to have been seen in the future, `pending_enrichment` does not panic. It
  -- leaves both buffers within their capacities and with their old contents in front. What it
  -- appends are numbers of rows that want the axis of that buffer, and a wanted row is missing only
  -- from a buffer that is full.
  pub pending_enrichment-Fills :
      (m : Map) (t_cap s_cap : ℕ) (t s : List ℕ) (cooldown now : ℕ)
      → length t ≤ t_cap
      → length s ≤ s_cap
      → ((k : ℕ) (v : TrainState) → get m k ≡ some v → v.last_seen ≤ now)
      → (t' : List ℕ) × (s' : List ℕ) × (pending_enrichment h vec c m t_cap s_cap t s cooldown now
          ≡ some (t', s'))
        × Fills (get m) t_cap (λ v. wants_type c (c.as_secs cooldown) (now - v.last_seen) v) t t'
        × Fills (get m) s_cap (λ v. wants_service c (c.as_secs cooldown) (now - v.last_seen) v) s s'
  unfolding pending_enrichment
  pending_enrichment-Fills m t_cap s_cap t s cooldown now bt bs seen = (
    fill t_cap _ (entries m) t,
    fill s_cap _ (entries m) s,
    pending_loop-fill t_cap s_cap now (c.as_secs cooldown) (entries m) t s bt bs (
        AllEntries-lookup _ (entries m) (h.entries-Distinct m)
          (λ k v e. seen k v (rw (h.get-lookup m k) e))),
    registry_Fills m t_cap _ t bt,
    registry_Fills m s_cap _ s bs,
  )
