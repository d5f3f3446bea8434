-- ===== src/NsApi/Batches.antt =====
-- The batches of a round: what is drained from the queue, topped up by the registry, and cut into chunks.
use ns_pixels.Prelude.{
  ℕ, zero, suc, ◌≤◌, ◌≡◌, refl, ap, ◌∙◌, Option, none, some, List, [], ◌∷◌, ◌++◌, if◌then◌else◌,
  ltb, length, take, drop, arith, length-drop, length-take, take-append-drop,
}
use ns_pixels.Extern.Clock.{Clock}
use ns_pixels.Extern.Heapless.{BoundedVec}
use ns_pixels.Registry.{TrainMap, pending_enrichment}
use ns_pixels.NsApi.{type_buffer_cap, service_buffer_cap, batch_max, retry_cooldown_s}

-- `slice::chunks`, with the length as fuel.
unfoldable pub chunks_of : ℕ → ℕ → List ℕ → List (List ℕ)
chunks_of fuel n [] = []
chunks_of zero n (x ∷ xs) = []
chunks_of (suc fuel) n (x ∷ xs) = take n (x ∷ xs) ∷ chunks_of fuel n (drop n (x ∷ xs))

unfoldable pub chunks : List ℕ → List (List ℕ)
unfolding chunks_of
chunks xs = chunks_of (length xs) batch_max xs

-- The batches, and the queue behind them.
pub record Batches : Type 0 where
  pub queue : List ℕ
  pub types : List ℕ
  pub services : List ℕ

module _ (vec : BoundedVec) where
  -- `let _ = v.push(n)`
  abbrev pub push_or_drop : ℕ → List ℕ → ℕ → List ℕ
  push_or_drop cap xs n = elim (vec.push cap xs n) [ none ↦ xs | some longer ↦ longer ]

  -- The `while` that drains the queue.
  unfoldable pub drain : List ℕ → List ℕ → List ℕ → Batches
  drain [] types services = record { queue = []; types = types; services = services }
  drain (n ∷ queue) types services =
      if ltb (length types) type_buffer_cap
      then drain queue (push_or_drop type_buffer_cap types n)
          (push_or_drop service_buffer_cap services n)
      else record { queue = n ∷ queue; types = types; services = services }

module _ (h : TrainMap) (vec : BoundedVec) (c : Clock) where
  -- With no new train, the registry fills the batches; `none` is its panic.
  unfoldable pub top_up : h.Map → ℕ → Batches → Option Batches
  top_up m now b = elim b.types [
    | [] ↦
        elim (pending_enrichment h vec c m type_buffer_cap service_buffer_cap [] b.services
          (c.from_secs retry_cooldown_s) now) [
            | none ↦ none
            | some (types, services) ↦
                some (record { queue = b.queue; types = types; services = services })
          ]
    | n ∷ ns ↦ some b
  ]

  unfoldable pub build_batches : h.Map → ℕ → List ℕ → Option Batches
  unfolding top_up drain
  build_batches m now queue = top_up m now (drain vec queue [] [])

abbrev pub concat : List (List ℕ) → List ℕ
concat [] = []
concat (xs ∷ xss) = xs ++ concat xss

-- Between one and `batch_max` ids in each chunk.
abbrev pub Chunked : List (List ℕ) → Type 0
Chunked [] = Unit
Chunked (xs ∷ xss) = (1 ≤ length xs) × (length xs ≤ batch_max) × Chunked xss

concat-chunks_of :
    (fuel : ℕ) (xs : List ℕ)
    → length xs ≤ fuel
    → (concat (chunks_of fuel batch_max xs) ≡ xs) × Chunked (chunks_of fuel batch_max xs)
unfolding chunks_of
concat-chunks_of fuel [] b = (refl, tt)
concat-chunks_of zero (x ∷ xs) b = absurd (omega arith)
concat-chunks_of (suc fuel) (x ∷ xs) b =
    let rest = drop batch_max (x ∷ xs) in
    let (e, f) = concat-chunks_of fuel rest (omega (arith, length-drop batch_max (x ∷ xs))) in
    (
      ap (λ ys. take batch_max (x ∷ xs) ++ ys) e ∙ take-append-drop batch_max (x ∷ xs),
      (
        omega (arith, length-take batch_max (x ∷ xs)),
        omega (arith, length-take batch_max (x ∷ xs)),
        f,
      ),
    )

pub concat-chunks : (xs : List ℕ) → (concat (chunks xs) ≡ xs) × Chunked (chunks xs)
unfolding chunks
concat-chunks xs = concat-chunks_of (length xs) xs (omega arith)
