-- ===== src/Exchange/Returning.antt =====
-- The snapshot buffers go round: none is lost, and what is published is shown.
use ns_pixels.Prelude.{subst, ℕ, ◌-◌, ◌≡◌, refl, sym, ap, ◌∙◌, ◌⊎◌, inl, inr, some, List, arith}
use ns_pixels.Train.{PixelData}
use ns_pixels.Exchange.{
  Producer, feed, ns_api, map_mode, Buffers, held, rebuild_into, publish_clusters,
  take_fresh_clusters, written, Reach,
}
use ns_pixels.Exchange.Ownership.{
  Place, in_fresh, in_free, at, owned, Owned, Reach-Owned, nothing_held,
}

-- A producer may take a buffer.
abbrev pub FreeBuffer : Buffers → Type 0
FreeBuffer s = (b : ℕ) × (s.free ≡ some b)

-- A buffer is free, or is after the next frame of the display, or after a producer has published the one that
-- it holds and the next frame.
abbrev pub Returns : Buffers → Type 0
Returns s =
    FreeBuffer s
    ⊎ FreeBuffer (take_fresh_clusters s)
    ⊎ ((p : Producer) × FreeBuffer (take_fresh_clusters (publish_clusters p s)))

Returns-at : (w : Place) (d : ℕ) (content : ℕ → List PixelData) → Returns (owned w d content)
unfolding take_fresh_clusters publish_clusters
Returns-at in_free d c = inl (_, refl)
Returns-at in_fresh d c = inr (inl (_, refl))
Returns-at (at feed) d c = inr (inr (feed, (_, refl)))
Returns-at (at ns_api) d c = inr (inr (ns_api, (_, refl)))
Returns-at (at map_mode) d c = inr (inr (map_mode, (_, refl)))

-- No buffer is ever lost and nobody waits for good: in every reachable state a buffer is free, or becomes free
-- with the next frame of the display, at the latest when the producer that holds one has published it.
pub Reach-Returns : {s : Buffers} → Reach s → Returns s
unfolding Owned
Reach-Returns r = let (w, d, c, l, e) = Reach-Owned r in subst Returns (sym e) (Returns-at w d c)

-- After a producer's snapshot, the publication and the next frame.
abbrev pub shown : Producer → List PixelData → Buffers → Buffers
shown p new s = take_fresh_clusters (publish_clusters p (rebuild_into p new s))

written_self :
    (i : ℕ) (new : List PixelData) (content : ℕ → List PixelData)
    → written (some i) new content i ≡ new
written_self i new content = ground arith

shown_at :
    (w : Place) (p : Producer) (d b : ℕ) (content : ℕ → List PixelData) (new : List PixelData)
    → held p (owned w d content) ≡ some b
    → ((shown p new (owned w d content)).content (shown p new (owned w d content)).clusters ≡ new)
      × ((shown p new (owned w d content)).free ≡ some d)
unfolding take_fresh_clusters publish_clusters rebuild_into
shown_at in_fresh feed d b c new e = absurd (nothing_held e)
shown_at in_fresh ns_api d b c new e = absurd (nothing_held e)
shown_at in_fresh map_mode d b c new e = absurd (nothing_held e)
shown_at in_free feed d b c new e = absurd (nothing_held e)
shown_at in_free ns_api d b c new e = absurd (nothing_held e)
shown_at in_free map_mode d b c new e = absurd (nothing_held e)
shown_at (at feed) feed d b c new e = (written_self (1 - d) new c, refl)
shown_at (at feed) ns_api d b c new e = absurd (nothing_held e)
shown_at (at feed) map_mode d b c new e = absurd (nothing_held e)
shown_at (at ns_api) feed d b c new e = absurd (nothing_held e)
shown_at (at ns_api) ns_api d b c new e = (written_self (1 - d) new c, refl)
shown_at (at ns_api) map_mode d b c new e = absurd (nothing_held e)
shown_at (at map_mode) feed d b c new e = absurd (nothing_held e)
shown_at (at map_mode) ns_api d b c new e = absurd (nothing_held e)
shown_at (at map_mode) map_mode d b c new e = (written_self (1 - d) new c, refl)

-- What a producer rebuilds into its buffer and publishes is, whole, what the display has at its next frame, and
-- the display's old buffer is free then.
pub published_shown :
    {s : Buffers} (p : Producer) (b : ℕ) (new : List PixelData)
    → Reach s
    → held p s ≡ some b
    → ((shown p new s).content (shown p new s).clusters ≡ new)
      × ((shown p new s).free ≡ some s.clusters)
unfolding Owned
published_shown p b new r e =
    let (w, d, c, l, f) = Reach-Owned r in
    subst
      (λ t.
        ((shown p new t).content (shown p new t).clusters ≡ new)
        × ((shown p new t).free ≡ some t.clusters))
      (sym f) (shown_at w p d b c new (sym (ap (held p) f) ∙ e))
