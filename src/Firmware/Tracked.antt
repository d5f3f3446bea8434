-- ===== src/Firmware/Tracked.antt =====
-- The snapshots in the two buffers, over the steps on them: any predicate on a snapshot goes from the producer that
-- prepares it through the signal to the display, which has it turned.
use ns_pixels.Prelude.{
  Bool, true, false, ℕ, ◌-◌, ◌<◌, ◌≡◌, ◌⊎◌, inl, inr, refl, sym, ap, ◌∙◌, subst, some, List, [],
  arith, if◌then◌else◌, ◌==◌,
}
use ns_pixels.Train.{PixelData}
use ns_pixels.Snapshot.Placed.{AllPlaced}
use ns_pixels.Accel.{Direction, x_up}
use ns_pixels.Display.{rotate}
use ns_pixels.Exchange.{
  Producer, Buffers, started, try_take_free_clusters, rebuild_into, publish_clusters,
}
use ns_pixels.Exchange.Ownership.{Place, in_fresh, in_free, at, owned, same}
use ns_pixels.Firmware.{frame_buffers}
use ns_pixels.Firmware.Handover.{
  prepared, after_publish, published_owned, turned, fresh_frame, free_frame, held_frame,
  turned_here, turned_other, rotate_again,
}

-- Every snapshot that is prepared is of the past, in a sense that its user chooses.
module _ (Past : List PixelData → Type 0) where
  -- A snapshot of the past, or none yet.
  abbrev pub PastOrEmpty : List PixelData → Type 0
  PastOrEmpty out = (out ≡ []) ⊎ Past out

  abbrev pub AtPlace : Place → List PixelData → Type 0
  AtPlace in_free out = Unit
  AtPlace in_fresh out = Past out
  AtPlace (at p) out = Past out

  -- The display's buffer has a snapshot of the past or none, turned; the other one has one unless it is free.
  abbrev pub Tracked : Direction → Buffers → Type 0
  Tracked dir s =
      (place : Place) × (d : ℕ) × (content : ℕ → List PixelData) × (d < 2)
      × (s ≡ owned place d content)
      × ((out : List PixelData) × (content d ≡ rotate out x_up dir) × PastOrEmpty out)
      × AtPlace place (content (1 - d))

  pub started-Tracked : Tracked x_up started
  started-Tracked =
      (in_free, 0, (λ b. []), omega arith, refl, ([], unfold rotate in refl, inl refl), tt)

  pub rebuild_into-Tracked :
      (dir : Direction) (s : Buffers) (p : Producer) (b : ℕ) (new : List PixelData)
      → s.free ≡ some b
      → Past new
      → Tracked dir s
      → Tracked dir (rebuild_into p new (try_take_free_clusters p s))
  rebuild_into-Tracked dir s p b new free past
        (in_free, d, content, l, e, (out, has, shown), there) =
      (
        at p,
        d,
        (λ i. if i == 1 - d then new else content i),
        l,
        prepared p new d content s e,
        (out, ground (arith, l) ∙ has, shown),
        subst Past (ground arith) past,
      )
  rebuild_into-Tracked dir s p b new free past (in_fresh, d, content, l, e, _, _) =
      absurd (ground (arith, e, free))
  rebuild_into-Tracked dir s p b new free past (at q, d, content, l, e, _, _) =
      absurd (ground (arith, e, free))

  published_place :
      {out : List PixelData} (b : Bool) (q : Producer)
      → Past out
      → AtPlace (if b then in_fresh else at q) out
  published_place true q t = t
  published_place false q t = t

  after_publish-AtPlace :
      (out : List PixelData) (place : Place) (p : Producer)
      → AtPlace place out
      → AtPlace (after_publish p place) out
  after_publish-AtPlace out in_fresh p t = t
  after_publish-AtPlace out in_free p t = t
  after_publish-AtPlace out (at q) p t = published_place (same q p) q t

  pub publish_clusters-Tracked :
      (dir : Direction) (s : Buffers) (p : Producer)
      → Tracked dir s
      → Tracked dir (publish_clusters p s)
  publish_clusters-Tracked dir s p (place, d, content, l, e, has, there) = (
    after_publish p place,
    d,
    content,
    l,
    ap (publish_clusters p) e ∙ published_owned p place d content,
    has,
    after_publish-AtPlace (content (1 - d)) place p there,
  )

  module _ (placed : (out : List PixelData) → Past out → AllPlaced out) where
    turned_again :
        (a b : Direction) (d : ℕ) (content : ℕ → List PixelData)
        → (out : List PixelData) × (content d ≡ rotate out x_up a) × PastOrEmpty out
        → (out : List PixelData) × (turned d (rotate (content d) a b) content d ≡ rotate out x_up b)
          × PastOrEmpty out
    turned_again a b d content (out, has, shown) = (
      out,
      turned_here d (rotate (content d) a b) content
          ∙ ap (λ (o : List PixelData). rotate o a b) has
          ∙ rotate_again a b out (on_display shown),
      shown,
    )
      where
        on_display : PastOrEmpty out → AllPlaced out
        on_display (inl e) = subst AllPlaced (sym e) tt
        on_display (inr t) = placed out t

    pub frame_buffers-Tracked :
        (a b : Direction) (s : Buffers) → Tracked a s → Tracked b (frame_buffers a b s)
    frame_buffers-Tracked a b s (in_fresh, d, content, l, e, _, there) = (
      in_free,
      1 - d,
      turned (1 - d) (rotate (content (1 - d)) x_up b) content,
      omega arith,
      ap (frame_buffers a b) e ∙ fresh_frame a b d content l,
      (content (1 - d), turned_here (1 - d) _ content, inr there),
      tt,
    )
    frame_buffers-Tracked a b s (in_free, d, content, l, e, has, there) = (
      in_free,
      d,
      turned d (rotate (content d) a b) content,
      l,
      ap (frame_buffers a b) e ∙ free_frame a b d content,
      turned_again a b d content has,
      tt,
    )
    frame_buffers-Tracked a b s (at q, d, content, l, e, has, there) = (
      at q,
      d,
      turned d (rotate (content d) a b) content,
      l,
      ap (frame_buffers a b) e ∙ held_frame a b q d content,
      turned_again a b d content has,
      subst Past (sym (turned_other d (rotate (content d) a b) content l)) there,
    )

-- What is of the past stays so.
module _ (Past Later : List PixelData → Type 0)
    (stays : (out : List PixelData) → Past out → Later out) where
  pub Tracked-stays : (dir : Direction) (s : Buffers) → Tracked Past dir s → Tracked Later dir s
  Tracked-stays dir s (place, d, content, l, e, (out, has, shown), there) =
      (place, d, content, l, e, (out, has, shown_stays shown), place_stays place there)
    where
      shown_stays : PastOrEmpty Past out → PastOrEmpty Later out
      shown_stays (inl e) = inl e
      shown_stays (inr t) = inr (stays out t)

      place_stays :
          (place : Place)
          → AtPlace Past place (content (1 - d))
          → AtPlace Later place (content (1 - d))
      place_stays in_free t = tt
      place_stays in_fresh t = stays (content (1 - d)) t
      place_stays (at p) t = stays (content (1 - d)) t
