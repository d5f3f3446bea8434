-- ===== src/Firmware/Handover.antt =====
-- What the steps on the snapshot buffers make of a state in which each buffer has its place.
use ns_pixels.Prelude.{
  ℕ, ◌-◌, ◌<◌, ◌≡◌, refl, sym, ap, ◌∙◌, List, [], ◌∷◌, arith, if◌then◌else◌, ◌==◌,
}
use ns_pixels.Train.{PixelData}
use ns_pixels.Snapshot.Placed.{AllPlaced}
use ns_pixels.Accel.{Direction, x_up}
use ns_pixels.Display.{rotate, transform, frame, take_fresh}
use ns_pixels.Display.Rotation.{transform-key}
use ns_pixels.Exchange.{
  Producer, feed, ns_api, map_mode, Buffers, try_take_free_clusters, rebuild_into, publish_clusters,
  take_fresh_clusters, redraw,
}
use ns_pixels.Exchange.Ownership.{Place, in_fresh, in_free, at, owned, same, given_back}
use ns_pixels.Firmware.{frame_buffers}

-- A producer takes the free buffer and writes into it.
pub prepared :
    (p : Producer) (new : List PixelData) (d : ℕ) (content : ℕ → List PixelData) (s : Buffers)
    → s ≡ owned in_free d content
    → rebuild_into p new (try_take_free_clusters p s)
      ≡ owned (at p) d (λ i. if i == 1 - d then new else content i)
unfolding try_take_free_clusters rebuild_into
prepared feed new d content s e = ap (λ t. rebuild_into feed new (try_take_free_clusters feed t)) e
prepared ns_api new d content s e =
    ap (λ t. rebuild_into ns_api new (try_take_free_clusters ns_api t)) e
prepared map_mode new d content s e =
    ap (λ t. rebuild_into map_mode new (try_take_free_clusters map_mode t)) e

-- A publication moves the buffer that the producer holds into the signal, or changes nothing.
abbrev pub after_publish : Producer → Place → Place
after_publish p in_fresh = in_fresh
after_publish p in_free = in_free
after_publish p (at q) = if same q p then in_fresh else at q

pub published_owned :
    (p : Producer) (w : Place) (d : ℕ) (content : ℕ → List PixelData)
    → publish_clusters p (owned w d content) ≡ owned (after_publish p w) d content
unfolding publish_clusters
published_owned feed in_fresh d c = refl
published_owned _ in_fresh d c = refl
published_owned feed in_free d c = refl
published_owned _ in_free d c = refl
published_owned feed (at feed) d c = refl
published_owned _ (at feed) d c = refl
published_owned feed (at ns_api) d c = refl
published_owned _ (at ns_api) d c = refl
published_owned feed (at map_mode) d c = refl
published_owned _ (at map_mode) d c = refl

-- A frame turns what the display has, or swaps the buffers first if a snapshot has been published.
unfoldable pub turned : ℕ → List PixelData → (ℕ → List PixelData) → ℕ → List PixelData
turned d new content i = if i == d then new else content i

pub fresh_frame :
    (a b : Direction) (d : ℕ) (content : ℕ → List PixelData)
    → d < 2
    → frame_buffers a b (owned in_fresh d content)
      ≡ owned in_free (1 - d) (turned (1 - d) (rotate (content (1 - d)) x_up b) content)
unfolding take_fresh_clusters redraw frame take_fresh turned
fresh_frame a b d content l =
    ap (given_back d (turned (1 - d) (rotate (content (1 - d)) x_up b) content)) {x = d}
      {y = 1 - (1 - d)} (omega arith)

pub free_frame :
    (a b : Direction) (d : ℕ) (content : ℕ → List PixelData)
    → frame_buffers a b (owned in_free d content)
      ≡ owned in_free d (turned d (rotate (content d) a b) content)
unfolding take_fresh_clusters redraw frame take_fresh turned
free_frame a b d content = refl

pub held_frame :
    (a b : Direction) (q : Producer) (d : ℕ) (content : ℕ → List PixelData)
    → frame_buffers a b (owned (at q) d content)
      ≡ owned (at q) d (turned d (rotate (content d) a b) content)
unfolding take_fresh_clusters redraw frame take_fresh turned
held_frame a b q d content = refl

pub turned_here :
    (d : ℕ) (new : List PixelData) (content : ℕ → List PixelData) → turned d new content d ≡ new
unfolding turned
turned_here d new content = ground arith

pub turned_other :
    (d : ℕ) (new : List PixelData) (content : ℕ → List PixelData)
    → d < 2
    → turned d new content (1 - d) ≡ content (1 - d)
unfolding turned
turned_other d new content l = ground arith

-- Turning twice is turning once.
pub rotate_again :
    (a b : Direction) (out : List PixelData)
    → AllPlaced out
    → rotate (rotate out x_up a) a b ≡ rotate out x_up b
unfolding rotate
rotate_again a b [] placed = refl
rotate_again a b (e ∷ es) ((p, hx, hy, at_p), all) =
    let once : transform a b (transform x_up a e.coord_key) ≡ transform x_up b e.coord_key =
      ap (λ (k : ℕ). transform a b (transform x_up a k)) at_p
      ∙ ap (transform a b) (transform-key x_up a p.x p.y hx hy)
      ∙ transform-key a b p.x p.y hx hy
      ∙ sym (ap (transform x_up b) at_p ∙ transform-key x_up b p.x p.y hx hy) in
    ground (arith, once, rotate_again a b es all)
