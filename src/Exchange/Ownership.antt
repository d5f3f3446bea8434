-- ===== src/Exchange/Ownership.antt =====
-- Who has which snapshot buffer, in every reachable state.
use mathlib.Core.Bool.{Bool, true, false}
use ns_pixels.Prelude.{
  subst, ℕ, ◌-◌, ◌<◌, ◌≡◌, ◌≢◌, refl, sym, ap, ◌∙◌, Option, none, some, List, arith,
}
use ns_pixels.Train.{PixelData}
use ns_pixels.Exchange.{
  Producer, feed, ns_api, map_mode, Buffers, held, try_take_free_clusters, rebuild_into,
  publish_clusters, take_fresh_clusters, redraw, take, rebuild, publish, swap, draw, Reach, start,
  later,
}

-- Where the buffer is that the display does not have.
pub data Place : Type 0 where
  in_fresh in_free : Place
  at : Producer → Place

abbrev pub only_if : Bool → ℕ → Option ℕ
only_if true b = some b
only_if false b = none

abbrev pub same : Producer → Producer → Bool
same feed feed = true
same ns_api ns_api = true
same map_mode map_mode = true
same _ _ = false

-- Each of the five places has that buffer or none.
abbrev pub places : Place → ℕ → Option ℕ × Option ℕ × Option ℕ × Option ℕ × Option ℕ
places in_fresh b = (some b, none, none, none, none)
places in_free b = (none, some b, none, none, none)
places (at p) b =
    (none, none, only_if (same p feed) b, only_if (same p ns_api) b, only_if (same p map_mode) b)

-- The states in which the display has a buffer and the other is in one place.
abbrev pub owned : Place → ℕ → (ℕ → List PixelData) → Buffers
owned w d content = record {
  clusters = d;
  fresh = (places w (1 - d)).0;
  free = (places w (1 - d)).1;
  feed_buf = (places w (1 - d)).2;
  ns_api_buf = (places w (1 - d)).3;
  map_mode_buf = (places w (1 - d)).4;
  content = content;
}

unfoldable pub Owned : Buffers → Type 0
Owned s = (w : Place) × (d : ℕ) × (content : ℕ → List PixelData) × (d < 2) × (s ≡ owned w d content)

take-Owned : (p : Producer) (s : Buffers) → Owned s → Owned (try_take_free_clusters p s)
unfolding Owned try_take_free_clusters
take-Owned p s (w, d, c, b, e) = go w p e
  where
    go : (w : Place) (p : Producer) → s ≡ owned w d c → Owned (try_take_free_clusters p s)
    go in_fresh p e = (in_fresh, d, c, b, ap (try_take_free_clusters p) e)
    go in_free feed e = (at feed, d, c, b, ap (try_take_free_clusters feed) e)
    go in_free ns_api e = (at ns_api, d, c, b, ap (try_take_free_clusters ns_api) e)
    go in_free map_mode e = (at map_mode, d, c, b, ap (try_take_free_clusters map_mode) e)
    go (at q) p e = (at q, d, c, b, ap (try_take_free_clusters p) e)

rebuild-Owned :
    (p : Producer) (new : List PixelData) (s : Buffers) → Owned s → Owned (rebuild_into p new s)
unfolding Owned rebuild_into
rebuild-Owned p new s (w, d, c, b, e) = (w, d, _, b, ap (rebuild_into p new) e)

publish-Owned : (p : Producer) (s : Buffers) → Owned s → Owned (publish_clusters p s)
unfolding Owned publish_clusters
publish-Owned p s (w, d, c, b, e) = go w p e
  where
    go : (w : Place) (p : Producer) → s ≡ owned w d c → Owned (publish_clusters p s)
    go in_fresh feed e = (in_fresh, d, c, b, ap (publish_clusters feed) e)
    go in_fresh ns_api e = (in_fresh, d, c, b, ap (publish_clusters ns_api) e)
    go in_fresh map_mode e = (in_fresh, d, c, b, ap (publish_clusters map_mode) e)
    go in_free feed e = (in_free, d, c, b, ap (publish_clusters feed) e)
    go in_free ns_api e = (in_free, d, c, b, ap (publish_clusters ns_api) e)
    go in_free map_mode e = (in_free, d, c, b, ap (publish_clusters map_mode) e)
    go (at feed) feed e = (in_fresh, d, c, b, ap (publish_clusters feed) e)
    go (at feed) ns_api e = (at feed, d, c, b, ap (publish_clusters ns_api) e)
    go (at feed) map_mode e = (at feed, d, c, b, ap (publish_clusters map_mode) e)
    go (at ns_api) feed e = (at ns_api, d, c, b, ap (publish_clusters feed) e)
    go (at ns_api) ns_api e = (in_fresh, d, c, b, ap (publish_clusters ns_api) e)
    go (at ns_api) map_mode e = (at ns_api, d, c, b, ap (publish_clusters map_mode) e)
    go (at map_mode) feed e = (at map_mode, d, c, b, ap (publish_clusters feed) e)
    go (at map_mode) ns_api e = (at map_mode, d, c, b, ap (publish_clusters ns_api) e)
    go (at map_mode) map_mode e = (in_fresh, d, c, b, ap (publish_clusters map_mode) e)

-- The display has taken the other buffer and given back the one with a number.
abbrev pub given_back : ℕ → (ℕ → List PixelData) → ℕ → Buffers
given_back d content i = record {
  clusters = 1 - d;
  fresh = none;
  free = some i;
  feed_buf = none;
  ns_api_buf = none;
  map_mode_buf = none;
  content = content;
}

swap-Owned : (s : Buffers) → Owned s → Owned (take_fresh_clusters s)
unfolding Owned take_fresh_clusters
swap-Owned s (w, d, c, b, e) = go w e
  where
    go : (w : Place) → s ≡ owned w d c → Owned (take_fresh_clusters s)
    go in_fresh e = (
      in_free,
      1 - d,
      c,
      omega arith,
      ap take_fresh_clusters e ∙ ap (given_back d c) (omega arith),
    )
    go in_free e = (in_free, d, c, b, ap take_fresh_clusters e)
    go (at q) e = (at q, d, c, b, ap take_fresh_clusters e)

draw-Owned : (new : List PixelData) (s : Buffers) → Owned s → Owned (redraw new s)
unfolding Owned redraw
draw-Owned new s (w, d, c, b, e) = (w, d, _, b, ap (redraw new) e)

pub Reach-Owned : {s : Buffers} → Reach s → Owned s
unfolding Owned
Reach-Owned start = (in_free, 0, _, omega arith, refl)
Reach-Owned (later r (take p e)) = take-Owned p _ (Reach-Owned r)
Reach-Owned (later r (rebuild p new)) = rebuild-Owned p new _ (Reach-Owned r)
Reach-Owned (later r (publish p)) = publish-Owned p _ (Reach-Owned r)
Reach-Owned (later r swap) = swap-Owned _ (Reach-Owned r)
Reach-Owned (later r (draw new)) = draw-Owned new _ (Reach-Owned r)

pub nothing_held : {b : ℕ} → ◌≡◌ {A = Option ℕ} none (some b) → ⊥
nothing_held e = cc

other_buffer : {d b : ℕ} → d < 2 → ◌≡◌ {A = Option ℕ} (some (1 - d)) (some b) → b ≢ d
other_buffer l e = ground arith

exclusive_at :
    (w : Place) (p q : Producer) (d b : ℕ) (content : ℕ → List PixelData)
    → d < 2
    → q ≢ p
    → held p (owned w d content) ≡ some b
    → (b ≢ d)
      × ((places w (1 - d)).0 ≡ none)
      × ((places w (1 - d)).1 ≡ none)
      × (held q (owned w d content) ≡ none)
exclusive_at in_fresh feed q d b c l n e = absurd (nothing_held e)
exclusive_at in_fresh ns_api q d b c l n e = absurd (nothing_held e)
exclusive_at in_fresh map_mode q d b c l n e = absurd (nothing_held e)
exclusive_at in_free feed q d b c l n e = absurd (nothing_held e)
exclusive_at in_free ns_api q d b c l n e = absurd (nothing_held e)
exclusive_at in_free map_mode q d b c l n e = absurd (nothing_held e)
exclusive_at (at feed) feed feed d b c l n e = absurd (n refl)
exclusive_at (at feed) feed ns_api d b c l n e = (other_buffer l e, refl, refl, refl)
exclusive_at (at feed) feed map_mode d b c l n e = (other_buffer l e, refl, refl, refl)
exclusive_at (at feed) ns_api q d b c l n e = absurd (nothing_held e)
exclusive_at (at feed) map_mode q d b c l n e = absurd (nothing_held e)
exclusive_at (at ns_api) feed q d b c l n e = absurd (nothing_held e)
exclusive_at (at ns_api) ns_api feed d b c l n e = (other_buffer l e, refl, refl, refl)
exclusive_at (at ns_api) ns_api ns_api d b c l n e = absurd (n refl)
exclusive_at (at ns_api) ns_api map_mode d b c l n e = (other_buffer l e, refl, refl, refl)
exclusive_at (at ns_api) map_mode q d b c l n e = absurd (nothing_held e)
exclusive_at (at map_mode) feed q d b c l n e = absurd (nothing_held e)
exclusive_at (at map_mode) ns_api q d b c l n e = absurd (nothing_held e)
exclusive_at (at map_mode) map_mode feed d b c l n e = (other_buffer l e, refl, refl, refl)
exclusive_at (at map_mode) map_mode ns_api d b c l n e = (other_buffer l e, refl, refl, refl)
exclusive_at (at map_mode) map_mode map_mode d b c l n e = absurd (n refl)

-- In every reachable state, whatever the order in which the tasks run, a producer that holds a buffer holds
-- it alone: it is not the one that the display draws from, neither signal has a buffer, so that publishing
-- this one overwrites none, and no other producer holds one.
pub held_alone :
    {s : Buffers} (p q : Producer) (b : ℕ)
    → Reach s
    → q ≢ p
    → held p s ≡ some b
    → (b ≢ s.clusters) × (s.fresh ≡ none) × (s.free ≡ none) × (held q s ≡ none)
unfolding Owned
held_alone {s} p q b r n e =
    let (w, d, c, l, same_state) = Reach-Owned r in
    subst (λ t. (b ≢ t.clusters) × (t.fresh ≡ none) × (t.free ≡ none) × (held q t ≡ none))
      (sym same_state) (exclusive_at w p q d b c l n (sym (ap (held p) same_state) ∙ e))
