-- ===== src/Feed/Queue.antt =====
-- The channel of new trains during a message: it stays within its capacity, and its counts add up.
use mathlib.Core.Bool.{Bool, true, false}
use ns_pixels.Prelude.{
  ℕ, ◌+◌, ◌≤◌, ◌≡◌, refl, ◌⊎◌, inl, inr, Option, some, subst, List, [], ◌∷◌, arith, if◌then◌else◌,
  ltb, length, length-append, Bool-cases,
}
use ns_pixels.Extern.Clock.{Clock}
use ns_pixels.Extern.Floats.{Floats}
use ns_pixels.Extern.Heapless.{BoundedVec}
use ns_pixels.Extern.Sorting.{UnstableSort}
use ns_pixels.Extern.Inflate.{Inflater}
use ns_pixels.Projection.{wgs84_to_canvas}
use ns_pixels.MapMode.{MapMode}
use ns_pixels.Registry.{TrainMap, upsert}
use ns_pixels.XmlParser.{Train, Token}
use ns_pixels.NsApi.{queue_capacity}
use ns_pixels.Feed.Rounds.{on_message_applied}
use ns_pixels.Feed.{
  Update, FeedResult, send_new, update_trains, evict_stale, apply_trains, on_message,
}

-- From one length and two counts to others: the channel only grows, up to its capacity; each new train is sent
-- or dropped; and none is dropped unless the channel is full.
abbrev pub Counted : (ℕ × ℕ × ℕ) → (ℕ × ℕ × ℕ) → Type 0
Counted (len, new_count, dropped) (len', new_count', dropped') =
    (len ≤ len')
    × (len' ≤ queue_capacity)
    × (len' + dropped' + new_count ≡ len + dropped + new_count')
    × ((dropped' ≡ dropped) ⊎ (len' ≡ queue_capacity))

Counted-trans :
    (a b c a' b' c' a'' b'' c'' : ℕ)
    → Counted (a, b, c) (a', b', c')
    → Counted (a', b', c') (a'', b'', c'')
    → Counted (a, b, c) (a'', b'', c'')
Counted-trans a b c a' b' c' a'' b'' c'' (p, q, e, inl x) (p', q', e', inl y) =
    (omega arith, omega arith, omega arith, inl (omega arith))
Counted-trans a b c a' b' c' a'' b'' c'' (p, q, e, inr x) (p', q', e', d) =
    (omega arith, omega arith, omega arith, inr (omega arith))
Counted-trans a b c a' b' c' a'' b'' c'' (p, q, e, inl x) (p', q', e', inr y) =
    (omega arith, omega arith, omega arith, inr (omega arith))

module _ (h : TrainMap) (vec : BoundedVec) (c : Clock) (fl : Floats) where
  open h use {Map}

  abbrev pub counts : Update Map → ℕ × ℕ × ℕ
  counts u = (length u.queue, u.new_count, u.dropped)

  send_new-Counted :
      (n : ℕ) (b : Bool) (m : Map) (u : Update Map)
      → length u.queue ≤ queue_capacity
      → Counted (counts u) (
          counts (
            if b then send_new h vec c fl n (record u { trains = m }) else record u { trains = m }))
  send_new-Counted n false m u room = (omega arith, room, omega arith, inl refl)
  send_new-Counted n true m u room = elim (Bool-cases (ltb (length u.queue) queue_capacity)) [
    | inl free ↦
        let l = length-append u.queue (n ∷ []) in
        (
          ground (arith, free, l),
          ground (arith, free, l),
          ground (arith, free, l),
          inl (ground (arith, free)),
        )
    | inr full ↦ (
      ground (arith, full),
      ground (arith, full),
      ground (arith, full),
      inr (ground (arith, full)),
    )
  ]

  update_trains-Counted :
      (now : ℕ) (ts : List (Train fl.F32)) (u : Update Map)
      → length u.queue ≤ queue_capacity
      → Counted (counts u) (counts (update_trains h vec c fl now ts u))
  unfolding update_trains
  update_trains-Counted now [] u room = (omega arith, room, omega arith, inl refl)
  update_trains-Counted now (t ∷ ts) u room =
      let done = upsert h vec c u.trains t.number (wgs84_to_canvas fl t.lat t.lon) now in
      let sent = send_new-Counted t.number done.1 done.0 u room in
      Counted-trans _ _ _ _ _ _ _ _ _ sent (update_trains-Counted now ts _ (sent.1))

  module _ (sorting : UnstableSort) (inf : Inflater) (tokenize : List ℕ → List (Option Token))
      (parse_f32 : List ℕ → Option fl.F32) where
    -- Take a round of the feed task that ends in a result, with a channel that is within its capacity. Then the
    -- channel only grows and stays within its capacity; as many trains are counted as new as are sent or counted as
    -- dropped; and none is dropped unless the channel is full then.
    pub on_message-Counted :
        (frames : List (List ℕ)) (state : inf.S) (now : ℕ) (has_buffer : Bool) (mode : MapMode)
        (queue : List ℕ) (m : Map) (r : FeedResult Map)
        → length queue ≤ queue_capacity
        → on_message h vec c fl sorting inf tokenize parse_f32 frames state now has_buffer mode
            queue m
          ≡ some r
        → Counted (length queue, 0, 0) (length r.queue, r.new_count, r.dropped)
    unfolding apply_trains
    on_message-Counted frames state now has_buffer mode queue m r room e =
        let (trains, same) =
          on_message_applied h vec c fl sorting inf tokenize parse_f32 frames state now has_buffer
            mode queue m r e in
        subst
          (λ (x : FeedResult Map).
            Counted (length queue, 0, 0) (length x.queue, x.new_count, x.dropped))
          same
          (update_trains-Counted now trains
            (record {
              trains = (evict_stale h vec c fl now m).0;
              queue = queue;
              new_count = 0;
              dropped = 0;
            })
            room)
