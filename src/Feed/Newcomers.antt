-- ===== src/Feed/Newcomers.antt =====
-- The trains of a message that are new to the registry: what the feed task counts, sends and drops.
use mathlib.Core.Bool.{Bool, true, false, not, ◌||◌}
use mathlib.Core.List.{append_assoc, append-nil}
use ns_pixels.Prelude.{
  ℕ, zero, suc, ◌+◌, ◌-◌, ◌≤◌, ◌≡◌, refl, sym, ap, ◌∙◌, subst, Option, none, some, List, [], ◌∷◌,
  ◌++◌, map, arith, if◌then◌else◌, ◌==◌, ltb, length, length-append, take,
}
use ns_pixels.Extern.Clock.{Clock}
use ns_pixels.Extern.Floats.{Floats}
use ns_pixels.Extern.Heapless.{BoundedVec}
use ns_pixels.Extern.Sorting.{UnstableSort}
use ns_pixels.Extern.Inflate.{Inflater}
use ns_pixels.Projection.{PixelCoord}
use ns_pixels.MapMode.{MapMode}
use ns_pixels.Train.{TrainState}
use ns_pixels.Registry.{TrainMap, max_trains, len, upsert}
use ns_pixels.XmlParser.{Train, Token}
use ns_pixels.NsApi.{queue_capacity}
use ns_pixels.Feed.Sightings.{
  place_of, RowAfter, stepped, len-stepped, len-evict_stale, first_row, step_trains,
}
use ns_pixels.Feed.{
  Update, FeedResult, send_new, update_trains, evict_stale, apply_trains, message_trains,
  on_message,
}

-- The numbers that are not known when they come, each once and in their order.
abbrev pub newcomers : (ℕ → Bool) → List ℕ → List ℕ
newcomers known [] = []
newcomers known (n ∷ ns) =
    let rest = newcomers (λ k. n == k || known k) ns in if known n then rest else n ∷ rest

abbrev pub is_row : Option TrainState → Bool
is_row none = false
is_row (some v) = true

-- A channel, a count and a count of what was dropped, after numbers have been sent to it.
abbrev pub SentAll : (List ℕ × ℕ × ℕ) → List ℕ → (List ℕ × ℕ × ℕ) → Type 0
SentAll (queue, count, dropped) new (queue', count', dropped') =
    (queue' ≡ queue ++ take (queue_capacity - length queue) new)
    × (count' ≡ count + length new)
    × (dropped' ≡ dropped + (length new - (queue_capacity - length queue)))

take_none : (k : ℕ) → ◌≡◌ {A = List ℕ} (take k []) []
take_none zero = refl
take_none (suc k) = refl

-- With room, the first number is appended to the channel; without, it is dropped.
SentAll-free :
    (n count dropped : ℕ) (queue new : List ℕ) (to : List ℕ × ℕ × ℕ)
    → (ltb (length queue) queue_capacity) ≡ true
    → SentAll (queue ++ n ∷ [], suc count, dropped) new to
    → SentAll (queue, count, dropped) (n ∷ new) to
SentAll-free n count dropped queue new (queue', count', dropped') free (q, a, b) =
    let l : length (queue ++ n ∷ []) ≡ suc (length queue) =
      omega (arith, length-append queue (n ∷ [])) in
    let left : queue_capacity - length queue ≡ suc (queue_capacity - length (queue ++ n ∷ [])) =
      ground (arith, free, l) in
    (
      q
          ∙ append_assoc queue (n ∷ []) (take (queue_capacity - length (queue ++ n ∷ [])) new)
          ∙ ap (λ (k : ℕ). queue ++ take k (n ∷ new)) (sym left),
      omega (arith, a),
      omega (arith, b, left),
    )

SentAll-full :
    (n count dropped : ℕ) (queue new : List ℕ) (to : List ℕ × ℕ × ℕ)
    → (ltb (length queue) queue_capacity) ≡ false
    → SentAll (queue, suc count, suc dropped) new to
    → SentAll (queue, count, dropped) (n ∷ new) to
SentAll-full n count dropped queue new (queue', count', dropped') full (q, a, b) =
    let left : queue_capacity - length queue ≡ 0 = ground (arith, full) in
    (
      q
          ∙ ap (λ (k : ℕ). queue ++ take k new) left
          ∙ ap (λ (k : ℕ). queue ++ take k (n ∷ new)) (sym left),
      omega (arith, a),
      omega (arith, b, left),
    )

module _ (h : TrainMap) (vec : BoundedVec) (c : Clock) (fl : Floats) where
  open h use {Map, get}

  abbrev channel : Update Map → List ℕ × ℕ × ℕ
  channel u = (u.queue, u.new_count, u.dropped)

  upsert_new :
      (m : Map) (n : ℕ) (p : PixelCoord) (now : ℕ)
      → (upsert h vec c m n p now).1 ≡ not (is_row (get m n))
  unfolding upsert
  upsert_new m n p now = go (get m n) refl
    where
      go :
          (o : Option TrainState)
          → get m n ≡ o
          → (upsert h vec c m n p now).1 ≡ not (is_row (get m n))
      go none e = ground (arith, e)
      go (some v) e = ground (arith, e)

  -- After a sighting the train has a row, and the others have theirs as before.
  is_row-after :
      (now : ℕ) (b : Bool) (p : PixelCoord) (before after : Option TrainState)
      → RowAfter h vec c fl now (if b then some p else none) before after
      → is_row after ≡ (b || is_row before)
  is_row-after now true p before after (v, e, _, _) = ap is_row e
  is_row-after now false p before after e = ap is_row e

  send_new-SentAll :
      (n : ℕ) (m : Map) (u : Update Map) (new : List ℕ) (to : List ℕ × ℕ × ℕ)
      → SentAll (channel (send_new h vec c fl n (record u { trains = m }))) new to
      → SentAll (channel u) (n ∷ new) to
  send_new-SentAll n m u new to = go (ltb (length u.queue) queue_capacity) refl
    where
      go :
          (b : Bool)
          → ltb (length u.queue) queue_capacity ≡ b
          → SentAll
              (channel (
                if b
                then record u { trains = m; queue = u.queue ++ n ∷ []; new_count = suc u.new_count }
                else record u { trains = m; new_count = suc u.new_count; dropped = suc u.dropped }))
              new
              to
          → SentAll (channel u) (n ∷ new) to
      go true e = SentAll-free n u.new_count u.dropped u.queue new to e
      go false e = SentAll-full n u.new_count u.dropped u.queue new to e

  -- One train of the message.
  stepped-SentAll :
      (now : ℕ) (t : Train fl.F32) (u : Update Map) (new : List ℕ) (to : List ℕ × ℕ × ℕ)
      → SentAll (channel (stepped h vec c fl now t u)) new to
      → SentAll (channel u) (if is_row (get u.trains t.number) then new else t.number ∷ new) to
  stepped-SentAll now t u new to =
      let done = upsert h vec c u.trains t.number (place_of fl t) now in
      go (is_row (get u.trains t.number)) done.1 (upsert_new u.trains t.number (place_of fl t) now)
    where
      go :
          (old fresh : Bool)
          → fresh ≡ not old
          → SentAll
              (channel (
                if fresh
                then send_new h vec c fl t.number
                    (record u { trains = (upsert h vec c u.trains t.number (place_of fl t) now).0 })
                else record u {
                  trains = (upsert h vec c u.trains t.number (place_of fl t) now).0;
                }))
              new
              to
          → SentAll (channel u) (if old then new else t.number ∷ new) to
      go true true e = absurd (ground arith)
      go true false e = λ s. s
      go false true e =
          send_new-SentAll t.number (upsert h vec c u.trains t.number (place_of fl t) now).0 u new
            to
      go false false e = absurd (ground arith)

  update_trains-SentAll :
      (now : ℕ) (ts : List (Train fl.F32)) (u : Update Map) (known : ℕ → Bool)
      → ((k : ℕ) → is_row (get u.trains k) ≡ known k)
      → len h vec c u.trains + length ts ≤ max_trains
      → SentAll
          (channel u)
          (newcomers known (map (λ t. t.number) ts))
          (channel (update_trains h vec c fl now ts u))
  unfolding update_trains
  update_trains-SentAll now [] u known agree room = (
    sym (append-nil u.queue)
        ∙ ap (λ (l : List ℕ). u.queue ++ l) (sym (take_none (queue_capacity - length u.queue))),
    omega arith,
    omega arith,
  )
  update_trains-SentAll now (t ∷ ts) u known agree room =
      let done = upsert h vec c u.trains t.number (place_of fl t) now in
      let next = stepped h vec c fl now t u in
      let bound = len-stepped h vec c fl now t u in
      let after : (k : ℕ) → is_row (get next.trains k) ≡ (t.number == k || known k) = λ k.
        ap (λ (m : Map). is_row (get m k)) (step_trains h vec c fl t.number done.1 done.0 u)
        ∙ is_row-after now (t.number == k) (place_of fl t) (get u.trains k) (get done.0 k)
            (first_row h vec c fl u.trains t.number k (place_of fl t) now (omega arith))
        ∙ ap (λ (b : Bool). t.number == k || b) (agree k) in
      let rest =
        update_trains-SentAll now ts next (λ k. t.number == k || known k) after (omega arith) in
      subst
        (λ (b : Bool).
          SentAll (channel u)
            (if b
              then newcomers (λ k. t.number == k || known k) (map (λ x. x.number) ts)
              else t.number ∷ newcomers (λ k. t.number == k || known k) (map (λ x. x.number) ts))
            (channel (update_trains h vec c fl now ts next)))
        (agree t.number)
        (stepped-SentAll now t u
          (newcomers (λ k. t.number == k || known k) (map (λ x. x.number) ts))
          (channel (update_trains h vec c fl now ts next)) rest)

  module _ (sorting : UnstableSort) (inf : Inflater) (tokenize : List ℕ → List (Option Token))
      (parse_f32 : List ℕ → Option fl.F32) where
    -- Take a message that decodes to trains for which the registry has room. Its newcomers are the numbers that
    -- had no row after the eviction, each once, in the order of their first sightings. The round ends in a result:
    -- the newcomers are sent behind what the channel held, until it is full; all of them are counted as new; and
    -- those that did not fit are counted as dropped.
    pub on_message-newcomers :
        (frames : List (List ℕ)) (state : inf.S) (trains : List (Train fl.F32)) (now : ℕ)
        (has_buffer : Bool) (mode : MapMode) (queue : List ℕ) (m : Map)
        → message_trains h vec c fl sorting inf tokenize parse_f32 frames state ≡ some trains
        → len h vec c m + length trains ≤ max_trains
        → (r : FeedResult Map) × (on_message h vec c fl sorting inf tokenize parse_f32 frames state
              now has_buffer mode queue m
            ≡ some r)
          × SentAll
              (queue, 0, 0)
              (newcomers
                (λ k. is_row (get (evict_stale h vec c fl now m).0 k))
                (map (λ t. t.number) trains))
              (r.queue, r.new_count, r.dropped)
    unfolding on_message apply_trains
    on_message-newcomers frames state trains now has_buffer mode queue m e room =
        let kept = evict_stale h vec c fl now m in
        let bound = len-evict_stale h vec c fl now m in
        let u : Update Map = record {
          trains = kept.0;
          queue = queue;
          new_count = 0;
          dropped = 0;
        } in
        (
          apply_trains h vec c fl sorting trains now has_buffer mode queue m,
          ground (arith, e),
          update_trains-SentAll now trains u (λ k. is_row (get kept.0 k)) (λ k. refl) (omega arith),
        )
