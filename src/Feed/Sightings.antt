-- ===== src/Feed/Sightings.antt =====
-- The rows of the registry after a message: the trains of it are seen now, the others are as the eviction left
-- them.
use mathlib.Core.Bool.{Bool, true, false}
use ns_pixels.Prelude.{
  ℕ, suc, ◌+◌, ◌≤◌, ◌<◌, ◌≡◌, refl, sym, ap, ◌∙◌, subst, inl, inr, Option, none, some, List, [],
  ◌∷◌, arith, if◌then◌else◌, ◌==◌, length, Bool-cases,
}
use ns_pixels.Extern.Clock.{Clock}
use ns_pixels.Extern.Floats.{Floats}
use ns_pixels.Extern.Heapless.{BoundedVec}
use ns_pixels.Extern.Sorting.{UnstableSort}
use ns_pixels.Extern.Inflate.{Inflater}
use ns_pixels.Projection.{PixelCoord, wgs84_to_canvas}
use ns_pixels.MapMode.{MapMode}
use ns_pixels.Train.{TrainState, new_state}
use ns_pixels.Registry.{TrainMap, max_trains, len, upsert, refresh}
use ns_pixels.Registry.Rows.{upsert_rows, len-upsert}
use ns_pixels.Registry.Eviction.{evict_older_than_rows}
use ns_pixels.XmlParser.{Train, Token}
use ns_pixels.Feed.{
  Update, FeedResult, send_new, update_trains, cutoff_of, evict_stale, apply_trains, message_trains,
  on_message,
}

module _ (fl : Floats) where
  -- What is found last.
  abbrev pub later : Option PixelCoord → Option PixelCoord → Option PixelCoord
  later (some p) first = some p
  later none first = first

  abbrev pub place_of : Train fl.F32 → PixelCoord
  place_of t = wgs84_to_canvas fl t.lat t.lon

  -- Where the last sighting of a train in a message puts it.
  abbrev pub last_place : ℕ → List (Train fl.F32) → Option PixelCoord
  last_place k [] = none
  last_place k (t ∷ ts) =
      later (last_place k ts) (if t.number == k then some (place_of t) else none)

module _ (h : TrainMap) (vec : BoundedVec) (c : Clock) (fl : Floats) where
  open h use {Map, get}

  -- The row of a train that the message sights, and of one that it does not.
  abbrev pub RowAfter : ℕ → Option PixelCoord → Option TrainState → Option TrainState → Type 0
  RowAfter now none before after = after ≡ before
  RowAfter now (some p) before after =
      (v : TrainState) × (after ≡ some v) × (v.last_seen ≡ now) × (v.pixel ≡ p)

  -- One train of the message.
  pub step_trains :
      (n : ℕ) (b : Bool) (m : Map) (u : Update Map)
      → (if b
          then send_new h vec c fl n (record u { trains = m })
          else record u { trains = m }).trains
        ≡ m
  step_trains n false m u = refl
  step_trains n true m u = ground arith

  upsert_row :
      (m : Map) (k : ℕ) (p : PixelCoord) (now : ℕ)
      → len h vec c m < max_trains
      → RowAfter now (some p) (get m k) (get (upsert h vec c m k p now).0 k)
  unfolding len refresh new_state
  upsert_row m k p now room = go (get m k) refl
    where
      go :
          (o : Option TrainState)
          → get m k ≡ o
          → RowAfter now (some p) (get m k) (get (upsert h vec c m k p now).0 k)
      go none e = (new_state p now, ground (arith, (upsert_rows h vec c m k k p now).0), refl, refl)
      go (some s) e =
          (refresh c p now s, ground (arith, (upsert_rows h vec c m k k p now).0), refl, refl)

  pub first_row :
      (m : Map) (n k : ℕ) (p : PixelCoord) (now : ℕ)
      → len h vec c m < max_trains
      → RowAfter now
          (if n == k then some p else none)
          (get m k)
          (get (upsert h vec c m n p now).0 k)
  first_row m n k p now room = go (n == k) refl
    where
      go :
          (b : Bool)
          → (n == k) ≡ b
          → RowAfter now (if b then some p else none) (get m k) (get (upsert h vec c m n p now).0 k)
      go true e =
          subst (λ j. RowAfter now (some p) (get m k) (get (upsert h vec c m j p now).0 k)) {x = k}
            {y = n} (ground arith) (upsert_row m k p now room)
      go false e = ground (arith, (upsert_rows h vec c m n k p now).0)

  -- A sighting and the later ones.
  combine :
      (now : ℕ) (o : Option PixelCoord) (b : Bool) (p : PixelCoord) (x y z : Option TrainState)
      → RowAfter now (if b then some p else none) x y
      → RowAfter now o y z
      → RowAfter now (later fl o (if b then some p else none)) x z
  combine now (some q) b p x y z f g = g
  combine now none true p x y z (v, e, s, t) g = (v, g ∙ e, s, t)
  combine now none false p x y z f g = g ∙ f

  abbrev pub stepped : ℕ → Train fl.F32 → Update Map → Update Map
  stepped now t u =
      let done = upsert h vec c u.trains t.number (place_of fl t) now in
      if done.1
      then send_new h vec c fl t.number (record u { trains = done.0 })
      else record u { trains = done.0 }

  pub len-stepped :
      (now : ℕ) (t : Train fl.F32) (u : Update Map)
      → len h vec c (stepped now t u).trains ≤ suc (len h vec c u.trains)
  len-stepped now t u =
      let done = upsert h vec c u.trains t.number (place_of fl t) now in
      ground (
        arith,
        ap (len h vec c) (step_trains t.number done.1 done.0 u),
        len-upsert h vec c u.trains t.number (place_of fl t) now,
      )

  update_rows :
      (now k : ℕ) (ts : List (Train fl.F32)) (u : Update Map)
      → len h vec c u.trains + length ts ≤ max_trains
      → RowAfter now
          (last_place fl k ts)
          (get u.trains k)
          (get (update_trains h vec c fl now ts u).trains k)
  unfolding update_trains
  update_rows now k [] u room = refl
  update_rows now k (t ∷ ts) u room =
      let done = upsert h vec c u.trains t.number (place_of fl t) now in
      let next = stepped now t u in
      let bound = len-stepped now t u in
      let rest = update_rows now k ts next (omega arith) in
      combine now (last_place fl k ts) (t.number == k) (place_of fl t) (get u.trains k)
        (get next.trains k) (get (update_trains h vec c fl now ts next).trains k)
        (subst
          (λ m.
            RowAfter now (if t.number == k then some (place_of fl t) else none) (get u.trains k)
              (get m k))
          (sym (step_trains t.number done.1 done.0 u))
          (first_row u.trains t.number k (place_of fl t) now (omega arith)))
        rest

  pub len-evict_stale :
      (now : ℕ) (m : Map) → len h vec c (evict_stale h vec c fl now m).0 ≤ len h vec c m
  unfolding evict_stale
  len-evict_stale now m =
      let cutoff = cutoff_of h vec c fl now in
      elim (Bool-cases (cutoff == now)) [
        | inl e ↦ ground (arith, e)
        | inr e ↦ ground (arith, e, (evict_older_than_rows h vec c m cutoff 0).1)
      ]

  module _ (sorting : UnstableSort) (inf : Inflater) (tokenize : List ℕ → List (Option Token))
      (parse_f32 : List ℕ → Option fl.F32) where
    -- Take a message that decompresses, and a registry with room for a row for each of its trains. Then the
    -- round ends in a result, in whose registry each train that the message sights was last seen at the time of
    -- the round, at the canvas position of its last sighting in the message, and each other number has what the
    -- eviction at that time left it.
    pub on_message_rows :
        (frames : List (List ℕ)) (state : inf.S) (trains : List (Train fl.F32)) (now : ℕ)
        (has_buffer : Bool) (mode : MapMode) (queue : List ℕ) (m : Map)
        → message_trains h vec c fl sorting inf tokenize parse_f32 frames state ≡ some trains
        → len h vec c m + length trains ≤ max_trains
        → (r : FeedResult Map) × (on_message h vec c fl sorting inf tokenize parse_f32 frames state
              now has_buffer mode queue m
            ≡ some r)
          × ((k : ℕ)
              → RowAfter now
                  (last_place fl k trains)
                  (get (evict_stale h vec c fl now m).0 k)
                  (get r.trains k))
    unfolding on_message apply_trains
    on_message_rows frames state trains now has_buffer mode queue m e room =
        let kept = evict_stale h vec c fl now m in
        let bound = len-evict_stale now m in
        let u : Update Map = record {
          trains = kept.0;
          queue = queue;
          new_count = 0;
          dropped = 0;
        } in
        (
          apply_trains h vec c fl sorting trains now has_buffer mode queue m,
          ground (arith, e),
          λ k. update_rows now k trains u (omega arith),
        )
