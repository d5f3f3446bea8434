-- ===== src/System/Sound.antt =====
-- What holds of the registry and the channel in every state that the tasks reach, and that no sweep panics.
use mathlib.Core.Bool.{Bool, true, false, not}
use mathlib.Core.Option.{some-injective}
use ns_pixels.Prelude.Assoc.{lookup}
use ns_pixels.NsApi.Round.{RoundResult, work_round, enrich_round}
use ns_pixels.Prelude.{
  ℕ, ◌+◌, ◌≤◌, ◌≡◌, sym, ap, ◌∙◌, subst, Option, none, some, List, [], ◌∷◌, arith, if◌then◌else◌,
  length, ◌==◌,
}
use ns_pixels.Extern.Clock.{Clock}
use ns_pixels.Extern.Floats.{Floats}
use ns_pixels.Extern.Heapless.{BoundedVec}
use ns_pixels.Extern.Sorting.{UnstableSort}
use ns_pixels.Extern.Inflate.{Inflater}
use ns_pixels.Extern.Gateway.{Gateway}
use ns_pixels.Projection.{wgs84_to_canvas}
use ns_pixels.Projection.Saturation.{wgs84_to_canvas-IsBytes}
use ns_pixels.MapMode.{MapMode}
use ns_pixels.Train.{TrainState, TrainType, ServiceType}
use ns_pixels.Registry.{TrainMap, stamp_type, stamp_service, upsert, evict_older_than}
use ns_pixels.XmlParser.{Train, Token}
use ns_pixels.Feed.{Update, FeedResult, update_trains, cutoff_of, evict_stale, apply_trains}
use ns_pixels.Feed.Rounds.{on_message_applied}
use ns_pixels.Feed.Sightings.{step_trains}
use ns_pixels.Feed.Queue.{on_message-Counted}
use ns_pixels.NsApi.{queue_capacity}
use ns_pixels.NsApi.Batches.{Batches}
use ns_pixels.NsApi.Fetch.{TrainInfo, JourneyResp}
use ns_pixels.NsApi.Fetch.Effects.{given, verdict, fetch_types_on_rows}
use ns_pixels.NsApi.Fetch.Services.{served, service_verdict, fetch_service_on_rows}
use ns_pixels.NsApi.Paths.{types_path, service_path}
use ns_pixels.System.{
  World, Step, pass, message, sweep, types, service, Reach, start, later, at_start,
}
use ns_pixels.System.Sweeps.{build_batches_done}
use ns_pixels.System.Rows.{
  IsRow, MaybeRow, MaybeRow-map, stamp_type-IsRow, stamp_service-IsRow, SoundRows, upsert-SoundRows,
  evict_older_than-SoundRows,
}

MaybeRow-later : (t d : ℕ) (o : Option TrainState) → MaybeRow t o → MaybeRow (t + d) o
MaybeRow-later t d none r = tt
MaybeRow-later t d (some v) r = record {
  seen = omega (arith, r.seen);
  pixel_bytes = r.pixel_bytes;
  type_u16 = r.type_u16;
  service_u16 = r.service_u16;
}

MaybeRow-given :
    (time now : ℕ) (c : Clock) (v : Option TrainType) (o : Option TrainState)
    → MaybeRow time o
    → MaybeRow time (given c now v o)
MaybeRow-given time now c none o r = r
MaybeRow-given time now c (some t) o r =
    MaybeRow-map time (stamp_type c t now) (stamp_type-IsRow time now c t) o r

MaybeRow-served :
    (time now : ℕ) (c : Clock) (v : Option ServiceType) (o : Option TrainState)
    → MaybeRow time o
    → MaybeRow time (served c now v o)
MaybeRow-served time now c none o r = r
MaybeRow-served time now c (some t) o r =
    MaybeRow-map time (stamp_service c t now) (stamp_service-IsRow time now c t) o r

module _ (h : TrainMap) (vec : BoundedVec) (c : Clock) (fl : Floats) where
  open h use {Map, get}

  update_trains-SoundRows :
      (time now : ℕ) (ts : List (Train fl.F32)) (u : Update Map)
      → now ≤ time
      → SoundRows h vec c time u.trains
      → SoundRows h vec c time (update_trains h vec c fl now ts u).trains
  unfolding update_trains
  update_trains-SoundRows time now [] u l s = s
  update_trains-SoundRows time now (t ∷ ts) u l s =
      let done = upsert h vec c u.trains t.number (wgs84_to_canvas fl t.lat t.lon) now in
      update_trains-SoundRows time now ts _ l (
        subst (SoundRows h vec c time) (sym (step_trains h vec c fl t.number done.1 done.0 u)) (
          upsert-SoundRows h vec c time now u.trains t.number (wgs84_to_canvas fl t.lat t.lon) l
            (wgs84_to_canvas-IsBytes fl t.lat t.lon) s))

  evict_stale-SoundRows :
      (time now : ℕ) (m : Map)
      → SoundRows h vec c time m
      → SoundRows h vec c time (evict_stale h vec c fl now m).0
  unfolding evict_stale
  evict_stale-SoundRows time now m s =
      skip (not (cutoff_of h vec c fl now == now))
        (evict_older_than-SoundRows h vec c time (cutoff_of h vec c fl now) m s)
    where
      skip :
          (b : Bool)
          → SoundRows h vec c time (evict_older_than h vec c m (cutoff_of h vec c fl now)).0
          → SoundRows h vec c time
              (if b then evict_older_than h vec c m (cutoff_of h vec c fl now) else (m, 0)).0
      skip true t = t
      skip false t = s

module _ (h : TrainMap) (vec : BoundedVec) (c : Clock) (fl : Floats) (sorting : UnstableSort)
    (inf : Inflater) (tokenize : List ℕ → List (Option Token)) (parse_f32 : List ℕ → Option fl.F32)
    (gw : Gateway TrainInfo JourneyResp) where
  open h use {Map, get}

  abbrev pub Sound : World Map → Type 0
  Sound w = SoundRows h vec c w.time w.trains × (length w.queue ≤ queue_capacity)

  start-Sound : Sound (at_start h vec c fl sorting inf tokenize parse_f32 gw)
  start-Sound = (
    λ k.
        subst (MaybeRow 0) (sym (h.get-lookup h.empty k ∙ ap (λ es. lookup k es) h.entries-empty))
          tt,
    omega arith,
  )

  apply_trains-SoundRows :
      (trains : List (Train fl.F32)) (time now : ℕ) (has_buffer : Bool) (mode : MapMode)
      (queue : List ℕ) (m : Map)
      → now ≤ time
      → SoundRows h vec c time m
      → SoundRows h vec c time
          (apply_trains h vec c fl sorting trains now has_buffer mode queue m).trains
  unfolding apply_trains
  apply_trains-SoundRows trains time now has_buffer mode queue m l s =
      update_trains-SoundRows h vec c fl time now trains _ l
        (evict_stale-SoundRows h vec c fl time now m s)

  Step-Sound :
      {v w : World Map} → Step h vec c fl sorting inf tokenize parse_f32 gw v w → Sound v → Sound w
  Step-Sound {v} (pass d) (rows, queue) =
      (λ k. MaybeRow-later v.time d (get v.trains k) (rows k), queue)
  Step-Sound {v} (message frames state now has_buffer mode r l e) (rows, queue) =
      let (trains, same) =
        on_message_applied h vec c fl sorting inf tokenize parse_f32 frames state now has_buffer
          mode v.queue v.trains r e in
      (
        subst (λ (x : FeedResult Map). SoundRows h vec c v.time x.trains) same
            (apply_trains-SoundRows trains v.time now has_buffer mode v.queue v.trains l rows),
        (on_message-Counted h vec c fl sorting inf tokenize parse_f32 frames state now has_buffer
            mode v.queue v.trains r queue e).1,
      )
  Step-Sound {v} (sweep b e) (rows, queue) =
      let (b', f, l) = build_batches_done h vec c v.trains v.time v.queue rows in
      (
        rows,
        ground (
          arith,
          ap (λ (x : Batches). length x.queue) (some-injective _ _ (sym e ∙ f)),
          l,
          queue,
        ),
      )
  Step-Sound {v} (types conn batch) (rows, queue) =
      let sent = gw.get conn (types_path batch) in
      (
        λ k. subst (MaybeRow v.time) (sym (fetch_types_on_rows h vec c gw conn batch v.trains k)) (
            MaybeRow-given v.time (gw.now sent.0) c (verdict gw sent.1 batch k) (get v.trains k)
              (rows k)),
        queue,
      )
  Step-Sound {v} (service conn number) (rows, queue) =
      let sent = gw.get conn (service_path number) in
      (
        λ k.
            subst (MaybeRow v.time) (sym (fetch_service_on_rows h vec c gw conn number k v.trains))
              (MaybeRow-served v.time (gw.now sent.0) c
                (if k == number then service_verdict gw sent.1 else none) (get v.trains k)
                (rows k)),
        queue,
      )

  Reach-Sound : {w : World Map} → Reach h vec c fl sorting inf tokenize parse_f32 gw w → Sound w
  Reach-Sound start = start-Sound
  Reach-Sound (later r s) = Step-Sound s (Reach-Sound r)

  -- In every state that the tasks reach, in whatever order their steps come, each row was last seen at the time of
  -- the state or before it, its pixel is two bytes and its attempt offsets fit 16 bits; and the channel holds no
  -- more than its capacity.
  pub Reach-IsRow :
      {w : World Map}
      → Reach h vec c fl sorting inf tokenize parse_f32 gw w
      → ((k : ℕ) (v : TrainState) → get w.trains k ≡ some v → IsRow w.time v)
        × (length w.queue ≤ queue_capacity)
  Reach-IsRow r =
      let (rows, queue) = Reach-Sound r in (λ k v e. subst (MaybeRow _) e (rows k), queue)

  -- No sweep panics: in every reachable state, whatever the network and the seed are, a round of the NS API task
  -- that sweeps at the time of the state gets its batches and ends in a result.
  pub Reach-sweeps :
      {w : World Map}
      → Reach h vec c fl sorting inf tokenize parse_f32 gw w
      → (net : gw.Network) (seed : ℕ)
      → (r : RoundResult gw.Conn Map) × (enrich_round h vec c gw w.queue w.time net seed w.trains
          ≡ some r)
  unfolding enrich_round
  Reach-sweeps {w} r net seed =
      let (b, e, _) = build_batches_done h vec c w.trains w.time w.queue (Reach-Sound r).0 in
      (work_round h vec c gw b net seed w.trains, ground (arith, e))
