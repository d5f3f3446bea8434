-- ===== src/Feed/Rounds.antt =====
-- A round of the feed task that ends in a result has done the work on the trains of its message.
use mathlib.Core.Bool.{Bool}
use mathlib.Core.Option.{some-injective}
use ns_pixels.Prelude.{ℕ, ◌≡◌, Option, none, some, List, arith}
use ns_pixels.Extern.Clock.{Clock}
use ns_pixels.Extern.Floats.{Floats}
use ns_pixels.Extern.Heapless.{BoundedVec}
use ns_pixels.Extern.Sorting.{UnstableSort}
use ns_pixels.Extern.Inflate.{Inflater}
use ns_pixels.MapMode.{MapMode}
use ns_pixels.Registry.{TrainMap}
use ns_pixels.XmlParser.{Train, Token}
use ns_pixels.Feed.{FeedResult, apply_trains, message_trains, on_message}

module _ (h : TrainMap) (vec : BoundedVec) (c : Clock) (fl : Floats) (sorting : UnstableSort)
    (inf : Inflater) (tokenize : List ℕ → List (Option Token))
    (parse_f32 : List ℕ → Option fl.F32) where
  pub on_message_applied :
      (frames : List (List ℕ)) (state : inf.S) (now : ℕ) (has_buffer : Bool) (mode : MapMode)
      (queue : List ℕ) (m : h.Map) (r : FeedResult h.Map)
      → on_message h vec c fl sorting inf tokenize parse_f32 frames state now has_buffer mode queue
          m
        ≡ some r
      → (trains : List (Train fl.F32)) × (apply_trains h vec c fl sorting trains now has_buffer mode
            queue m
          ≡ r)
  unfolding on_message
  on_message_applied frames state now has_buffer mode queue m r e =
      read (message_trains h vec c fl sorting inf tokenize parse_f32 frames state) e
    where
      done : List (Train fl.F32) → FeedResult h.Map
      done trains = apply_trains h vec c fl sorting trains now has_buffer mode queue m

      read :
          (o : Option (List (Train fl.F32)))
          → ◌≡◌ {A = Option (FeedResult h.Map)}
              (elim o [ none ↦ none | some ts ↦ some (done ts) ])
              (some r)
          → (trains : List (Train fl.F32)) × (done trains ≡ r)
      read none e = absurd (ground arith)
      read (some ts) e = (ts, some-injective _ _ e)
