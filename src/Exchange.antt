-- ===== src/Exchange.antt =====
-- display.rs, with the producers of feed.rs, ns_api.rs and map_mode.rs: how the two snapshot buffers and the
-- two frame buffers are handed over. A `Signal` holds one value at most, and a new one takes its place.
pub mod Ownership
pub mod Returning
pub mod Republish
pub mod Frames
use mathlib.Core.Bool.{Bool, true, false}
use ns_pixels.Prelude.{ℕ, ◌+◌, ◌≡◌, Option, none, some, List, [], ◌∷◌, if◌then◌else◌, ◌==◌}
use ns_pixels.Train.{PixelData}

-- The tasks that rebuild snapshots.
pub data Producer : Type 0 where
  feed ns_api map_mode : Producer

-- A buffer by its number, what the display draws from, the two signals, the buffer that each producer holds
-- while it rebuilds, and what stands in each buffer.
pub record Buffers : Type 0 where
  pub clusters : ℕ
  pub fresh : Option ℕ
  pub free : Option ℕ
  pub feed_buf : Option ℕ
  pub ns_api_buf : Option ℕ
  pub map_mode_buf : Option ℕ
  pub content : ℕ → List PixelData

-- `start`: the display has the first buffer, the second is free.
abbrev pub started : Buffers
started = record {
  clusters = 0;
  fresh = none;
  free = some 1;
  feed_buf = none;
  ns_api_buf = none;
  map_mode_buf = none;
  content = λ b. [];
}

abbrev pub held : Producer → Buffers → Option ℕ
held feed s = s.feed_buf
held ns_api s = s.ns_api_buf
held map_mode s = s.map_mode_buf

abbrev pub hold : Producer → Option ℕ → Buffers → Buffers
hold feed b s = record s { feed_buf = b }
hold ns_api b s = record s { ns_api_buf = b }
hold map_mode b s = record s { map_mode_buf = b }

-- `try_take_free_clusters`
unfoldable pub try_take_free_clusters : Producer → Buffers → Buffers
try_take_free_clusters p s = elim s.free [
  | none ↦ s
  | some b ↦ hold p (some b) (record s { free = none })
]

-- The contents with a snapshot written into a buffer.
abbrev pub written : Option ℕ → List PixelData → (ℕ → List PixelData) → ℕ → List PixelData
written none new content i = content i
written (some b) new content i = if i == b then new else content i

-- `rebuild_clusters_into` on the buffer that is held.
unfoldable pub rebuild_into : Producer → List PixelData → Buffers → Buffers
rebuild_into p new s = record s { content = written (held p s) new s.content }

-- `publish_clusters`: an earlier buffer in the signal would be lost.
unfoldable pub publish_clusters : Producer → Buffers → Buffers
publish_clusters p s = elim (held p s) [
  | none ↦ s
  | some b ↦ hold p none (record s { fresh = some b })
]

-- The display task takes a fresh buffer and gives its own back, at the start of a frame.
unfoldable pub take_fresh_clusters : Buffers → Buffers
take_fresh_clusters s = elim s.fresh [
  | none ↦ s
  | some new ↦ record s { clusters = new; fresh = none; free = some s.clusters }
]

-- `rotate` writes into the display's buffer.
unfoldable pub redraw : List PixelData → Buffers → Buffers
redraw rotated s = record s { content = λ i. if i == s.clusters then rotated else s.content i }

-- One step of one task. A producer takes a buffer when it holds none.
pub data Step (s : Buffers) : Buffers → Type 0 where
  take : (p : Producer) → held p s ≡ none → Step s (try_take_free_clusters p s)
  rebuild : (p : Producer) (new : List PixelData) → Step s (rebuild_into p new s)
  publish : (p : Producer) → Step s (publish_clusters p s)
  swap : Step s (take_fresh_clusters s)
  draw : (rotated : List PixelData) → Step s (redraw rotated s)

pub data Reach : Buffers → Type 0 where
  start : Reach started
  later : {s t : Buffers} → Reach s → Step s t → Reach t
