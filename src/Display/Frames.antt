-- ===== src/Display/Frames.antt =====
-- The snapshot of the display task over any sequence of frames.
use ns_pixels.Prelude.{◌≡◌, refl, ap, ◌∙◌, Option, none, some, List, [], ◌∷◌}
use ns_pixels.Train.{PixelData}
use ns_pixels.Accel.{Direction, x_up}
use ns_pixels.Display.{take_fresh, frame, DisplayState}
use ns_pixels.Display.Rotation.{Pixel, OnDisplay, seen, rotate-seen}

-- A frame's inputs: the snapshot that came in, if one did, and the direction that was read.
pub record Tick : Type 0 where
  pub fresh : Option (List Pixel)
  pub tilt : Direction

-- An incoming snapshot is upright.
abbrev pub upright : Option (List Pixel) → Option (List PixelData)
upright none = none
upright (some ps) = some (seen x_up ps)

unfoldable pub frames : List Tick → DisplayState → DisplayState
frames [] s = s
frames (t ∷ ts) s = frames ts (frame (upright t.fresh) t.tilt s)

abbrev pub newer : Option (List Pixel) → List Pixel → List Pixel
newer none ps = ps
newer (some new) ps = new

-- The snapshot that came in last, and the direction that was read last.
abbrev pub newest : List Tick → List Pixel → List Pixel
newest [] ps = ps
newest (t ∷ ts) ps = newest ts (newer t.fresh ps)

abbrev pub last_tilt : List Tick → Direction → Direction
last_tilt [] d = d
last_tilt (t ∷ ts) d = last_tilt ts t.tilt

abbrev pub Incoming : Option (List Pixel) → Type 0
Incoming none = Unit
Incoming (some ps) = OnDisplay ps

abbrev pub AllOnDisplay : List Tick → Type 0
AllOnDisplay [] = Unit
AllOnDisplay (t ∷ ts) = Incoming t.fresh × AllOnDisplay ts

-- A state that shows the pixels under a direction.
abbrev pub showing : Direction → List Pixel → DisplayState
showing d ps = record { clusters = seen d ps; direction = d }

frame-showing :
    (f : Option (List Pixel)) (ps : List Pixel) (a b : Direction)
    → OnDisplay ps
    → Incoming f
    → frame (upright f) b (showing a ps) ≡ showing b (newer f ps)
unfolding frame take_fresh
frame-showing none ps a b o i =
    ap (λ c. record { clusters = c; direction = b }) (rotate-seen ps a b o)
frame-showing (some new) ps a b o i =
    ap (λ c. record { clusters = c; direction = b }) (rotate-seen new x_up b i)

newer-OnDisplay :
    (f : Option (List Pixel)) (ps : List Pixel) → OnDisplay ps → Incoming f → OnDisplay (newer f ps)
newer-OnDisplay none ps o i = o
newer-OnDisplay (some new) ps o i = i

-- After any sequence of frames, however the board was turned and whenever snapshots came in, the
-- display shows the newest snapshot turned for the direction that was read last. Every snapshot has its
-- pixels on the display.
pub frames-showing :
    (ts : List Tick) (ps : List Pixel) (a : Direction)
    → OnDisplay ps
    → AllOnDisplay ts
    → frames ts (showing a ps) ≡ showing (last_tilt ts a) (newest ts ps)
unfolding frames
frames-showing [] ps a o i = refl
frames-showing (t ∷ ts) ps a o i =
    ap (frames ts) (frame-showing t.fresh ps a t.tilt o i.0)
    ∙ frames-showing ts (newer t.fresh ps) t.tilt (newer-OnDisplay t.fresh ps o i.0) i.1
