-- ===== src/Snapshot/Placed.antt =====
-- Where the entries of a rebuilt snapshot stand: each at a pixel of the display.
use mathlib.Core.Option.{some-injective}
use ns_pixels.Prelude.{
  ℕ, ◌<◌, ◌≡◌, refl, sym, ◌∙◌, subst, Bool, true, List, [], ◌∷◌, arith, inl, inr, some,
  Option-cases,
}
use ns_pixels.Extern.Sorting.{UnstableSort}
use ns_pixels.Projection.{PixelCoord}
use ns_pixels.Projection.Key.{as_u16-eq}
use ns_pixels.MapMode.{MapMode, canvas_to_display}
use ns_pixels.MapMode.Windows.{canvas_to_display_bounds}
use ns_pixels.Train.{TrainState, PixelData}
use ns_pixels.Registry.{TrainMap}
use ns_pixels.Snapshot.{absorb, entry_of, rebuild_clusters}
use ns_pixels.Snapshot.Content.{any, shows}
use ns_pixels.Snapshot.Seen.{any-SomeRow, row_shows}
use ns_pixels.Snapshot.View.{snapshot, rebuild-snapshot, any-snapshot}
use ns_pixels.Display.Rotation.{key}

-- The key is that of a pixel of the display.
abbrev pub PlacedKey : ℕ → Type 0
PlacedKey c = (p : PixelCoord) × (p.x < 64) × (p.y < 64) × (c ≡ key p.x p.y)

abbrev pub AllPlaced : List PixelData → Type 0
AllPlaced [] = Unit
AllPlaced (e ∷ es) = PlacedKey e.coord_key × AllPlaced es

-- An entry with the key, whatever its masks.
abbrev at_key : ℕ → ℕ → PixelData → Bool
at_key = shows (λ _. 1)

all_placed :
    (es : List PixelData) → ((c : ℕ) → any (at_key c 0) es ≡ true → PlacedKey c) → AllPlaced es
all_placed [] f = tt
all_placed (e ∷ es) f =
    (f e.coord_key (ground arith), all_placed es (λ c there. f c (ground (arith, there))))

row_shows-PlacedKey :
    (mode : MapMode) (c : ℕ) (s : TrainState) → row_shows mode (λ _. 1) c 0 s ≡ true → PlacedKey c
row_shows-PlacedKey mode c s shown = elim (Option-cases (canvas_to_display s.pixel mode)) [
  | inl hidden ↦ absurd (ground arith)
  | inr (d, e) ↦
      let (bx, by) = canvas_to_display_bounds s.pixel mode e in
      (
        d,
        bx,
        by,
        ground arith
            ∙ as_u16-eq d (record { x_byte = omega (arith, bx); y_byte = omega (arith, by) }),
      )
]

module _ (h : TrainMap) (sorting : UnstableSort) where
  pub rebuild_clusters-AllPlaced :
      (m : h.Map) (mode : MapMode) (out : List PixelData)
      → rebuild_clusters h sorting m mode ≡ some out
      → AllPlaced out
  unfolding absorb entry_of
  rebuild_clusters-AllPlaced m mode out e =
      subst AllPlaced (some-injective _ _ (sym (rebuild-snapshot h sorting m mode) ∙ e)) (
        all_placed (snapshot h sorting m mode) (λ c there.
          let (j, s, l, shown) =
            any-SomeRow (row_shows mode (λ _. 1) c 0) (h.entries m) (h.entries-Distinct m) (
              sym (any-snapshot h sorting (λ _. 1) (λ _. 1) (λ _ _. refl) (λ _ _. refl) m mode c 0)
              ∙ there) in
          row_shows-PlacedKey mode c s shown))
