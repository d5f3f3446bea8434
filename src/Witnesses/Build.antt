-- ===== src/Witnesses/Build.antt =====
-- The theorem on the build script: the linker names the kind of an error and nothing else.
use ns_pixels.Prelude.{ℕ, ◌≤◌, ◌≡◌, ◌↔◌, ◌⊎◌, Option, none, List, [], ◌∷◌}
use ns_pixels.Prelude.Text.{codes}
use ns_pixels.Build.{Hint, panicked, returns, exits, linker_be_nice, linker_be_nice_ends}

abbrev args : List (List ℕ)
args = codes "build-script" ∷ codes "missing-lib" ∷ []

linker_be_nice_ends_example :
    ((linker_be_nice args ≡ returns) ↔ (2 ≤ 1))
    × ((linker_be_nice args ≡ panicked) ↔ ◌≡◌ {A = ℕ} 2 2)
    × (3 ≤ 2
        → (linker_be_nice args ≡ exits 1 none)
          ⊎ ((hint : Option Hint) × (linker_be_nice args ≡ exits 0 hint)))
linker_be_nice_ends_example = linker_be_nice_ends args
