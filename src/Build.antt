-- ===== src/Build.antt =====
-- build.rs: the build script, which is also the linker's error handler. Texts are lists of code points.
use mathlib.Core.Bool.{Bool, true, false, ◌||◌, ◌&&◌}
use ns_pixels.Prelude.{
  ℕ, ◌≤◌, ◌≡◌, ◌↔◌, refl, Option, none, some, List, [], ◌∷◌, if◌then◌else◌, ◌==◌, length, arith,
  ltb, get_elem?, ◌⊎◌, inl, inr, Bool-cases,
}
use ns_pixels.Prelude.Text.{codes, same}

-- The hints that are printed for a symbol.
pub data Hint : Type 0 where
  defmt_missing linkall_missing no_scheduler embedded_test_missing esp_alloc_missing : Hint

-- How `linker_be_nice` ends: an index out of range, an exit with a code behind a hint or none, or a return.
pub data Handled : Type 0 where
  panicked : Handled
  exits : ℕ → Option Hint → Handled
  returns : Handled

-- `str::starts_with`
unfoldable pub starts_with : List ℕ → List ℕ → Bool
starts_with s [] = true
starts_with [] (p ∷ ps) = false
starts_with (c ∷ s) (p ∷ ps) = c == p && starts_with s ps

abbrev pub is_allocator : List ℕ → Bool
is_allocator what =
    same what (codes "free")
    || same what (codes "malloc")
    || same what (codes "calloc")
    || same what (codes "get_free_internal_heap_size")
    || same what (codes "malloc_internal")
    || same what (codes "realloc_internal")
    || same what (codes "calloc_internal")
    || same what (codes "free_internal")

-- The match on the symbol.
unfoldable pub hint_for : List ℕ → Option Hint
unfolding starts_with
hint_for what =
    if starts_with what (codes "_defmt_")
    then some defmt_missing
    else if same what (codes "_stack_start")
    then some linkall_missing
    else if starts_with what (codes "esp_rtos_")
    then some no_scheduler
    else if same what (codes "embedded_test_linker_file_not_added_to_rustflags")
    then some embedded_test_missing
    else if is_allocator what
    then some esp_alloc_missing
    else none

-- The arguments are the program's name and what the linker adds.
unfoldable pub linker_be_nice : List (List ℕ) → Handled
unfolding hint_for
linker_be_nice args =
    if ltb 1 (length args)
    then elim (get_elem? args 1) [
      | none ↦ panicked
      | some kind ↦ elim (get_elem? args 2) [
        | none ↦ panicked
        | some what ↦
            if same kind (codes "undefined-symbol") then exits 0 (hint_for what) else exits 1 none
      ]
    ]
    else returns

-- Whether the linker arguments are printed: the handler's path by `linker_be_nice`, the script's name by `main`.
unfoldable pub prints_link_args : List (List ℕ) → Bool
unfolding linker_be_nice
prints_link_args args = elim (linker_be_nice args) [
  | panicked ↦ false
  | exits code hint ↦ false
  | returns ↦ true
]

-- With more than one argument behind the program's name the script ends as an error handler, with code 1 and without
-- a hint, or with code 0. It goes on to the linker arguments when there is none. With just one it panics, whatever
-- the argument is.
pub linker_be_nice_ends :
    (args : List (List ℕ))
    → ((linker_be_nice args ≡ returns) ↔ (length args ≤ 1))
      × ((linker_be_nice args ≡ panicked) ↔ (length args ≡ 2))
      × (3 ≤ length args
          → (linker_be_nice args ≡ exits 1 none)
            ⊎ ((hint : Option Hint) × (linker_be_nice args ≡ exits 0 hint)))
unfolding linker_be_nice
linker_be_nice_ends [] = (
  (λ e. omega arith, λ l. refl),
  (λ e. absurd (ground arith), λ l. absurd (omega arith)),
  λ l. absurd (omega arith),
)
linker_be_nice_ends (program ∷ []) = (
  (λ e. omega arith, λ l. refl),
  (λ e. absurd (ground arith), λ l. absurd (omega arith)),
  λ l. absurd (omega arith),
)
linker_be_nice_ends (program ∷ kind ∷ []) = (
  (λ e. absurd (ground arith), λ l. absurd (omega arith)),
  (λ e. refl, λ l. refl),
  λ l. absurd (omega arith),
)
linker_be_nice_ends (program ∷ kind ∷ what ∷ rest) =
    elim (Bool-cases (same kind (codes "undefined-symbol"))) [
      | inl known ↦ (
        (λ e. absurd (ground (arith, known)), λ l. absurd (omega arith)),
        (λ e. absurd (ground (arith, known)), λ l. absurd (omega arith)),
        λ l. inr (hint_for what, ground (arith, known)),
      )
      | inr other ↦ (
        (λ e. absurd (ground (arith, other)), λ l. absurd (omega arith)),
        (λ e. absurd (ground (arith, other)), λ l. absurd (omega arith)),
        λ l. inl (ground (arith, other)),
      )
    ]
