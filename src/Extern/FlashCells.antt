-- ===== src/Extern/FlashCells.antt =====
-- The assumptions on the flash map can be met: a function from keys to bytes.
use mathlib.Core.Bool.{Bool, true, false}
use ns_pixels.Prelude.{
  ℕ, zero, suc, ◌≡◌, refl, Option, none, some, List, [], ◌∷◌, arith, if◌then◌else◌, ◌==◌, take,
}
use ns_pixels.Extern.FlashMap.{
  Coded, coded, buffer_too_small, invalid_format, Fetched, absent, answer, FlashMap,
}

abbrev pub blank : ℕ → List ℕ
blank zero = []
blank (suc n) = 0 ∷ blank n

abbrev pub put : ℕ → Coded (List ℕ) → (ℕ → Option (List ℕ)) → (ℕ → Option (List ℕ)) × Bool
put key (coded out n) s = ((λ k. if k == key then some (take n out) else s k), true)
put key buffer_too_small s = (s, false)
put key invalid_format s = (s, false)

abbrev pub get_item : {A : Type 0} → (List ℕ → Coded A) → Option (List ℕ) → Fetched A
get_item read none = absent
get_item read (some bs) = answer (read bs)

pub put_got :
    {A : Type 0} (key : ℕ) (write : List ℕ → Coded (List ℕ)) (read : List ℕ → Coded A)
    (buffer : List ℕ) (s : ℕ → Option (List ℕ))
    → (put key (write buffer) s).1 ≡ true
    → (buf : List ℕ) × (out : List ℕ) × (n : ℕ) × (write buf ≡ coded out n)
      × (get_item read ((put key (write buffer) s).0 key) ≡ answer (read (take n out)))
put_got {A} key write read buffer s ok = go (write buffer) refl ok
  where
    go :
        (c : Coded (List ℕ))
        → write buffer ≡ c
        → (put key c s).1 ≡ true
        → (buf : List ℕ) × (out : List ℕ) × (n : ℕ) × (write buf ≡ coded out n)
          × (get_item read ((put key c s).0 key) ≡ answer (read (take n out)))
    go (coded out n) e ok = (buffer, out, n, e, ground arith)
    go buffer_too_small e ok = absurd (ground arith)
    go invalid_format e ok = absurd (ground arith)

abbrev pub flash_cells : FlashMap
flash_cells = record {
  S = ℕ → Option (List ℕ);
  store_item = λ key write len s. put key (write (blank len)) s;
  fetch_item = λ key read len s. get_item read (s key);
  fetched_stored = λ key write read len s ok. put_got key write read (blank len) s ok;
}
