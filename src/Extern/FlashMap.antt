-- ===== src/Extern/FlashMap.antt =====
-- sequential_storage: a map in flash whose values write themselves into a buffer and are read back from one.
use mathlib.Core.Bool.{Bool, true}
use ns_pixels.Prelude.{ℕ, ◌≡◌, List, take}

-- What `serialize_into` and `deserialize_from` give: a value and the bytes used, or an error.
pub data Coded (A : Type 0) : Type 0 where
  coded : A → ℕ → Coded A
  buffer_too_small invalid_format : Coded A

-- What `fetch_item` gives, `Ok(Some(..))`, `Ok(None)` or an error.
pub data Fetched (A : Type 0) : Type 0 where
  found : A → Fetched A
  absent failed : Fetched A

abbrev pub answer : {A : Type 0} → Coded A → Fetched A
answer (coded v n) = found v
answer buffer_too_small = failed
answer invalid_format = failed

-- `store_item` is given a key, the value's `serialize_into` and the length of the scratch buffer, and says
-- whether the write succeeded. A value that was stored is what `fetch_item` with the same key reads from then.
pub record FlashMap : Type 1 where
  pub S : Type 0
  pub store_item : ℕ → (List ℕ → Coded (List ℕ)) → ℕ → S → S × Bool
  pub fetch_item : {A : Type 0} → ℕ → (List ℕ → Coded A) → ℕ → S → Fetched A
  pub fetched_stored :
      {A : Type 0} (key : ℕ) (write : List ℕ → Coded (List ℕ)) (read : List ℕ → Coded A) (len : ℕ)
      (s : S)
      → (store_item key write len s).1 ≡ true
      → (buffer : List ℕ) × (out : List ℕ) × (n : ℕ) × (write buffer ≡ coded out n)
        × (fetch_item key read len (store_item key write len s).0 ≡ answer (read (take n out)))
