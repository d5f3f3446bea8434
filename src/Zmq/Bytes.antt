-- ===== src/Zmq/Bytes.antt =====
-- Big-endian numbers: `to_be_bytes` of a number of `k` bytes, and `from_be_bytes`.
use ns_pixels.Prelude.{
  ℕ, zero, suc, ◌+◌, ◌*◌, ◌/◌, ◌%◌, ◌<◌, ◌≡◌, refl, List, [], ◌∷◌, ◌++◌, arith, length,
  length-append,
}

unfoldable pub to_be_bytes : ℕ → ℕ → List ℕ
to_be_bytes zero n = []
to_be_bytes (suc k) n = to_be_bytes k (n / 256) ++ (n % 256) ∷ []

from_digits : ℕ → List ℕ → ℕ
from_digits acc [] = acc
from_digits acc (b ∷ bs) = from_digits (acc * 256 + b) bs

unfoldable pub from_be_bytes : List ℕ → ℕ
unfolding from_digits
from_be_bytes bs = from_digits 0 bs

-- How many numbers `k` bytes can hold.
abbrev pub byte_range : ℕ → ℕ
byte_range zero = 1
byte_range (suc k) = byte_range k * 256

from_digits-snoc :
    (acc b : ℕ) (bs : List ℕ) → from_digits acc (bs ++ b ∷ []) ≡ from_digits acc bs * 256 + b
unfolding from_digits
from_digits-snoc acc b [] = refl
from_digits-snoc acc b (c ∷ bs) = from_digits-snoc (acc * 256 + c) b bs

pub from_be_bytes-to_be_bytes : (k n : ℕ) → n < byte_range k → from_be_bytes (to_be_bytes k n) ≡ n
unfolding from_be_bytes to_be_bytes
from_be_bytes-to_be_bytes zero n b = omega arith
from_be_bytes-to_be_bytes (suc k) n b = omega (
  arith,
  from_digits-snoc 0 (n % 256) (to_be_bytes k (n / 256)),
  from_be_bytes-to_be_bytes k (n / 256) (omega arith),
)

pub length-to_be_bytes : (k n : ℕ) → length (to_be_bytes k n) ≡ k
unfolding to_be_bytes
length-to_be_bytes zero n = refl
length-to_be_bytes (suc k) n = omega (
  arith,
  length-append (to_be_bytes k (n / 256)) ((n % 256) ∷ []),
  length-to_be_bytes k (n / 256),
)
