-- ===== src/Extern/Stored.antt =====
-- An inflater that copies its input, as for a stored block: an instance of `Inflater`.
use ns_pixels.Prelude.{ℕ, zero, suc, ◌≤◌, List, [], ◌∷◌, arith, length}
use ns_pixels.Extern.Inflate.{Inflater, Status, Flush, stream_end, going_on, finish, no_flush}

-- The stream ends with the call that is told so.
abbrev status_of : Flush → Status ⊥
status_of finish = stream_end
status_of no_flush = going_on

unfoldable pub copied : ℕ → List ℕ → List ℕ
copied zero bs = []
copied (suc n) [] = []
copied (suc n) (b ∷ bs) = b ∷ copied n bs

pub length-copied : (n : ℕ) (bs : List ℕ) → length (copied n bs) ≤ n
unfolding copied
length-copied zero bs = omega arith
length-copied (suc n) [] = omega arith
length-copied (suc n) (b ∷ bs) = omega (arith, length-copied n bs)

pub length-copied_input : (n : ℕ) (bs : List ℕ) → length (copied n bs) ≤ length bs
unfolding copied
length-copied_input zero bs = omega arith
length-copied_input (suc n) [] = omega arith
length-copied_input (suc n) (b ∷ bs) = omega (arith, length-copied_input n bs)

abbrev pub stored : Inflater
stored = record {
  S = Unit;
  E = ⊥;
  reset = λ s. s;
  inflate = λ s input room f. record {
    bytes_consumed = length (copied room input);
    output = copied room input;
    status = status_of f;
    state = s;
  };
  consumed_at_most = λ s input room f. length-copied_input room input;
  written_at_most = λ s input room f. length-copied room input;
}
