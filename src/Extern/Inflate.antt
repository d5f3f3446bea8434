-- ===== src/Extern/Inflate.antt =====
-- miniz_oxide: one call of the streaming inflater.
use ns_pixels.Prelude.{ℕ, ◌≤◌, List, length}

pub data Status (E : Type 0) : Type 0 where
  stream_end going_on : Status E
  inflate_error : E → Status E

pub data Flush : Type 0 where
  finish no_flush : Flush

-- The output is what the call wrote at the front of the buffer it was given.
pub record StreamResult (S E : Type 0) : Type 0 where
  pub bytes_consumed : ℕ
  pub output : List ℕ
  pub status : Status E
  pub state : S

pub record Inflater : Type 1 where
  pub S : Type 0
  pub E : Type 0
  pub reset : S → S
  -- the state, the input, the room in the buffer
  pub inflate : S → List ℕ → ℕ → Flush → StreamResult S E
  pub consumed_at_most :
      (s : S) (input : List ℕ) (room : ℕ) (f : Flush)
      → (inflate s input room f).bytes_consumed ≤ length input
  pub written_at_most :
      (s : S) (input : List ℕ) (room : ℕ) (f : Flush)
      → length (inflate s input room f).output ≤ room
