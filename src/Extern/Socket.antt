-- ===== src/Extern/Socket.antt =====
-- embedded_io_async: a byte stream in both directions. `incoming` is what the peer will have sent
-- before the stream ends, `sent` what it has been sent; neither can be seen by the program.
use ns_pixels.Prelude.{ℕ, suc, ◌≤◌, ◌≡◌, ◌++◌, List, [], length}

pub data ReadResult (E S : Type 0) : Type 0 where
  failed : E → ReadResult E S
  got : List ℕ → S → ReadResult E S

pub data WriteResult (E S : Type 0) : Type 0 where
  failed : E → WriteResult E S
  done : S → WriteResult E S

pub record Socket : Type 1 where
  pub E : Type 0
  pub S : Type 0
  pub incoming : S → List ℕ
  pub sent : S → List ℕ
  -- a read into a buffer of the length that is given
  pub read : S → ℕ → ReadResult E S
  pub write_all : S → List ℕ → WriteResult E S
  pub flush : S → WriteResult E S
  pub read_bytes :
      (s s' : S) (n : ℕ) (bs : List ℕ) → read s n ≡ got bs s' → incoming s ≡ bs ++ incoming s'
  pub read_at_most : (s s' : S) (n : ℕ) (bs : List ℕ) → read s n ≡ got bs s' → length bs ≤ n
  -- no bytes into a buffer that has room: the stream has ended
  pub read_end : (s s' : S) (n : ℕ) → read s (suc n) ≡ got [] s' → incoming s ≡ []
  pub write_all_bytes :
      (s s' : S) (bs : List ℕ) → write_all s bs ≡ WriteResult.done s' → sent s' ≡ sent s ++ bs
  pub flush_bytes : (s s' : S) → flush s ≡ WriteResult.done s' → sent s' ≡ sent s
