-- ===== src/Extern/Trickle.antt =====
-- A stream that gives a byte to a read and never fails: an instance of `Socket`.
use ns_pixels.Prelude.{ℕ, zero, suc, ◌≤◌, ◌≡◌, refl, sym, ap, List, [], ◌∷◌, ◌++◌, arith, length}
use ns_pixels.Extern.Socket.{Socket, ReadResult, WriteResult, got, done}

-- What is to come and what was sent.
pub record Pipe : Type 0 where
  pub to_come : List ℕ
  pub written : List ℕ

unfoldable pub first_byte : List ℕ → ℕ → List ℕ
first_byte [] n = []
first_byte (b ∷ bs) zero = []
first_byte (b ∷ bs) (suc n) = b ∷ []

unfoldable pub behind : List ℕ → ℕ → List ℕ
behind [] n = []
behind (b ∷ bs) zero = b ∷ bs
behind (b ∷ bs) (suc n) = bs

first_byte-behind : (bs : List ℕ) (n : ℕ) → bs ≡ first_byte bs n ++ behind bs n
unfolding first_byte behind
first_byte-behind [] n = refl
first_byte-behind (b ∷ bs) zero = refl
first_byte-behind (b ∷ bs) (suc n) = refl

length-first_byte : (bs : List ℕ) (n : ℕ) → length (first_byte bs n) ≤ n
unfolding first_byte
length-first_byte [] n = omega arith
length-first_byte (b ∷ bs) zero = omega arith
length-first_byte (b ∷ bs) (suc n) = omega arith

first_byte_end : (bs : List ℕ) (n : ℕ) → first_byte bs (suc n) ≡ [] → bs ≡ []
unfolding first_byte
first_byte_end [] n e = refl
first_byte_end (b ∷ bs) n e = absurd (cc)

abbrev pub read_pipe : Pipe → ℕ → ReadResult ⊥ Pipe
read_pipe p n =
    got (first_byte p.to_come n) (record { to_come = behind p.to_come n; written = p.written })

abbrev pub write_pipe : Pipe → List ℕ → WriteResult ⊥ Pipe
write_pipe p bs = done (record { to_come = p.to_come; written = p.written ++ bs })

got_bytes_of : ReadResult ⊥ Pipe → List ℕ
got_bytes_of (ReadResult.failed e) = []
got_bytes_of (got bs p) = bs

coming_of : ReadResult ⊥ Pipe → List ℕ
coming_of (ReadResult.failed e) = []
coming_of (got bs p) = p.to_come

written_of : WriteResult ⊥ Pipe → List ℕ
written_of (WriteResult.failed e) = []
written_of (done p) = p.written

read_parts :
    (s s' : Pipe) (n : ℕ) (bs : List ℕ)
    → read_pipe s n ≡ got bs s'
    → (first_byte s.to_come n ≡ bs) × (behind s.to_come n ≡ s'.to_come)
unfolding got_bytes_of coming_of
read_parts s s' n bs e = (ap got_bytes_of e, ap coming_of e)

pub pipe_read_bytes :
    (s s' : Pipe) (n : ℕ) (bs : List ℕ) → read_pipe s n ≡ got bs s' → s.to_come ≡ bs ++ s'.to_come
pipe_read_bytes s s' n bs e =
    let (p, q) = read_parts s s' n bs e in grind (arith, p, q, first_byte-behind s.to_come n)

pub pipe_read_at_most :
    (s s' : Pipe) (n : ℕ) (bs : List ℕ) → read_pipe s n ≡ got bs s' → length bs ≤ n
pipe_read_at_most s s' n bs e =
    omega (arith, ap length (read_parts s s' n bs e).0, length-first_byte s.to_come n)

pub pipe_read_end : (s s' : Pipe) (n : ℕ) → read_pipe s (suc n) ≡ got [] s' → s.to_come ≡ []
pipe_read_end s s' n e = first_byte_end s.to_come n (read_parts s s' (suc n) [] e).0

kept_of : Pipe → ReadResult ⊥ Pipe → List ℕ
kept_of d (ReadResult.failed e) = d.written
kept_of d (got bs p) = p.written

pub pipe_read_keeps :
    (s s' : Pipe) (n : ℕ) (bs : List ℕ) → read_pipe s n ≡ got bs s' → s'.written ≡ s.written
unfolding kept_of
pipe_read_keeps s s' n bs e = sym (ap (kept_of s) e)

pub pipe_write_bytes :
    (s s' : Pipe) (bs : List ℕ) → write_pipe s bs ≡ done s' → s'.written ≡ s.written ++ bs
unfolding written_of
pipe_write_bytes s s' bs e = sym (ap written_of e)

pub pipe_flush_bytes :
    (s s' : Pipe) → ◌≡◌ {A = WriteResult ⊥ Pipe} (done s) (done s') → s'.written ≡ s.written
unfolding written_of
pipe_flush_bytes s s' e = sym (ap written_of e)

abbrev pub trickle : Socket
trickle = record {
  E = ⊥;
  S = Pipe;
  incoming = λ p. p.to_come;
  sent = λ p. p.written;
  read = read_pipe;
  write_all = write_pipe;
  flush = λ p. done p;
  read_bytes = pipe_read_bytes;
  read_at_most = pipe_read_at_most;
  read_end = pipe_read_end;
  write_all_bytes = pipe_write_bytes;
  flush_bytes = pipe_flush_bytes;
}
