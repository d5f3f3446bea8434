-- ===== src/Zmq/Reading.antt =====
-- `read_exact` however the stream splits its bytes over the reads.
use mathlib.Core.List.{append-nil, append_assoc}
use ns_pixels.Prelude.{
  ℕ, zero, suc, ◌-◌, ◌≤◌, ◌≡◌, ◌≢◌, refl, sym, ap, ◌∙◌, ◌⊎◌, inl, inr, List, [], ◌∷◌, ◌++◌, arith,
  length, length-append,
}
use ns_pixels.Extern.Socket.{Socket, ReadResult, got}
use ns_pixels.Zmq.{ok, stalled, read_exact, read_more}

-- The reads do not fail.
pub record Steady (sock : Socket) : Type 0 where
  pub no_failure :
      (s : sock.S) (n : ℕ) → (bs : List ℕ) × (s' : sock.S) × (sock.read s n ≡ got bs s')

append_split :
    (xs zs ys ws : List ℕ)
    → xs ++ ys ≡ zs ++ ws
    → length xs ≤ length zs
    → (ds : List ℕ) × (zs ≡ xs ++ ds) × (ys ≡ ds ++ ws)
append_split [] zs ys ws e b = (zs, refl, e)
append_split (x ∷ xs) [] ys ws e b = absurd (omega arith)
append_split (x ∷ xs) (z ∷ zs) ys ws e b =
    let (ds, f, g) = append_split xs zs ys ws (cc) (omega arith) in (ds, cc, g)

module _ (sock : Socket) (max_frame_size : ℕ) where
  open sock use {S, incoming, read}

  pub read_cases :
      (s : S) (n : ℕ)
      → ((e : sock.E) × (read s n ≡ ReadResult.failed e))
        ⊎ ((bs : List ℕ) × (s' : S) × (read s n ≡ got bs s'))
  read_cases s n = go (read s n) refl
    where
      go :
          (r : ReadResult sock.E S)
          → read s n ≡ r
          → ((e : sock.E) × (read s n ≡ ReadResult.failed e))
            ⊎ ((bs : List ℕ) × (s' : S) × (read s n ≡ got bs s'))
      go (ReadResult.failed e) p = inl (e, p)
      go (got bs s') p = inr (bs, s', p)

  -- A read before the end of the stream brings a byte at least.
  read_some :
      (steady : Steady sock) (s : S) (n x : ℕ) (xs : List ℕ)
      → incoming s ≡ x ∷ xs
      → (c : ℕ) × (cs : List ℕ) × (t : S) × (read s (suc n) ≡ got (c ∷ cs) t)
  read_some steady s n x xs e = let (bs, t, p) = steady.no_failure s (suc n) in some_byte bs t p
    where
      some_byte :
          (bs : List ℕ) (t : S)
          → read s (suc n) ≡ got bs t
          → (c : ℕ) × (cs : List ℕ) × (t : S) × (read s (suc n) ≡ got (c ∷ cs) t)
      some_byte [] t p = absurd (nil_ne_cons (sym (sock.read_end s t n p) ∙ e))
        where
          nil_ne_cons : ◌≡◌ {A = List ℕ} [] (x ∷ xs) → ⊥
          nil_ne_cons q = cc
      some_byte (c ∷ cs) t p = (c, cs, t, p)

  -- The bytes that were asked for, from a stream that has them.
  read_more_run :
      (steady : Steady sock) (fuel n : ℕ) (filled bs rest : List ℕ) (s : S)
      → n ≤ fuel
      → length bs ≡ n
      → incoming s ≡ bs ++ rest
      → (s' : S) × (read_more sock max_frame_size fuel n filled s ≡ ok (filled ++ bs) s')
        × (incoming s' ≡ rest)
  unfolding read_more
  read_more_run steady fuel zero filled [] rest s b l e = (s, rw append-nil, e)
  read_more_run steady fuel zero filled (x ∷ bs) rest s b l e = absurd (omega arith)
  read_more_run steady fuel (suc n) filled [] rest s b l e = absurd (omega arith)
  read_more_run steady zero (suc n) filled (x ∷ bs) rest s b l e = elim b [ ]
  read_more_run steady (suc fuel) (suc n) filled (x ∷ bs) rest s b l e =
      let (c, cs, t, p) = read_some steady s n x (bs ++ rest) e in
      let (ds, f, g) =
        append_split (c ∷ cs) (x ∷ bs) (incoming t) rest
          (sym (sock.read_bytes s t (suc n) (c ∷ cs) p) ∙ e)
          (omega (arith, sock.read_at_most s t (suc n) (c ∷ cs) p)) in
      let (s', q, r) =
        read_more_run steady fuel (n - length cs) (filled ++ c ∷ cs) ds rest t (omega arith)
          (omega (arith, ap length f, length-append (c ∷ cs) ds)) g in
      (s', ground (arith, p, q, f, append_assoc filled (c ∷ cs) ds), r)

  read_more_ends :
      (fuel n : ℕ) (filled : List ℕ) (s : S)
      → n ≤ fuel
      → read_more sock max_frame_size fuel n filled s ≡ stalled
      → ⊥
  unfolding read_more
  read_more_ends fuel zero filled s b e = cc
  read_more_ends zero (suc n) filled s b e = elim b [ ]
  read_more_ends (suc fuel) (suc n) filled s b e = elim (read_cases s (suc n)) [
    | inl (x, p) ↦ ground arith
    | inr ([], t, p) ↦ ground arith
    | inr (c ∷ cs, t, p) ↦
        read_more_ends fuel (n - length cs) (filled ++ c ∷ cs) t (omega arith) (ground arith)
  ]

  -- `read_exact` ends on every stream.
  pub read_exact-ne-stalled : (n : ℕ) (s : S) → read_exact sock max_frame_size n s ≢ stalled
  unfolding read_exact
  read_exact-ne-stalled n s e = read_more_ends n n [] s (omega arith) e

  pub read_exact_run :
      (steady : Steady sock) (n : ℕ) (bs rest : List ℕ) (s : S)
      → length bs ≡ n
      → incoming s ≡ bs ++ rest
      → (s' : S) × (read_exact sock max_frame_size n s ≡ ok bs s') × (incoming s' ≡ rest)
  unfolding read_exact
  read_exact_run steady n bs rest s l e = read_more_run steady n n [] bs rest s (omega arith) l e
