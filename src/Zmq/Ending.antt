-- ===== src/Zmq/Ending.antt =====
-- `recv` ends on every stream: each frame takes a byte at least from what the peer will have sent.
use mathlib.Core.Bool.{Bool, true, false, not}
use ns_pixels.Prelude.{
  ℕ, zero, suc, ◌+◌, ◌-◌, ◌≤◌, ◌<◌, ◌≡◌, ◌≢◌, refl, ap, inl, inr, List, [], ◌∷◌, ◌++◌, arith,
  if◌then◌else◌, ltb, ◌==◌, length, length-append, bit_and, get_or, Bool-cases, ◌⊎◌,
}
use ns_pixels.Extern.Socket.{Socket}
use ns_pixels.Zmq.{
  Outcome, ok, err, stalled, Error, flag_long, read_exact, read_more, frame_length, recv_frame,
  recv, recv_parts, M, ◌>>=◌, fail, give, frame_too_large, flag_command, flag_more,
}
use ns_pixels.Zmq.Reading.{read_exact-ne-stalled, read_cases}

-- A result, its cases with the equation.
pub outcome_cases :
    {E S A : Type 0} (r : Outcome E S A)
    → ((a : A) × (s : S) × (r ≡ ok a s)) ⊎ ((e : Error E) × (r ≡ err e)) ⊎ (r ≡ stalled)
outcome_cases (ok a s) = inl (a, s, refl)
outcome_cases (err e) = inr (inl (e, refl))
outcome_cases stalled = inr (inr refl)

module _ (sock : Socket) (max_frame_size : ℕ) where
  open sock use {S, incoming, read}

  abbrev left : S → ℕ
  left s = length (incoming s)

  -- A step that ends, and that leaves no more than there was.
  abbrev Ends : {A : Type 0} → M sock max_frame_size A → Type 0
  Ends {A} m = (s : S) → (m s ≢ stalled) × ((a : A) (t : S) → m s ≡ ok a t → left t ≤ left s)

  read_more-left :
      (fuel n : ℕ) (filled bs : List ℕ) (s t : S)
      → read_more sock max_frame_size fuel n filled s ≡ ok bs t
      → left t + n ≤ left s
  unfolding read_more
  read_more-left fuel zero filled bs s t e = ground arith
  read_more-left zero (suc n) filled bs s t e = absurd (ground arith)
  read_more-left (suc fuel) (suc n) filled bs s t e =
      elim (read_cases sock max_frame_size s (suc n)) [
        | inl (x, p) ↦ absurd (ground arith)
        | inr ([], u, p) ↦ absurd (ground arith)
        | inr (c ∷ cs, u, p) ↦ omega (
          arith,
          read_more-left fuel (n - length cs) (filled ++ c ∷ cs) bs u t (ground arith),
          ap length (sock.read_bytes s u (suc n) (c ∷ cs) p),
          length-append (c ∷ cs) (incoming u),
        )
      ]

  read_exact-left :
      (n : ℕ) (bs : List ℕ) (s t : S)
      → read_exact sock max_frame_size n s ≡ ok bs t
      → left t + n ≤ left s
  unfolding read_exact
  read_exact-left n bs s t e = read_more-left n n [] bs s t e

  read_exact-Ends : (n : ℕ) → Ends (read_exact sock max_frame_size n)
  read_exact-Ends n s = (
    read_exact-ne-stalled sock max_frame_size n s,
    λ bs t p. omega (arith, read_exact-left n bs s t p),
  )

  -- Steps in a row.
  bind-Ends :
      {A B : Type 0} (m : M sock max_frame_size A) (f : A → M sock max_frame_size B)
      → Ends m
      → ((a : A) → Ends (f a))
      → Ends (◌>>=◌ sock max_frame_size m f)
  bind-Ends m f p q s = elim (outcome_cases (m s)) [
    | inl (a, t, e) ↦ (
      λ x. (q a t).0 (ground arith),
      λ b u x. omega (arith, (p s).1 a t e, (q a t).1 b u (ground arith)),
    )
    | inr (inl (x, e)) ↦ (ground arith, λ b u y. absurd (ground arith))
    | inr (inr e) ↦ absurd ((p s).0 e)
  ]

  give-Ends : {A : Type 0} (a : A) → Ends (λ s. ok a s)
  give-Ends a s = (ground arith, λ b t e. ground arith)

  fail-Ends : (A : Type 0) (x : Error sock.E) → Ends {A = A} (λ s. err x)
  fail-Ends A x s = (ground arith, λ b t e. absurd (ground arith))

  if-Ends :
      {A : Type 0} (b : Bool) (m k : M sock max_frame_size A)
      → Ends m
      → Ends k
      → Ends (if b then m else k)
  if-Ends true m k p q = p
  if-Ends false m k p q = q

  frame_length-Ends : (flags : ℕ) → Ends (frame_length sock max_frame_size flags)
  unfolding frame_length
  frame_length-Ends flags =
      if-Ends (not (bit_and flags flag_long == 0)) _ _
        (bind-Ends _ _ (read_exact-Ends 8) (λ buf. give-Ends _))
        (bind-Ends _ _ (read_exact-Ends 1) (λ buf. give-Ends _))

  -- What is read behind the flag byte.
  frame_rest-Ends :
      (flags : ℕ)
      → Ends {A = ℕ × List ℕ} (
          ◌>>=◌ sock max_frame_size (frame_length sock max_frame_size flags) (λ len.
            if ltb max_frame_size len
            then fail sock max_frame_size frame_too_large
            else ◌>>=◌ sock max_frame_size
                (read_exact sock max_frame_size len)
                (λ body. give sock max_frame_size (flags, body))))
  frame_rest-Ends flags = bind-Ends _ _ (frame_length-Ends flags) (λ len.
      if-Ends (ltb max_frame_size len) _ _ (fail-Ends _ frame_too_large)
        (bind-Ends _ _ (read_exact-Ends len) (λ body. give-Ends _)))

  recv_frame-Ends : Ends (recv_frame sock max_frame_size)
  unfolding recv_frame
  recv_frame-Ends = bind-Ends _ _ (read_exact-Ends 1) (λ buf. frame_rest-Ends (get_or buf 0 0))

  -- A frame takes its first byte.
  recv_frame-left :
      (frame : ℕ × List ℕ) (s t : S)
      → recv_frame sock max_frame_size s ≡ ok frame t
      → left t < left s
  unfolding recv_frame
  recv_frame-left frame s t e = elim (outcome_cases (read_exact sock max_frame_size 1 s)) [
    | inl (buf, u, p) ↦ omega (
      arith,
      read_exact-left 1 buf s u p,
      (frame_rest-Ends (get_or buf 0 0) u).1 frame t (ground arith),
    )
    | inr (inl (x, p)) ↦ absurd (ground arith)
    | inr (inr p) ↦ absurd (read_exact-ne-stalled sock max_frame_size 1 s p)
  ]

  recv_parts-ne-stalled :
      (fuel : ℕ) (frames : List (List ℕ)) (s : S)
      → left s < fuel
      → recv_parts sock max_frame_size fuel frames s ≢ stalled
  unfolding recv_parts
  recv_parts-ne-stalled zero frames s b e = elim b [ ]
  recv_parts-ne-stalled (suc fuel) frames s b e =
      elim (outcome_cases (recv_frame sock max_frame_size s)) [
        | inl (frame, t, p) ↦ elim (Bool-cases (bit_and frame.0 flag_command == 0)) [
          | inl c ↦ elim (Bool-cases (bit_and frame.0 flag_more == 0)) [
            | inl m ↦ ground arith
            | inr m ↦
                recv_parts-ne-stalled fuel (frames ++ frame.1 ∷ []) t
                  (omega (arith, recv_frame-left frame s t p)) (ground arith)
          ]
          | inr c ↦
              recv_parts-ne-stalled fuel frames t (omega (arith, recv_frame-left frame s t p))
                (ground arith)
        ]
        | inr (inl (x, p)) ↦ ground arith
        | inr (inr p) ↦ (recv_frame-Ends s).0 p
      ]

  -- `recv` ends with a message or with an error on every stream of finitely many bytes, whatever they are. A peer
  -- that sends commands without end is not covered.
  pub recv-ne-stalled : (s : S) → recv sock max_frame_size s ≢ stalled
  unfolding recv
  recv-ne-stalled s = recv_parts-ne-stalled (suc (length (incoming s))) [] s (omega arith)
