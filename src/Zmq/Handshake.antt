-- ===== src/Zmq/Handshake.antt =====
-- The handshake with a peer over an open stream.
use mathlib.Core.Bool.{false}
use ns_pixels.Prelude.{
  ℕ, zero, suc, ◌-◌, ◌^◌, ◌≤◌, ◌<◌, ◌≡◌, ap, ◌∙◌, List, [], ◌∷◌, ◌++◌, arith, none, inl, inr,
  get_or, if◌then◌else◌, ◌==◌, length, bit_and,
}
use ns_pixels.Extern.Socket.{Socket, got, done}
use ns_pixels.Zmq.{
  ok, flag_command, flag_long, frame_header, greeting, build_ready_body, read_exact, read_more,
  recv_frame, frame_length, send_frame, check_greeting, handshake, write_or_fail, flush_or_fail,
}
use ns_pixels.Zmq.Reading.{Steady, read_exact_run, read_cases}
use ns_pixels.Zmq.Ending.{outcome_cases}
use ns_pixels.Zmq.Frames.{wire_flags, wire, recv_frame_run}
use ns_pixels.Zmq.Messages.{send_frame_sent}

-- A stream whose reads, writes and flushes do not fail, and whose two directions are apart.
pub record Open (sock : Socket) : Type 0 where
  pub reads : Steady sock
  pub write_done :
      (s : sock.S) (bs : List ℕ)
      → (s' : sock.S) × (sock.write_all s bs ≡ done s') × (sock.incoming s' ≡ sock.incoming s)
  pub flush_done :
      (s : sock.S) → (s' : sock.S) × (sock.flush s ≡ done s') × (sock.incoming s' ≡ sock.incoming s)
  pub read_keeps :
      (s s' : sock.S) (n : ℕ) (bs : List ℕ) → sock.read s n ≡ got bs s' → sock.sent s' ≡ sock.sent s

module _ (sock : Socket) (max_frame_size : ℕ) (open_sock : Open sock) where
  open sock use {S, incoming, sent}

  -- A frame is sent, and the other direction is as it was.
  pub send_frame_run :
      (flags : ℕ) (body : List ℕ) (s : S)
      → (t : S) × (send_frame sock max_frame_size flags body s ≡ ok tt t)
        × (incoming t ≡ incoming s)
        × (sent t ≡ sent s ++ wire sock max_frame_size flags body)
  unfolding send_frame write_or_fail flush_or_fail
  send_frame_run flags body s =
      let (s1, w1, i1) = open_sock.write_done s (frame_header sock max_frame_size flags body) in
      let (s2, w2, i2) = open_sock.write_done s1 body in
      let (s3, w3, i3) = open_sock.flush_done s2 in
      let p : send_frame sock max_frame_size flags body s ≡ ok tt s3 = ground (arith, w1, w2, w3) in
      (s3, p, i3 ∙ i2 ∙ i1, send_frame_sent sock max_frame_size flags body s s3 p)

  read_more_keeps :
      (fuel n : ℕ) (filled bs : List ℕ) (s t : S)
      → read_more sock max_frame_size fuel n filled s ≡ ok bs t
      → sent t ≡ sent s
  unfolding read_more
  read_more_keeps fuel zero filled bs s t e = ground arith
  read_more_keeps zero (suc n) filled bs s t e = absurd (ground arith)
  read_more_keeps (suc fuel) (suc n) filled bs s t e =
      elim (read_cases sock max_frame_size s (suc n)) [
        | inl (x, p) ↦ absurd (ground arith)
        | inr ([], u, p) ↦ absurd (ground arith)
        | inr (c ∷ cs, u, p) ↦
            read_more_keeps fuel (n - length cs) (filled ++ c ∷ cs) bs u t (ground arith)
            ∙ open_sock.read_keeps s u (suc n) (c ∷ cs) p
      ]

  -- The peer's frame is received without a byte being sent.
  read_exact_keeps :
      (n : ℕ) (bs : List ℕ) (s t : S)
      → read_exact sock max_frame_size n s ≡ ok bs t
      → sent t ≡ sent s
  unfolding read_exact
  read_exact_keeps n bs s t e = read_more_keeps n n [] bs s t e

  frame_length_keeps :
      (flags len : ℕ) (s t : S)
      → frame_length sock max_frame_size flags s ≡ ok len t
      → sent t ≡ sent s
  unfolding frame_length
  frame_length_keeps flags len s t e =
      elim (outcome_cases
        (read_exact sock max_frame_size (if bit_and flags flag_long == 0 then 1 else 8) s)) [
          | inl (buf, u, p) ↦
              ground
                (arith, read_exact_keeps (if bit_and flags flag_long == 0 then 1 else 8) buf s u p)
          | inr (inl (x, p)) ↦ absurd (ground arith)
          | inr (inr p) ↦ absurd (ground arith)
        ]

  recv_frame_keeps :
      (frame : ℕ × List ℕ) (s t : S)
      → recv_frame sock max_frame_size s ≡ ok frame t
      → sent t ≡ sent s
  unfolding recv_frame
  recv_frame_keeps frame s t e = elim (outcome_cases (read_exact sock max_frame_size 1 s)) [
    | inl (buf, u, p) ↦ elim (outcome_cases (frame_length sock max_frame_size (get_or buf 0 0) u)) [
      | inl (len, v, q) ↦ elim (outcome_cases (read_exact sock max_frame_size len v)) [
        | inl (body, w, r) ↦ ground (
          arith,
          read_exact_keeps 1 buf s u p,
          frame_length_keeps (get_or buf 0 0) len u v q,
          read_exact_keeps len body v w r,
        )
        | inr (inl (x, r)) ↦ absurd (ground arith)
        | inr (inr r) ↦ absurd (ground arith)
      ]
      | inr (inl (x, q)) ↦ absurd (ground arith)
      | inr (inr q) ↦ absurd (ground arith)
    ]
    | inr (inl (x, p)) ↦ absurd (ground arith)
    | inr (inr p) ↦ absurd (ground arith)
  ]

  -- With a peer whose greeting passes the checks and whose first frame is a command with a body of at most
  -- `max_frame_size` bytes and less than 2 ^ 32, over a socket whose reads and writes do not fail, the handshake
  -- succeeds. It has then sent the greeting and the READY command, once and in that order, and what follows the
  -- peer's command is left for the first message.
  pub handshake_run :
      (peer body rest : List ℕ) (flags : ℕ) (s : S)
      → length peer ≡ 64
      → check_greeting sock max_frame_size peer ≡ none
      → (bit_and (wire_flags flags body) flag_command == 0) ≡ false
      → length body < 2 ^ 32
      → length body ≤ max_frame_size
      → incoming s ≡ peer ++ (wire sock max_frame_size flags body ++ rest)
      → (s' : S) × (handshake sock max_frame_size s ≡ ok tt s')
        × (sent s' ≡ sent s ++ greeting ++ wire sock max_frame_size flag_command build_ready_body)
        × (incoming s' ≡ rest)
  unfolding handshake write_or_fail flush_or_fail
  handshake_run peer body rest flags s l c f b m e =
      let (s1, w1, i1) = open_sock.write_done s greeting in
      let (s2, w2, i2) = open_sock.flush_done s1 in
      let (s3, p3, i3) =
        read_exact_run sock max_frame_size open_sock.reads 64 peer
          (wire sock max_frame_size flags body ++ rest) s2 l (i2 ∙ i1 ∙ e) in
      let (s4, p4, i4, w4) = send_frame_run flag_command build_ready_body s3 in
      let (s5, p5, i5) =
        recv_frame_run sock max_frame_size open_sock.reads flags body rest s4 b m (i4 ∙ i3) in
      (
        s5,
        ground (arith, w1, w2, p3, p4, p5),
        recv_frame_keeps (wire_flags flags body, body) s4 s5 p5
            ∙ w4
            ∙ ap (λ x. x ++ wire sock max_frame_size flag_command build_ready_body)
                (read_exact_keeps 64 peer s2 s3 p3
                  ∙ sock.flush_bytes s1 s2 w2
                  ∙ sock.write_all_bytes s s1 greeting w1),
        i5,
      )
