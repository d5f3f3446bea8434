-- ===== src/Zmq/Frames.antt =====
-- The frame codec: what `send_frame` writes, `recv_frame` reads.
use mathlib.Core.List.{append_assoc}
use ns_pixels.Prelude.{
  ℕ, ◌%◌, ◌^◌, ◌≤◌, ◌<◌, ◌≡◌, refl, inl, inr, List, [], ◌∷◌, ◌++◌, arith, if◌then◌else◌, leb,
  length, Bool-cases, bit_and, bit_or,
}
use ns_pixels.Prelude.Bits.{bit_and_253-bit_and_2, bit_or_2-bit_and_2}
use ns_pixels.Extern.Socket.{Socket}
use ns_pixels.Zmq.{ok, flag_long, frame_length, recv_frame, frame_header}
use ns_pixels.Zmq.Bytes.{to_be_bytes, from_be_bytes-to_be_bytes, length-to_be_bytes}
use ns_pixels.Zmq.Reading.{Steady, read_exact_run}

-- The flags as they are sent.
abbrev pub wire_flags : ℕ → List ℕ → ℕ
wire_flags flags body = if leb (length body) 255 then bit_and flags 253 else bit_or flags flag_long

module _ (sock : Socket) (max_frame_size : ℕ) where
  open sock use {S, incoming, sent}

  abbrev pub wire : ℕ → List ℕ → List ℕ
  wire flags body = frame_header sock max_frame_size flags body ++ body

  module _ (steady : Steady sock) where
    frame_length_run :
        (flags : ℕ) (body tail : List ℕ) (s : S)
        → length body < 2 ^ 32
        → frame_header sock max_frame_size flags body ++ tail ≡ wire_flags flags body ∷ incoming s
        → (s' : S) × (frame_length sock max_frame_size (wire_flags flags body) s
            ≡ ok (length body) s')
          × (incoming s' ≡ tail)
    unfolding frame_length
    frame_length_run flags body tail s b e = elim (Bool-cases (leb (length body) 255)) [
      | inl short ↦
          let (s', p, q) =
            read_exact_run sock max_frame_size steady 1 ((length body % 256) ∷ []) tail s refl
              (ground arith) in
          (s', ground (arith, p, bit_and_253-bit_and_2 flags), q)
      | inr long ↦
          let (s', p, q) =
            read_exact_run sock max_frame_size steady 8 (to_be_bytes 8 (length body)) tail s
              (length-to_be_bytes 8 (length body)) (ground arith) in
          (
            s',
            ground (
              arith,
              p,
              bit_or_2-bit_and_2 flags,
              from_be_bytes-to_be_bytes 8 (length body) (omega arith),
            ),
            q,
          )
    ]

    header_tail : ℕ → List ℕ → List ℕ
    header_tail flags body =
        if leb (length body) 255 then (length body % 256) ∷ [] else to_be_bytes 8 (length body)

    header-split :
        (flags : ℕ) (body : List ℕ)
        → frame_header sock max_frame_size flags body
          ≡ wire_flags flags body ∷ header_tail flags body
    unfolding header_tail
    header-split flags body = ground arith

    -- A frame of at most `max_frame_size` bytes at the front of the stream is received whole, however
    -- the stream splits it, and what follows is left for the next call.
    pub recv_frame_run :
        (flags : ℕ) (body rest : List ℕ) (s : S)
        → length body < 2 ^ 32
        → length body ≤ max_frame_size
        → incoming s ≡ wire flags body ++ rest
        → (s' : S) × (recv_frame sock max_frame_size s ≡ ok (wire_flags flags body, body) s')
          × (incoming s' ≡ rest)
    unfolding recv_frame
    recv_frame_run flags body rest s b m e =
        let wf : ℕ = wire_flags flags body in
        let head = header-split flags body in
        let (s1, p1, i1) =
          read_exact_run sock max_frame_size steady 1 (wf ∷ [])
            (header_tail flags body ++ body ++ rest) s refl
            (ground (
              arith,
              append_assoc (frame_header sock max_frame_size flags body) body rest,
              append_assoc (header_tail flags body) body rest,
            )) in
        let (s2, p2, i2) =
          frame_length_run flags body (body ++ rest) s1 b
            (ground (arith, append_assoc (header_tail flags body) body rest)) in
        let (s3, p3, i3) =
          read_exact_run sock max_frame_size steady (length body) body rest s2 refl i2 in
        (s3, ground (arith, p1, p2, p3), i3)
