-- ===== src/Zmq/Oversized.antt =====
-- The length of a long frame, which 32 bits cut before it is compared with `max_frame_size`.
use ns_pixels.Prelude.{ℕ, ◌%◌, ◌^◌, ◌≤◌, ◌<◌, ◌≡◌, refl, List, [], ◌∷◌, ◌++◌, arith, length, bit_or}
use ns_pixels.Prelude.Bits.{bit_or_2-bit_and_2}
use ns_pixels.Extern.Socket.{Socket}
use ns_pixels.Zmq.{ok, err, flag_long, frame_length, recv_frame, frame_too_large}
use ns_pixels.Zmq.Bytes.{to_be_bytes, from_be_bytes-to_be_bytes, length-to_be_bytes}
use ns_pixels.Zmq.Reading.{Steady, read_exact_run}

module _ (sock : Socket) (max_frame_size : ℕ) (steady : Steady sock) where
  open sock use {S, incoming}

  long_length_run :
      (flags declared : ℕ) (tail : List ℕ) (s : S)
      → declared < 2 ^ 64
      → incoming s ≡ to_be_bytes 8 declared ++ tail
      → (s' : S) × (frame_length sock max_frame_size (bit_or flags flag_long) s
          ≡ ok (declared % 2 ^ 32) s')
        × (incoming s' ≡ tail)
  unfolding frame_length
  long_length_run flags declared tail s b e =
      let (s', p, q) =
        read_exact_run sock max_frame_size steady 8 (to_be_bytes 8 declared) tail s
          (length-to_be_bytes 8 declared) e in
      (
        s',
        ground (
          arith,
          p,
          bit_or_2-bit_and_2 flags,
          from_be_bytes-to_be_bytes 8 declared (omega arith),
        ),
        q,
      )

  -- A frame whose declared length is at most `max_frame_size` modulo 2 ^ 32 is accepted, however
  -- long it says it is: its first `declared % 2 ^ 32` bytes are returned as the whole body, and the
  -- rest is left to be read as the next frame.
  pub oversized_accepted :
      (flags declared : ℕ) (body rest : List ℕ) (s : S)
      → declared < 2 ^ 64
      → declared % 2 ^ 32 ≤ max_frame_size
      → length body ≡ declared % 2 ^ 32
      → incoming s ≡ bit_or flags flag_long ∷ to_be_bytes 8 declared ++ (body ++ rest)
      → (s' : S) × (recv_frame sock max_frame_size s ≡ ok (bit_or flags flag_long, body) s')
        × (incoming s' ≡ rest)
  unfolding recv_frame
  oversized_accepted flags declared body rest s b m l e =
      let f : ℕ = bit_or flags flag_long in
      let (s1, p1, i1) =
        read_exact_run sock max_frame_size steady 1 (f ∷ [])
          (to_be_bytes 8 declared ++ (body ++ rest)) s refl e in
      let (s2, p2, i2) = long_length_run flags declared (body ++ rest) s1 b i1 in
      let (s3, p3, i3) =
        read_exact_run sock max_frame_size steady (declared % 2 ^ 32) body rest s2 l i2 in
      (s3, ground (arith, p1, p2, p3), i3)

  -- A long frame is refused exactly on the length that 32 bits leave of the one it declares.
  pub long_frame_refused :
      (flags declared : ℕ) (tail : List ℕ) (s : S)
      → declared < 2 ^ 64
      → max_frame_size < declared % 2 ^ 32
      → incoming s ≡ bit_or flags flag_long ∷ to_be_bytes 8 declared ++ tail
      → recv_frame sock max_frame_size s ≡ err frame_too_large
  unfolding recv_frame
  long_frame_refused flags declared tail s b m e =
      let f : ℕ = bit_or flags flag_long in
      let (s1, p1, i1) =
        read_exact_run sock max_frame_size steady 1 (f ∷ []) (to_be_bytes 8 declared ++ tail) s refl
          e in
      let (s2, p2, i2) = long_length_run flags declared tail s1 b i1 in ground (arith, p1, p2)
