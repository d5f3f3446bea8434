-- ===== src/Zmq/Messages.antt =====
-- Sending, the length that wraps, and messages of several frames.
use mathlib.Core.List.{append_assoc}
use ns_pixels.Prelude.{
  ℕ, zero, suc, ◌^◌, ◌≤◌, ◌<◌, ◌≡◌, refl, sym, ap, ◌∙◌, List, [], ◌∷◌, ◌++◌, arith, length,
  length-append,
}
use ns_pixels.Extern.Socket.{Socket, WriteResult}
use ns_pixels.Zmq.{
  Outcome, ok, recv_frame, frame_header, send_frame, write_or_fail, flush_or_fail, recv, recv_parts,
  ◌>>◌,
}
use ns_pixels.Zmq.Reading.{Steady}
use ns_pixels.Zmq.Frames.{wire_flags, wire, recv_frame_run}

-- The frames of a message before its last one: a command, which the receiver skips, or a part.
pub data Item : Type 0 where
  command : List ℕ → Item
  part : List ℕ → Item

abbrev pub body_of : Item → List ℕ
body_of (command b) = b
body_of (part b) = b

-- What the receiver is to return.
abbrev pub parts : List Item → List ℕ → List (List ℕ)
parts [] last = last ∷ []
parts (command b ∷ is) last = parts is last
parts (part b ∷ is) last = b ∷ parts is last

abbrev pub Fits : ℕ → List Item → Type 0
Fits max [] = Unit
Fits max (i ∷ is) = (length (body_of i) < 2 ^ 32) × (length (body_of i) ≤ max) × Fits max is

module _ (sock : Socket) (max_frame_size : ℕ) where
  open sock use {S, incoming, sent}

  -- A write that succeeds, with what the stream has afterwards.
  write_sent :
      (k : S → Outcome sock.E S Unit) (bs : List ℕ) (s t : S)
      → ◌>>◌ sock max_frame_size (write_or_fail sock max_frame_size bs) k s ≡ ok tt t
      → (s' : S) × (k s' ≡ ok tt t) × (sent s' ≡ sent s ++ bs)
  unfolding write_or_fail
  write_sent k bs s t e = go (sock.write_all s bs) refl
    where
      go :
          (r : WriteResult sock.E S)
          → sock.write_all s bs ≡ r
          → (s' : S) × (k s' ≡ ok tt t) × (sent s' ≡ sent s ++ bs)
      go (WriteResult.failed x) p = absurd (ground arith)
      go (WriteResult.done s') p = (s', ground arith, sock.write_all_bytes s s' bs p)

  flush_sent : (s t : S) → flush_or_fail sock max_frame_size s ≡ ok tt t → sent t ≡ sent s
  unfolding flush_or_fail
  flush_sent s t e = go (sock.flush s) refl
    where
      go : (r : WriteResult sock.E S) → sock.flush s ≡ r → sent t ≡ sent s
      go (WriteResult.failed x) p = absurd (ground arith)
      go (WriteResult.done s') p = ground (arith, sock.flush_bytes s s' p)

  -- The bytes of a message on the wire.
  abbrev pub encode : List Item → List ℕ → List ℕ
  encode [] last = wire sock max_frame_size 0 last
  encode (command b ∷ is) last = wire sock max_frame_size 4 b ++ encode is last
  encode (part b ∷ is) last = wire sock max_frame_size 1 b ++ encode is last

  -- A frame that is sent is the frame's bytes, appended to what had been sent.
  pub send_frame_sent :
      (flags : ℕ) (body : List ℕ) (s t : S)
      → send_frame sock max_frame_size flags body s ≡ ok tt t
      → sent t ≡ sent s ++ wire sock max_frame_size flags body
  unfolding send_frame
  send_frame_sent flags body s t e =
      let head = frame_header sock max_frame_size flags body in
      let (s1, p, i) =
        write_sent
          (λ u.
            ◌>>◌ sock max_frame_size (write_or_fail sock max_frame_size body)
              (flush_or_fail sock max_frame_size) u)
          head s t e in
      let (s2, q, j) = write_sent (flush_or_fail sock max_frame_size) body s1 t p in
      ground (arith, i, j, flush_sent s2 t q, append_assoc (sent s) head body)

  module _ (steady : Steady sock) where
    recv_parts_run :
        (fuel : ℕ) (is : List Item) (last rest : List ℕ) (frames : List (List ℕ)) (s : S)
        → length is < fuel
        → Fits max_frame_size is
        → length last < 2 ^ 32
        → length last ≤ max_frame_size
        → incoming s ≡ encode is last ++ rest
        → (s' : S) × (recv_parts sock max_frame_size fuel frames s
            ≡ ok (frames ++ parts is last) s')
          × (incoming s' ≡ rest)
    unfolding recv_parts
    recv_parts_run zero is last rest frames s f fits b m e = elim f [ ]
    recv_parts_run (suc fuel) [] last rest frames s f fits b m e =
        let (t, p, i) = recv_frame_run sock max_frame_size steady 0 last rest s b m e in
        (t, ground (arith, p), i)
    recv_parts_run (suc fuel) (command x ∷ is) last rest frames s f fits b m e =
        let (t, p, i) =
          recv_frame_run sock max_frame_size steady 4 x (encode is last ++ rest) s fits.0 fits.1
            (e ∙ append_assoc (wire sock max_frame_size 4 x) (encode is last) rest) in
        let (s', q, j) = recv_parts_run fuel is last rest frames t (omega arith) fits.2 b m i in
        (s', ground (arith, p, q), j)
    recv_parts_run (suc fuel) (part x ∷ is) last rest frames s f fits b m e =
        let (t, p, i) =
          recv_frame_run sock max_frame_size steady 1 x (encode is last ++ rest) s fits.0 fits.1
            (e ∙ append_assoc (wire sock max_frame_size 1 x) (encode is last) rest) in
        let (s', q, j) =
          recv_parts_run fuel is last rest (frames ++ x ∷ []) t (omega arith) fits.2 b m i in
        (s', ground (arith, p, q, append_assoc frames (x ∷ []) (parts is last)), j)

    length-wire : (flags : ℕ) (body : List ℕ) → 1 ≤ length (wire sock max_frame_size flags body)
    length-wire flags body = ground arith

    length-encode :
        (is : List Item) (last rest : List ℕ) → length is < length (encode is last ++ rest)
    length-encode [] last rest =
        omega (arith, length-append (encode [] last) rest, length-wire 0 last)
    length-encode (command x ∷ is) last rest = omega (
      arith,
      ap length (append_assoc (wire sock max_frame_size 4 x) (encode is last) rest),
      length-append (wire sock max_frame_size 4 x) (encode is last ++ rest),
      length-wire 4 x,
      length-encode is last rest,
    )
    length-encode (part x ∷ is) last rest = omega (
      arith,
      ap length (append_assoc (wire sock max_frame_size 1 x) (encode is last) rest),
      length-append (wire sock max_frame_size 1 x) (encode is last ++ rest),
      length-wire 1 x,
      length-encode is last rest,
    )

    -- Take a stream whose reads do not fail, and a message whose parts, and the commands between them, each have
    -- a body of at most `max_frame_size` bytes and less than 2 ^ 32. The message, however many frames it has, is
    -- received as the list of its parts, in order, and the commands are skipped. What follows the message is
    -- left for the next call.
    pub recv_run :
        (is : List Item) (last rest : List ℕ) (s : S)
        → Fits max_frame_size is
        → length last < 2 ^ 32
        → length last ≤ max_frame_size
        → incoming s ≡ encode is last ++ rest
        → (s' : S) × (recv sock max_frame_size s ≡ ok (parts is last) s') × (incoming s' ≡ rest)
    unfolding recv
    recv_run is last rest s fits b m e =
        recv_parts_run (suc (length (incoming s))) is last rest [] s
          (omega (arith, ap length e, length-encode is last rest)) fits b m e

append_cancel : (xs ys zs : List ℕ) → xs ++ ys ≡ xs ++ zs → ys ≡ zs
append_cancel [] ys zs e = e
append_cancel (x ∷ xs) ys zs e = append_cancel xs ys zs (cc)

module _ (near far : Socket) (max_frame_size : ℕ) (steady : Steady far) where
  -- A frame that one end sends, and whose bytes are the next the other end reads, in whatever pieces,
  -- is received there with its body, when the body fits both limits.
  pub send_frame-recv_frame :
      (flags : ℕ) (body delivered rest : List ℕ) (s t : near.S) (r : far.S)
      → send_frame near max_frame_size flags body s ≡ ok tt t
      → near.sent t ≡ near.sent s ++ delivered
      → far.incoming r ≡ delivered ++ rest
      → length body < 2 ^ 32
      → length body ≤ max_frame_size
      → (r' : far.S) × (recv_frame far max_frame_size r ≡ ok (wire_flags flags body, body) r')
        × (far.incoming r' ≡ rest)
  send_frame-recv_frame flags body delivered rest s t r e d i b m =
      let w =
        append_cancel (near.sent s) (wire near max_frame_size flags body) delivered
          (sym (send_frame_sent near max_frame_size flags body s t e) ∙ d) in
      recv_frame_run far max_frame_size steady flags body rest r b m (ground (arith, w, i))
