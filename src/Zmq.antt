-- ===== src/Zmq.antt =====
-- zmq.rs: the ZMTP 3.0 subscriber over any byte stream.
pub mod Bytes
pub mod Reading
pub mod Frames
pub mod Messages
pub mod Ending
pub mod Oversized
pub mod Handshake
use mathlib.Core.Bool.{Bool, true, false, not, ◌&&◌, ◌||◌}
use ns_pixels.Prelude.{
  ℕ, zero, suc, ◌+◌, ◌-◌, ◌/◌, ◌%◌, ◌^◌, Option, none, some, List, [], ◌∷◌, ◌++◌, if◌then◌else◌,
  ltb, leb, ◌==◌, length, take, drop, get_or, replicate, bit_and, bit_or,
}
use ns_pixels.Extern.Socket.{Socket, ReadResult, WriteResult, got, done}
use Bytes.{to_be_bytes, from_be_bytes}

abbrev pub flag_more : ℕ
flag_more = 1

abbrev pub flag_long : ℕ
flag_long = 2

abbrev pub flag_command : ℕ
flag_command = 4

-- The signature, version 3.0, the mechanism NULL, and zeros up to 64 bytes.
unfoldable pub greeting : List ℕ
greeting = 0xff ∷ replicate 8 0 ++ 0x7f ∷ 3 ∷ 0 ∷ b'N' ∷ b'U' ∷ b'L' ∷ b'L' ∷ replicate 48 0

pub data Error (E : Type 0) : Type 0 where
  io : E → Error E
  unexpected_eof invalid_greeting unsupported_mechanism unexpected_command frame_too_large : Error E

-- `stalled` is fuel that has run out: it is no result of the program.
pub data Outcome (E S A : Type 0) : Type 0 where
  ok : A → S → Outcome E S A
  err : Error E → Outcome E S A
  stalled : Outcome E S A

-- The body of a READY command.
unfoldable pub push_property : List ℕ → List ℕ → List ℕ → List ℕ
push_property out name value =
    out ++ (length name % 256 ∷ name) ++ to_be_bytes 4 (length value % 2 ^ 32) ++ value

unfoldable pub build_ready_body : List ℕ
unfolding push_property
build_ready_body =
    push_property (5 ∷ b'R' ∷ b'E' ∷ b'A' ∷ b'D' ∷ b'Y' ∷ [])
      (b'S' ∷ b'o' ∷ b'c' ∷ b'k' ∷ b'e' ∷ b't' ∷ b'-' ∷ b'T' ∷ b'y' ∷ b'p' ∷ b'e' ∷ [])
      (b'S' ∷ b'U' ∷ b'B' ∷ [])

module _ (sock : Socket) (max_frame_size : ℕ) where
  open sock use {E, S, read, write_all, flush}

  abbrev pub M : Type 0 → Type 0
  M A = S → Outcome E S A

  infixl 5 ◌>>=◌ ◌>>◌
  abbrev pub ◌>>=◌ : {A B : Type 0} → M A → (A → M B) → M B
  ◌>>=◌ m f s = elim (m s) [ ok a s' ↦ f a s' | err e ↦ err e | stalled ↦ stalled ]

  abbrev pub ◌>>◌ : {B : Type 0} → M (Unit {0}) → M B → M B
  ◌>>◌ m k s = elim (m s) [ ok a s' ↦ k s' | err e ↦ err e | stalled ↦ stalled ]

  abbrev pub give : {A : Type 0} → A → M A
  give a s = ok a s

  abbrev pub fail : {A : Type 0} → Error E → M A
  fail e s = err e

  write_or_fail : List ℕ → M (Unit {0})
  write_or_fail bs s = elim (write_all s bs) [
    | WriteResult.failed e ↦ err (io e)
    | WriteResult.done s' ↦ ok tt s'
  ]

  flush_or_fail : M (Unit {0})
  flush_or_fail s = elim (flush s) [
    | WriteResult.failed e ↦ err (io e)
    | WriteResult.done s' ↦ ok tt s'
  ]

  -- The loop of `read_exact`, with the bytes that are still to come and those that are there.
  read_more : ℕ → ℕ → List ℕ → M (List ℕ)
  read_more fuel zero filled s = ok filled s
  read_more zero (suc n) filled s = stalled
  read_more (suc fuel) (suc n) filled s = elim (read s (suc n)) [
    | ReadResult.failed e ↦ err (io e)
    | ReadResult.got bs s' ↦ elim bs [
      | [] ↦ err unexpected_eof
      | b ∷ more ↦ read_more fuel (n - length more) (filled ++ b ∷ more) s'
    ]
  ]

  -- Each read brings a byte at least, so the length is fuel enough.
  pub read_exact : ℕ → M (List ℕ)
  unfolding read_more
  read_exact n = read_more n n []

  -- `u64::from_be_bytes(buf) as usize`, on a 32-bit target, or one byte.
  frame_length : ℕ → M ℕ
  frame_length flags =
      if not (bit_and flags flag_long == 0)
      then (read_exact 8 >>= λ buf. give (from_be_bytes buf % 2 ^ 32))
      else (read_exact 1 >>= λ buf. give (get_or buf 0 0))

  unfoldable pub recv_frame : M (ℕ × List ℕ)
  unfolding frame_length
  recv_frame = do
    flag_byte ← read_exact 1
    let flags = get_or flag_byte 0 0
    len ← frame_length flags
    if ltb max_frame_size len
        then fail frame_too_large
        else (read_exact len >>= λ body. give (flags, body))

  -- The header that `send_frame` writes.
  abbrev pub frame_header : ℕ → List ℕ → List ℕ
  frame_header flags body =
      if leb (length body) 255
      then bit_and flags 253 ∷ (length body % 256) ∷ []
      else bit_or flags flag_long ∷ to_be_bytes 8 (length body)

  unfoldable pub send_frame : ℕ → List ℕ → M (Unit {0})
  unfolding write_or_fail flush_or_fail
  send_frame flags body = do
    write_or_fail (frame_header flags body)
    write_or_fail body
    flush_or_fail

  send_subscription : ℕ → List ℕ → M (Unit {0})
  send_subscription op topic = send_frame 0 (op ∷ topic)

  unfoldable pub subscribe : List ℕ → M (Unit {0})
  unfolding send_subscription
  subscribe topic = send_subscription 1 topic

  unfoldable pub unsubscribe : List ℕ → M (Unit {0})
  unfolding send_subscription
  unsubscribe topic = send_subscription 0 topic

  -- The checks of the peer's greeting.
  unfoldable pub check_greeting : List ℕ → Option (Error E)
  check_greeting peer =
      if not (get_or peer 0 0 == 0xff) || not (get_or peer 9 0 == 0x7f)
      then some invalid_greeting
      else if ltb (get_or peer 10 0) 3
      then some invalid_greeting
      else if get_or peer 12 0 == b'N'
          && get_or peer 13 0 == b'U'
          && get_or peer 14 0 == b'L'
          && get_or peer 15 0 == b'L'
      then none
      else some unsupported_mechanism

  unfoldable pub handshake : M (Unit {0})
  unfolding write_or_fail flush_or_fail check_greeting
  handshake = do
    write_or_fail greeting
    flush_or_fail
    peer ← read_exact 64
    elim (check_greeting peer) [
      | some e ↦ fail e
      | none ↦ (do
        send_frame flag_command build_ready_body
        frame ← recv_frame
        if bit_and frame.0 flag_command == 0 then fail unexpected_command else give tt)
    ]

  -- The loop of `recv`.
  recv_parts : ℕ → List (List ℕ) → M (List (List ℕ))
  recv_parts zero frames s = stalled
  recv_parts (suc fuel) frames s = elim (recv_frame s) [
    | err e ↦ err e
    | stalled ↦ stalled
    | ok frame s' ↦ elim (bit_and frame.0 flag_command == 0) [
      | false ↦ recv_parts fuel frames s'
      | true ↦ elim (bit_and frame.0 flag_more == 0) [
        | true ↦ ok (frames ++ frame.1 ∷ []) s'
        | false ↦ recv_parts fuel (frames ++ frame.1 ∷ []) s'
      ]
    ]
  ]

  -- A frame takes two bytes at least, so what the peer will send bounds the rounds.
  unfoldable pub recv : M (List (List ℕ))
  unfolding recv_parts
  recv s = recv_parts (suc (length (sock.incoming s))) [] s
