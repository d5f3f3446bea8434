-- ===== src/Witnesses/Zmq.antt =====
-- The theorems on the subscriber, over a stream that gives one byte to a read.
use ns_pixels.Prelude.{ℕ, ◌+◌, ◌^◌, ◌≡◌, ◌≢◌, refl, List, [], ◌∷◌, ◌++◌, arith}
use ns_pixels.Extern.Trickle.{pipe_read_keeps, Pipe, trickle, first_byte, behind}
use ns_pixels.Zmq.{
  ok, stalled, greeting, check_greeting, handshake, recv_frame, recv, send_frame, build_ready_body,
}
use ns_pixels.Zmq.Bytes.{to_be_bytes}
use ns_pixels.Zmq.Reading.{Steady}
use ns_pixels.Zmq.Frames.{wire}
use ns_pixels.Zmq.Messages.{command, part, send_frame-recv_frame, recv_run}
use ns_pixels.Zmq.Handshake.{Open, handshake_run}
use ns_pixels.Zmq.Ending.{recv-ne-stalled}
use ns_pixels.Zmq.Oversized.{oversized_accepted}

abbrev steady : Steady trickle
steady = record {
  no_failure = λ s n.
      (first_byte s.to_come n, record { to_come = behind s.to_come n; written = s.written }, refl);
}

abbrev pub open_trickle : Open trickle
open_trickle = record {
  reads = steady;
  write_done = λ s bs. (record { to_come = s.to_come; written = s.written ++ bs }, refl, refl);
  flush_done = λ s. (s, refl, refl);
  read_keeps = pipe_read_keeps;
}

abbrev pub pipe : List ℕ → Pipe
pipe bs = record { to_come = bs; written = [] }

-- A topic part, a command between, and the body.
abbrev two_parts : List ℕ
two_parts = 1 ∷ 1 ∷ 9 ∷ 4 ∷ 0 ∷ 0 ∷ 2 ∷ 7 ∷ 8 ∷ []

recv_run_example :
    (s' : Pipe) × (recv trickle 4096 (pipe two_parts) ≡ ok ((9 ∷ []) ∷ (7 ∷ 8 ∷ []) ∷ []) s')
    × (s'.to_come ≡ [])
recv_run_example =
    recv_run trickle 4096 steady (part (9 ∷ []) ∷ command [] ∷ []) (7 ∷ 8 ∷ []) [] (pipe two_parts)
      (omega arith, omega arith, (omega arith, omega arith, tt)) (omega arith) (omega arith) refl

recv-ne-stalled_example : recv trickle 4096 (pipe two_parts) ≢ stalled
recv-ne-stalled_example = recv-ne-stalled trickle 4096 (pipe two_parts)

-- A frame that says it has 2 ^ 32 + 2 bytes.
abbrev oversized : List ℕ
oversized = 2 ∷ 0 ∷ 0 ∷ 0 ∷ 1 ∷ 0 ∷ 0 ∷ 0 ∷ 2 ∷ 7 ∷ 8 ∷ 0 ∷ []

oversized_accepted_example :
    (s' : Pipe) × (recv_frame trickle 4096 (pipe oversized) ≡ ok (2, 7 ∷ 8 ∷ []) s')
    × (s'.to_come ≡ 0 ∷ [])
unfolding to_be_bytes
oversized_accepted_example =
    oversized_accepted trickle 4096 steady 0 (2 ^ 32 + 2) (7 ∷ 8 ∷ []) (0 ∷ []) (pipe oversized)
      (omega arith) (omega arith) refl refl

-- The subscription to the topic `ab`, sent and received.
abbrev subscription : List ℕ
subscription = 0 ∷ 3 ∷ 1 ∷ 97 ∷ 98 ∷ []

send_frame-recv_frame_example :
    (r' : Pipe) × (recv_frame trickle 4096 (pipe subscription) ≡ ok (0, 1 ∷ 97 ∷ 98 ∷ []) r')
    × (r'.to_come ≡ [])
unfolding send_frame
send_frame-recv_frame_example =
    send_frame-recv_frame trickle trickle 4096 steady 0 (1 ∷ 97 ∷ 98 ∷ []) subscription [] (pipe [])
      (record { to_come = []; written = subscription }) (pipe subscription) refl refl refl
      (omega arith) (omega arith)

-- The peer's greeting and its READY command.
abbrev peer_bytes : List ℕ
peer_bytes = greeting ++ 4 ∷ 0 ∷ []

handshake_run_example :
    (s' : Pipe) × (handshake trickle 4096 (pipe peer_bytes) ≡ ok tt s')
    × (s'.written ≡ [] ++ greeting ++ wire trickle 4096 4 build_ready_body)
    × (s'.to_come ≡ [])
unfolding greeting check_greeting
handshake_run_example =
    handshake_run trickle 4096 open_trickle greeting [] [] 4 (pipe peer_bytes) refl refl refl
      (omega arith) (omega arith) refl
