-- ===== src/Witnesses/Stream.antt =====
-- The theorem on a session of the feed task: a peer that sends one message of two frames.
use mathlib.Core.Bool.{true}
use ns_pixels.Prelude.{ℕ, ◌≡◌, refl, List, [], ◌∷◌, ◌++◌, arith}
use ns_pixels.Extern.AssocMap.{list_vec, microseconds}
use ns_pixels.Extern.FixedPoint.{fixed_point}
use ns_pixels.Extern.InsertionSort.{insertion_sort}
use ns_pixels.Extern.Stored.{stored}
use ns_pixels.Extern.Trickle.{Pipe, trickle}
use ns_pixels.MapMode.{netherlands}
use ns_pixels.Zmq.{ok, flag_command, greeting, build_ready_body, check_greeting}
use ns_pixels.Zmq.Frames.{wire}
use ns_pixels.Zmq.Messages.{Item, part}
use ns_pixels.Feed.Stream.{
  Moment, zmq_frame_cap, topic, feed_start, feed_rounds, replay, stream, feed_session,
}
use ns_pixels.Witnesses.Samples.{trains, two_trains}
use ns_pixels.Witnesses.Feed.{tokens, parse_whole}
use ns_pixels.Witnesses.Zmq.{pipe, open_trickle}

abbrev moment : Moment (Unit {0})
moment = record { state = tt; now = 400_000_001; has_buffer = true; mode = netherlands; queue = [] }

abbrev messages : List (Moment (Unit {0}) × List Item × List ℕ)
messages =
    (
      moment,
      part topic ∷ [],
      0x1f ∷ 0x8b ∷ 8 ∷ 0 ∷ 0 ∷ 0 ∷ 0 ∷ 0 ∷ 0 ∷ 255 ∷ b'<' ∷ b'/' ∷ b'>' ∷ [],
    )
    ∷ []

abbrev peer : Pipe
peer = pipe (
    greeting
    ++ (wire trickle zmq_frame_cap 4 []
        ++ (stream trickle trains list_vec microseconds fixed_point insertion_sort stored tokens
              parse_whole messages
            ++ [])))

feed_session_example :
    (s1 : Pipe) × (s2 : Pipe) × (feed_start trickle peer ≡ ok tt s1)
    × (s1.written
        ≡ ([] ++ greeting ++ wire trickle zmq_frame_cap flag_command build_ready_body)
          ++ wire trickle zmq_frame_cap 0 (1 ∷ topic))
    × (feed_rounds trickle trains list_vec microseconds fixed_point insertion_sort stored tokens
          parse_whole
          (moment ∷ [])
          two_trains
          s1
        ≡ ok
            (replay trickle trains list_vec microseconds fixed_point insertion_sort stored tokens
              parse_whole messages two_trains)
            s2)
    × (s2.to_come ≡ [])
unfolding greeting check_greeting
feed_session_example =
    feed_session trickle trains list_vec microseconds fixed_point insertion_sort stored tokens
      parse_whole open_trickle greeting [] [] 4 messages two_trains peer refl refl refl
      (omega arith) ((omega arith, omega arith, tt), omega arith, tt) refl
