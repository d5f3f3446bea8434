-- ===== src/Feed/Stream.antt =====
-- feed.rs, `run` behind the connection: the subscription, and the loop over the messages of the stream. An error of
-- the stream ends the firmware, since its result is unwrapped.
use ns_pixels.Prelude.{
  ℕ, ◌*◌, ◌≤◌, ◌≡◌, refl, ap, ◌∙◌, Option, none, some, List, [], ◌∷◌, ◌++◌, arith, length,
}
use mathlib.Core.Bool.{Bool, false}
use mathlib.Core.List.{append_assoc}
use ns_pixels.Prelude.{◌==◌, bit_and}
use ns_pixels.Prelude.Text.{codes}
use ns_pixels.Extern.Clock.{Clock}
use ns_pixels.Extern.Floats.{Floats}
use ns_pixels.Extern.Heapless.{BoundedVec}
use ns_pixels.Extern.Sorting.{UnstableSort}
use ns_pixels.Extern.Inflate.{Inflater}
use ns_pixels.Extern.Socket.{Socket}
use ns_pixels.MapMode.{MapMode}
use ns_pixels.Registry.{TrainMap}
use ns_pixels.XmlParser.{Token}
use ns_pixels.Zmq.{
  Outcome, ok, err, stalled, ◌>>◌, greeting, build_ready_body, flag_command, check_greeting,
  handshake, subscribe, recv,
}
use ns_pixels.Zmq.Frames.{wire_flags, wire}
use ns_pixels.Zmq.Messages.{Item, parts, Fits, encode, recv_run}
use ns_pixels.Zmq.Handshake.{Open, handshake_run, send_frame_run}
use ns_pixels.Feed.{FeedResult, on_message}

abbrev pub topic : List ℕ
topic = codes "/RIG/NStreinpositiesInterface5"

abbrev pub zmq_frame_cap : ℕ
zmq_frame_cap = 64 * 1024

-- What a round finds besides its message: the inflater's state, the time, whether a snapshot buffer is free, the map
-- mode, and the channel.
pub record Moment (S : Type 0) : Type 0 where
  pub state : S
  pub now : ℕ
  pub has_buffer : Bool
  pub mode : MapMode
  pub queue : List ℕ

module _ (sock : Socket) where
  -- `Subscriber::new` and `subscribe`, over the connected socket.
  unfoldable pub feed_start : sock.S → Outcome sock.E sock.S (Unit {0})
  feed_start s =
      ◌>>◌ sock zmq_frame_cap (handshake sock zmq_frame_cap) (subscribe sock zmq_frame_cap topic) s

  module _ (h : TrainMap) (vec : BoundedVec) (c : Clock) (fl : Floats) (sorting : UnstableSort)
      (inf : Inflater) (tokenize : List ℕ → List (Option Token))
      (parse_f32 : List ℕ → Option fl.F32) where
    open h use {Map}

    -- The registry after a message; one that is passed over leaves it.
    abbrev pub trains_after : Map → Option (FeedResult Map) → Map
    trains_after m none = m
    trains_after m (some r) = r.trains

    abbrev pub received : List (List ℕ) → Moment inf.S → Map → Map
    received frames t m = trains_after m (
        on_message h vec c fl sorting inf tokenize parse_f32 frames t.state t.now t.has_buffer
          t.mode t.queue m)

    -- The loop, for as many rounds as there are moments.
    unfoldable pub feed_rounds : List (Moment inf.S) → Map → sock.S → Outcome sock.E sock.S Map
    feed_rounds [] m s = ok m s
    feed_rounds (t ∷ ts) m s = elim (recv sock zmq_frame_cap s) [
      | err e ↦ err e
      | stalled ↦ stalled
      | ok frames s' ↦ feed_rounds ts (received frames t m) s'
    ]

    -- The messages of a stream, each with the moment of its round: the frames before the last one, and that one.
    abbrev pub replay : List (Moment inf.S × List Item × List ℕ) → Map → Map
    replay [] m = m
    replay ((t, items, last) ∷ ms) m = replay ms (received (parts items last) t m)

    abbrev pub moments : List (Moment inf.S × List Item × List ℕ) → List (Moment inf.S)
    moments [] = []
    moments ((t, items, last) ∷ ms) = t ∷ moments ms

    abbrev pub stream : List (Moment inf.S × List Item × List ℕ) → List ℕ
    stream [] = []
    stream ((t, items, last) ∷ ms) = encode sock zmq_frame_cap items last ++ stream ms

    -- Each frame is within the cap.
    abbrev pub AllFit : List (Moment inf.S × List Item × List ℕ) → Type 0
    AllFit [] = Unit
    AllFit ((t, items, last) ∷ ms) =
        Fits zmq_frame_cap items × (length last ≤ zmq_frame_cap) × AllFit ms

    module _ (open_sock : Open sock) where
      feed_rounds-stream :
          (ms : List (Moment inf.S × List Item × List ℕ)) (rest : List ℕ) (m : Map) (s : sock.S)
          → AllFit ms
          → sock.incoming s ≡ stream ms ++ rest
          → (s' : sock.S) × (feed_rounds (moments ms) m s ≡ ok (replay ms m) s')
            × (sock.incoming s' ≡ rest)
      unfolding feed_rounds
      feed_rounds-stream [] rest m s fit e = (s, refl, e)
      feed_rounds-stream ((t, items, last) ∷ ms) rest m s (fits, small, fit) e =
          let (s1, p, i) =
            recv_run sock zmq_frame_cap open_sock.reads items last (stream ms ++ rest) s fits
              (omega arith) small
              (e ∙ append_assoc (encode sock zmq_frame_cap items last) (stream ms) rest) in
          let (s2, q, j) = feed_rounds-stream ms rest (received (parts items last) t m) s1 fit i in
          (s2, ground (arith, p, q), j)

      -- Take a connected socket that does not fail, and a peer that sends a greeting that passes the checks, a
      -- command within the cap, and then messages of frames within the cap. Then the task sends the greeting, its
      -- READY command and the subscription to its topic, once and in that order. Its loop then ends each round, in
      -- as many rounds as there are messages, and leaves the registry that the messages make of it one after the
      -- other; what follows them is not yet read.
      pub feed_session :
          (peer body rest : List ℕ) (flags : ℕ) (ms : List (Moment inf.S × List Item × List ℕ))
          (m : Map) (s : sock.S)
          → length peer ≡ 64
          → check_greeting sock zmq_frame_cap peer ≡ none
          → (bit_and (wire_flags flags body) flag_command == 0) ≡ false
          → length body ≤ zmq_frame_cap
          → AllFit ms
          → sock.incoming s ≡ peer ++ (wire sock zmq_frame_cap flags body ++ (stream ms ++ rest))
          → (s1 : sock.S) × (s2 : sock.S) × (feed_start s ≡ ok tt s1)
            × (sock.sent s1
                ≡ (sock.sent s ++ greeting ++ wire sock zmq_frame_cap flag_command build_ready_body)
                  ++ wire sock zmq_frame_cap 0 (1 ∷ topic))
            × (feed_rounds (moments ms) m s1 ≡ ok (replay ms m) s2)
            × (sock.incoming s2 ≡ rest)
      unfolding feed_start subscribe
      feed_session peer body rest flags ms m s l g f b fit e =
          let (a, p, w, i) =
            handshake_run sock zmq_frame_cap open_sock peer body (stream ms ++ rest) flags s l g f
              (omega arith) b e in
          let (s1, q, j, v) = send_frame_run sock zmq_frame_cap open_sock 0 (1 ∷ topic) a in
          let (s2, r, k) = feed_rounds-stream ms rest m s1 fit (j ∙ i) in
          (
            s1,
            s2,
            ground (arith, p, q),
            v ∙ ap (λ x. x ++ wire sock zmq_frame_cap 0 (1 ∷ topic)) w,
            r,
            k,
          )
