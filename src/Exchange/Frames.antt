-- ===== src/Exchange/Frames.antt =====
-- The two frame buffers between the display task and the panel task on the other core.
use ns_pixels.Prelude.{
  subst, ℕ, ◌-◌, ◌<◌, ◌≡◌, ◌≢◌, refl, sym, ap, ◌∙◌, ◌⊎◌, inl, inr, Option, none, some, arith,
}

-- The buffer that the display task draws into, none while it waits; the one that the panel shows; and the two
-- signals between the tasks.
pub record FrameBuffers : Type 0 where
  pub drawing : Option ℕ
  pub showing : ℕ
  pub to_panel : Option ℕ
  pub to_display : Option ℕ

-- `start`: the display task draws into the first buffer, the panel task has the second.
abbrev pub frames_started : FrameBuffers
frames_started = record { drawing = some 0; showing = 1; to_panel = none; to_display = none }

-- `tx.signal(fb)` of the display task, which waits from then on.
unfoldable pub send_frame_buffer : FrameBuffers → FrameBuffers
send_frame_buffer s = elim s.drawing [
  | none ↦ s
  | some b ↦ record s { drawing = none; to_panel = some b }
]

-- `fb = rx.wait().await` of the display task.
unfoldable pub wait_frame_buffer : FrameBuffers → FrameBuffers
wait_frame_buffer s = elim s.drawing [
  | some b ↦ s
  | none ↦ elim s.to_display [
    | none ↦ s
    | some b ↦ record s { drawing = some b; to_display = none }
  ]
]

-- The panel task, when it was signaled: it takes the new buffer and gives its own back. Before its first frame
-- it waits for the signal, and does the same.
unfoldable pub swap_frame_buffer : FrameBuffers → FrameBuffers
swap_frame_buffer s = elim s.to_panel [
  | none ↦ s
  | some new ↦ record s { showing = new; to_panel = none; to_display = some s.showing }
]

pub data FrameStep (s : FrameBuffers) : FrameBuffers → Type 0 where
  send : FrameStep s (send_frame_buffer s)
  wait : FrameStep s (wait_frame_buffer s)
  swap : FrameStep s (swap_frame_buffer s)

pub data FrameReach : FrameBuffers → Type 0 where
  start : FrameReach frames_started
  later : {s t : FrameBuffers} → FrameReach s → FrameStep s t → FrameReach t

-- The buffer that the panel does not show is in one of three places.
data Other : Type 0 where
  drawn sent given_back : Other

abbrev with_other : Other → ℕ → FrameBuffers
with_other drawn d = record {
  drawing = some (1 - d);
  showing = d;
  to_panel = none;
  to_display = none;
}
with_other sent d = record {
  drawing = none;
  showing = d;
  to_panel = some (1 - d);
  to_display = none;
}
with_other given_back d = record {
  drawing = none;
  showing = d;
  to_panel = none;
  to_display = some (1 - d);
}

abbrev Split : FrameBuffers → Type 0
Split s = (w : Other) × (d : ℕ) × (d < 2) × (s ≡ with_other w d)

send-Split : (s : FrameBuffers) → Split s → Split (send_frame_buffer s)
unfolding send_frame_buffer
send-Split s (drawn, d, l, e) = (sent, d, l, ap send_frame_buffer e)
send-Split s (sent, d, l, e) = (sent, d, l, ap send_frame_buffer e)
send-Split s (given_back, d, l, e) = (given_back, d, l, ap send_frame_buffer e)

wait-Split : (s : FrameBuffers) → Split s → Split (wait_frame_buffer s)
unfolding wait_frame_buffer
wait-Split s (drawn, d, l, e) = (drawn, d, l, ap wait_frame_buffer e)
wait-Split s (sent, d, l, e) = (sent, d, l, ap wait_frame_buffer e)
wait-Split s (given_back, d, l, e) = (drawn, d, l, ap wait_frame_buffer e)

swap-Split : (s : FrameBuffers) → Split s → Split (swap_frame_buffer s)
unfolding swap_frame_buffer
swap-Split s (drawn, d, l, e) = (drawn, d, l, ap swap_frame_buffer e)
swap-Split s (sent, d, l, e) =
    (given_back, 1 - d, omega arith, ap swap_frame_buffer e ∙ ap (handed_back d) (omega arith))
  where
    handed_back : ℕ → ℕ → FrameBuffers
    handed_back d i = record {
      drawing = none;
      showing = 1 - d;
      to_panel = none;
      to_display = some i;
    }
swap-Split s (given_back, d, l, e) = (given_back, d, l, ap swap_frame_buffer e)

FrameReach-Split : {s : FrameBuffers} → FrameReach s → Split s
FrameReach-Split start = (drawn, 1, omega arith, refl)
FrameReach-Split (later r send) = send-Split _ (FrameReach-Split r)
FrameReach-Split (later r wait) = wait-Split _ (FrameReach-Split r)
FrameReach-Split (later r swap) = swap-Split _ (FrameReach-Split r)

-- The display task has a buffer to draw into that the panel does not show, or gets one as soon as the panel task
-- has looked at its signal.
abbrev pub Draws : FrameBuffers → Type 0
Draws s = (b : ℕ) × (s.drawing ≡ some b) × (b ≢ s.showing)

abbrev pub WillDraw : FrameBuffers → Type 0
WillDraw s = Draws s ⊎ Draws (wait_frame_buffer s) ⊎ Draws (wait_frame_buffer (swap_frame_buffer s))

WillDraw-at : (w : Other) (d : ℕ) → d < 2 → WillDraw (with_other w d)
unfolding wait_frame_buffer swap_frame_buffer
WillDraw-at drawn d l = inl (1 - d, refl, omega arith)
WillDraw-at given_back d l = inr (inl (1 - d, refl, omega arith))
WillDraw-at sent d l = inr (inr (d, refl, omega arith))

-- The two tasks never block each other, and no frame is torn: in every reachable state the display task draws into
-- a buffer that the panel does not show, or receives such a buffer at once or after one look of the panel task at
-- its signal.
pub FrameReach-WillDraw : {s : FrameBuffers} → FrameReach s → WillDraw s
FrameReach-WillDraw r =
    let (w, d, l, e) = FrameReach-Split r in subst WillDraw (sym e) (WillDraw-at w d l)
