-- ===== src/Input/Timing.antt =====
-- input.rs, one round of the task: which event the levels of the two pins make, by when they are read. Times are
-- in milliseconds, a pin's level is that of each one; the waits for an edge and for a release are left out.
use mathlib.Core.Bool.{Bool, true, false, not}
use ns_pixels.Prelude.{
  ℕ, zero, suc, ◌+◌, ◌-◌, ◌<◌, ◌≤◌, ◌≡◌, ap, ◌∙◌, Option, none, some, arith, if◌then◌else◌, ltb,
  leb,
}
use ns_pixels.Input.{Panel, Event, up_short, up_long, down_press, bounce, step}

abbrev pub debounce : ℕ
debounce = 30

abbrev pub long_press : ℕ
long_press = 800

-- The two pins: whether they are pulled low at a moment.
pub record Pins : Type 0 where
  pub up_low : ℕ → Bool
  pub down_low : ℕ → Bool

-- Which of the pins fell first.
pub data Edge : Type 0 where
  up down : Edge

-- The first of the next `n` moments at which a pin is high.
unfoldable pub first_high : ℕ → (ℕ → Bool) → ℕ → Option ℕ
first_high zero low t = none
first_high (suc n) low t = elim (low t) [ true ↦ first_high n low (suc t) | false ↦ some t ]

abbrev pub raced : Option ℕ → Event
raced none = up_long
raced (some released) = up_short

-- `select` of a release and the threshold. A release at the same moment as it wins.
unfoldable pub short_or_long : (ℕ → Bool) → ℕ → Event
unfolding first_high
short_or_long low t = raced (first_high (suc long_press) low t)

-- What comes of an edge at a moment.
unfoldable pub confirmed : Edge → Pins → ℕ → Event
unfolding short_or_long
confirmed up pins t =
    if pins.up_low (t + debounce) then short_or_long pins.up_low (t + debounce) else bounce
confirmed down pins t = if pins.down_low (t + debounce) then down_press else bounce

unfoldable pub press_round : Edge → Pins → ℕ → Panel → Panel
press_round edge pins t p = step (confirmed edge pins t) p

first_high_of :
    (n : ℕ) (low : ℕ → Bool) (t e : ℕ)
    → ((i : ℕ) → i < n → low (t + i) ≡ ltb i e)
    → first_high n low t ≡ (if ltb e n then some (t + e) else none)
unfolding first_high
first_high_of zero low t e f = ground arith
first_high_of (suc n) low t zero f =
    ground (arith, ap low {x = t + 0} {y = t} (omega arith), f 0 (omega arith))
first_high_of (suc n) low t (suc e) f = ground (
  arith,
  ap low {x = t + 0} {y = t} (omega arith),
  f 0 (omega arith),
  first_high_of n low (suc t) e (λ i h.
      ap low {x = suc t + i} {y = t + suc i} (omega arith)
      ∙ f (suc i) (omega arith)
      ∙ ground arith),
)

raced_if :
    (b c : Bool) (r : ℕ)
    → b ≡ c
    → raced (if b then some r else none) ≡ (if c then up_short else up_long)
raced_if true c r e = ap (λ (x : Bool). if x then up_short else up_long) e
raced_if false c r e = ap (λ (x : Bool). if x then up_short else up_long) e

short_or_long_of :
    (low : ℕ → Bool) (t e : ℕ)
    → ((i : ℕ) → i ≤ long_press → low (t + i) ≡ ltb i e)
    → short_or_long low t ≡ (if leb e long_press then up_short else up_long)
unfolding short_or_long
short_or_long_of low t e f =
    ap raced (first_high_of (suc long_press) low t e (λ i h. f i (omega arith)))
    ∙ raced_if (ltb e (suc long_press)) (leb e long_press) (t + e) (ground arith)

step_if :
    (a b c : Bool) (late : Event) (p : Panel)
    → a ≡ not b
    → late ≡ (if c then up_short else up_long)
    → step (if a then late else bounce) p
      ≡ (if b then p else if c then step up_short p else step up_long p)
unfolding step
step_if a true c late p e f = ap (λ (x : Bool). step (if x then late else bounce) p) e
step_if a false true late p e f =
    ap (λ (x : Bool). step (if x then late else bounce) p) e ∙ ap (λ (v : Event). step v p) f
step_if a false false late p e f =
    ap (λ (x : Bool). step (if x then late else bounce) p) e ∙ ap (λ (v : Event). step v p) f

-- Take an edge of UP at the moment `t` and a pin that, from the end of the debounce on and for as long as the
-- task watches it, is low up to `held` milliseconds after the edge and high from then on. Whatever the pin does
-- in the 30 ms before, nothing happens when it is released by their end, the visualization is switched when it
-- is released by 830 ms after the edge, and the map mode after that.
pub press_round_up :
    (pins : Pins) (t held : ℕ) (p : Panel)
    → ((i : ℕ) → debounce ≤ i → i ≤ debounce + long_press → pins.up_low (t + i) ≡ ltb i held)
    → press_round up pins t p ≡ (
        if leb held debounce
        then p
        else if leb held (debounce + long_press)
        then step up_short p
        else step up_long p)
unfolding press_round confirmed
press_round_up pins t held p f =
    step_if (pins.up_low (t + debounce)) (leb held debounce) (leb held (debounce + long_press))
      (short_or_long pins.up_low (t + debounce)) p
      (f debounce (omega arith) (omega arith) ∙ ground arith)
      (short_or_long_of pins.up_low (t + debounce) (held - debounce) (λ i h.
          ap pins.up_low {x = t + debounce + i} {y = t + (debounce + i)} (omega arith)
          ∙ f (debounce + i) (omega arith) (omega arith)
          ∙ ground arith)
        ∙ ap (λ (x : Bool). if x then up_short else up_long) {x = leb (held - debounce) long_press}
            {y = leb held (debounce + long_press)} (ground arith))
