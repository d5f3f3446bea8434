-- ===== src/Display/Cluster.antt =====
-- The per-cluster mode of display.rs: each pixel goes through the colours of its own bits.
use ns_pixels.Prelude.{
  ℕ, zero, suc, ◌+◌, ◌-◌, ◌*◌, ◌/◌, ◌%◌, ◌^◌, if◌then◌else◌, leb, ◌==◌, List, [], ◌∷◌, bit_and,
}
use ns_pixels.Train.{PixelData}
use ns_pixels.Display.{ColorMode, DisplayConfig, per_cluster, global_pulse}
use ns_pixels.Display.Colors.{
  Rgb, rgb, slot_ms, fade_ms, blend, wrapping_neg, extract, color_for, draw_global_pulse,
}

-- The ones among the lowest bits of a mask.
abbrev pub ones : ℕ → ℕ → ℕ
ones zero mask = 0
ones (suc k) mask = mask % 2 + ones k (mask / 2)

-- `count_ones` of a byte.
unfoldable pub count_ones : ℕ → ℕ
count_ones mask = ones 8 mask

-- Each round of the loop clears the lowest set bit; `m - 1` wraps around at 0.
unfoldable pub nth_set_bit : ℕ → ℕ → ℕ
nth_set_bit mask zero = bit_and mask (wrapping_neg mask)
nth_set_bit mask (suc n) = nth_set_bit (bit_and mask ((mask + (2 ^ 8 - 1)) % 2 ^ 8)) n

-- The colour of a mask of `n` bits at a phase of the cycle.
unfoldable pub color_at_phase : ℕ → ℕ → ℕ → ColorMode → Rgb
color_at_phase n bits phase axis =
    let slot = phase / slot_ms % 2 ^ 32 in
    let in_slot = phase % slot_ms in
    let a = color_for axis (nth_set_bit bits slot) in
    if leb (in_slot + fade_ms) slot_ms
    then a
    else blend a (color_for axis (nth_set_bit bits ((slot + 1) % n)))
        ((in_slot + fade_ms - slot_ms) * 255 / fade_ms % 2 ^ 8)

-- The match on the number of bits.
unfoldable pub color_among : ℕ → ℕ → ℕ → ColorMode → Rgb
color_among n bits now_ms axis =
    if n == 0
    then rgb 0 0 0
    else if n == 1
    then color_for axis bits
    else color_at_phase n bits (now_ms % (n * slot_ms)) axis

unfoldable pub cluster_color : ℕ → ℕ → ColorMode → Rgb
cluster_color bits now_ms axis = color_among (count_ones bits) bits now_ms axis

-- The pixels that are set, each with its column, its row and its colour.
unfoldable pub draw_per_cluster : ℕ → ColorMode → List PixelData → List (ℕ × ℕ × Rgb)
unfolding cluster_color
draw_per_cluster now_ms axis [] = []
draw_per_cluster now_ms axis (e ∷ es) =
    (e.coord_key / 2 ^ 8, bit_and e.coord_key 0xff, cluster_color (extract axis e) now_ms axis)
    ∷ draw_per_cluster now_ms axis es

unfoldable pub draw_trains : DisplayConfig → ℕ → List PixelData → List (ℕ × ℕ × Rgb)
unfolding draw_per_cluster draw_global_pulse
draw_trains cfg now_ms clusters = elim cfg.viz [
  | per_cluster ↦ draw_per_cluster now_ms cfg.col clusters
  | global_pulse ↦ draw_global_pulse now_ms cfg.col clusters
]
