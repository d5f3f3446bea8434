-- ===== src/Witnesses/Colors.antt =====
-- The theorems on fading.
use ns_pixels.Prelude.{◌≡◌, refl, arith}
use ns_pixels.Train.{PixelData}
use ns_pixels.Display.{by_type}
use ns_pixels.Display.Colors.{rgb, color_for_type_bit}
use ns_pixels.Display.Cluster.{count_ones, cluster_color}
use ns_pixels.Display.Turns.{cluster_color_turns}

-- A train of unknown type, in the middle of a fade.
abbrev grey : PixelData
grey = record { coord_key = 2580; types = 1; services = 1 }

-- A cluster of an SNG and an SLT train, in the slot of the SLT.
cluster_color_turns_example : cluster_color 6 10_600 by_type ≡ rgb 0 200 255
unfolding count_ones color_for_type_bit
cluster_color_turns_example =
    cluster_color_turns 6 2 3 100 by_type (omega arith) (omega arith) refl (omega arith)
