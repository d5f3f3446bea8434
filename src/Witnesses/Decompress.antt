-- ===== src/Witnesses/Decompress.antt =====
-- The theorems on the decompressor.
use mathlib.Core.Bool.{true}
use ns_pixels.Prelude.{ℕ, ◌≤◌, ◌≡◌, ◌≢◌, refl, none, some, List, [], ◌∷◌, ◌++◌, arith}
use ns_pixels.Extern.Stored.{stored, copied}
use ns_pixels.Decompress.{
  at, skip_header, skip_fields, stalled, out_of_range, inflate_loop, check_utf8, inflate_gzip,
  round, after_call, skip_extra, skip_text, skip_crc,
}
use ns_pixels.Decompress.Utf8.{is_utf8}
use ns_pixels.Decompress.Header.{GzipFields, header_bytes, skip_header_run}
use ns_pixels.Decompress.Bounds.{inflate_gzip_total, inflate_gzip_sound}

-- The header of a text with a time, an extra field, a name and a checksum, and no comment.
abbrev fields : GzipFields
fields = record {
  is_text = true;
  time = (0x5e, 1, 2, 0x67);
  extra_flags = 0;
  os = 255;
  extra = some (5 ∷ 6 ∷ 7 ∷ []);
  name = some (b'a' ∷ []);
  comment = none;
  crc = some (1, 2);
}

skip_header_run_example : skip_header (header_bytes fields ++ 9 ∷ []) ≡ at 19
skip_header_run_example =
    skip_header_run fields (9 ∷ []) (omega arith) ((λ e. absurd (omega arith)), tt) tt

abbrev hi : List ℕ
hi = 0x1f ∷ 0x8b ∷ 8 ∷ 0 ∷ 0 ∷ 0 ∷ 0 ∷ 0 ∷ 0 ∷ 255 ∷ b'h' ∷ b'i' ∷ []

inflate_gzip_total_example :
    (inflate_gzip stored 8 hi tt ≢ stalled) × (inflate_gzip stored 8 hi tt ≢ out_of_range)
inflate_gzip_total_example = inflate_gzip_total stored 8 hi tt

inflate_gzip_sound_example : (is_utf8 (b'h' ∷ b'i' ∷ []) ≡ true) × (2 ≤ 8)
unfolding inflate_gzip inflate_loop check_utf8 round after_call skip_header skip_fields skip_extra
    skip_text skip_crc is_utf8 copied
inflate_gzip_sound_example = inflate_gzip_sound stored 8 hi (b'h' ∷ b'i' ∷ []) tt refl
