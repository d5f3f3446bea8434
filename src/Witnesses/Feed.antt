-- ===== src/Witnesses/Feed.antt =====
-- The theorems on a message of the feed, over a registry of two trains, one of them stale, and over none.
use mathlib.Core.Bool.{true}
use ns_pixels.Prelude.{ℕ, ◌*◌, ◌≡◌, refl, Option, none, some, List, [], ◌∷◌, arith}
use ns_pixels.Prelude.Int.{pos}
use ns_pixels.Prelude.Text.{parse_u32, from_digits, trim, trim_start, trim_end, is_whitespace}
use ns_pixels.Extern.AssocMap.{list_vec, microseconds}
use ns_pixels.Extern.FixedPoint.{Fixed, fixed_point}
use ns_pixels.Extern.InsertionSort.{insertion_sort}
use ns_pixels.Extern.Stored.{stored, copied}
use ns_pixels.MapMode.{netherlands}
use ns_pixels.Registry.{len}
use ns_pixels.Decompress.{
  skip_header, skip_fields, inflate_loop, check_utf8, inflate_gzip, round, after_call, skip_extra,
  skip_text, skip_crc,
}
use ns_pixels.Decompress.Utf8.{is_utf8}
use ns_pixels.XmlParser.{
  Train, Token, name_of, found, parse, walk, on_token, on_text, start_named, end_named, flatten,
}
use ns_pixels.XmlParser.Document.{document_tokens}
use ns_pixels.XmlParser.Locations.{yielded}
use ns_pixels.Feed.{FeedResult, evict_stale, message_trains, apply_trains, on_message}
use ns_pixels.Feed.Newcomers.{newcomers, is_row, SentAll, on_message-newcomers}
use ns_pixels.Feed.Sightings.{RowAfter, last_place, on_message_rows}
use ns_pixels.Witnesses.Samples.{trains, two_trains}
use ns_pixels.Witnesses.XmlParser.{document}

abbrev pub frames : List (List ℕ)
frames = [] ∷ (0x1f ∷ 0x8b ∷ 8 ∷ 0 ∷ 0 ∷ 0 ∷ 0 ∷ 0 ∷ 0 ∷ 255 ∷ b'<' ∷ b'/' ∷ b'>' ∷ []) ∷ []

abbrev pub parse_whole : List ℕ → Option Fixed
parse_whole text = elim (parse_u32 text) [
  | none ↦ none
  | some n ↦ some (some (pos (n * 1_000_000)))
]

abbrev pub tokens : List ℕ → List (Option Token)
tokens xml = yielded (document_tokens document)

abbrev pub sighted : List (Train Fixed)
sighted = record { number = 6441; lon = some (pos 5_000_000); lat = some (pos 51_000_000) } ∷ []

decoded :
    message_trains trains list_vec microseconds fixed_point insertion_sort stored tokens parse_whole
      frames tt
    ≡ some sighted
unfolding message_trains inflate_gzip inflate_loop check_utf8 round after_call skip_header
    skip_fields skip_extra skip_text skip_crc is_utf8 copied parse_u32 from_digits trim trim_start
    trim_end is_whitespace name_of found parse walk on_token on_text start_named end_named flatten
decoded = refl

on_message_rows_example :
    (r : FeedResult trains.Map) × (on_message trains list_vec microseconds fixed_point
        insertion_sort stored tokens parse_whole frames tt 400_000_001 true netherlands []
        two_trains
      ≡ some r)
    × ((k : ℕ)
        → RowAfter trains list_vec microseconds fixed_point 400_000_001
            (last_place fixed_point k sighted)
            (trains.get
              (evict_stale trains list_vec microseconds fixed_point 400_000_001 two_trains).0
              k)
            (trains.get r.trains k))
unfolding len
on_message_rows_example =
    on_message_rows trains list_vec microseconds fixed_point insertion_sort stored tokens
      parse_whole frames tt sighted 400_000_001 true netherlands [] two_trains decoded (omega arith)

-- The registry at the start.
abbrev pub no_trains : trains.Map
no_trains = trains.empty

abbrev pub outcome : FeedResult trains.Map
outcome =
    apply_trains trains list_vec microseconds fixed_point insertion_sort sighted 400_000_001 true
      netherlands [] no_trains

pub on_message-outcome :
    on_message trains list_vec microseconds fixed_point insertion_sort stored tokens parse_whole
      frames tt 400_000_001 true netherlands [] no_trains
    ≡ some outcome
unfolding on_message
on_message-outcome = ground (arith, decoded)

-- Over an empty registry, where the train is a newcomer.
on_message-newcomers_example :
    (r : FeedResult trains.Map) × (on_message trains list_vec microseconds fixed_point
        insertion_sort stored tokens parse_whole frames tt 400_000_001 true netherlands [] no_trains
      ≡ some r)
    × SentAll
        ([], 0, 0)
        (newcomers
          (λ k. is_row (
            trains.get
              (evict_stale trains list_vec microseconds fixed_point 400_000_001 no_trains).0
              k))
          (6441 ∷ []))
        (r.queue, r.new_count, r.dropped)
unfolding len
on_message-newcomers_example =
    on_message-newcomers trains list_vec microseconds fixed_point insertion_sort stored tokens
      parse_whole frames tt sighted 400_000_001 true netherlands [] no_trains decoded (omega arith)
