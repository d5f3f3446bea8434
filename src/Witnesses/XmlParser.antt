-- ===== src/Witnesses/XmlParser.antt =====
-- The theorem on the feed's documents, with whole numbers for coordinates.
use ns_pixels.Prelude.{ℕ, ◌≡◌, refl, List, [], ◌∷◌}
use ns_pixels.Prelude.Text.{
  codes, parse_u32, from_digits, trim, trim_start, trim_end, is_whitespace,
}
use ns_pixels.XmlParser.{element_start, text, end_open, other, name_of, parse, found}
use ns_pixels.XmlParser.Document.{
  PartItem, lon_of, lat_of, LocationItem, number_of, part, DocumentItem, location, around,
  document_tokens,
}
use ns_pixels.XmlParser.Locations.{parse_document, yielded}

-- A train of two parts, with an empty element and a text that do not count.
abbrev items : List LocationItem
items =
    LocationItem.space (codes "\n")
    ∷ number_of (codes " 6441 ")
    ∷ part 1 (
        PartItem.empty_leaf (codes "GeneratieTijd")
        ∷ lon_of (codes "5")
        ∷ PartItem.leaf (codes "Bron") (codes "GNSS")
        ∷ lat_of (codes "51")
        ∷ [])
    ∷ part 1 (lon_of (codes "9") ∷ lat_of (codes "9") ∷ [])
    ∷ []

abbrev pub document : List DocumentItem
document =
    around other
    ∷ around (element_start (codes "ArrayOfTreinLocation"))
    ∷ around end_open
    ∷ around (text (codes "\n"))
    ∷ location 0 items
    ∷ []

parse_document_example :
    parse {F = ℕ} parse_u32 (yielded (document_tokens document))
    ≡ record { number = 6441; lon = 5; lat = 51 } ∷ []
unfolding name_of found trim trim_start trim_end is_whitespace parse_u32 from_digits
parse_document_example =
    parse_document {F = ℕ} parse_u32 document
      (tt, (refl, (tt, (tt, (((refl, (refl, tt)), (tt, tt)), tt)))))
