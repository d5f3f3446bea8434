-- ===== src/XmlParser/Document.antt =====
-- Documents of the feed as trees: what they are as tokens, and which train a location gives.
use ns_pixels.Prelude.{ℕ, zero, suc, ◌≡◌, Option, none, some, List, [], ◌∷◌, ◌++◌}
use ns_pixels.Prelude.Text.{codes, trim, parse_u32}
use ns_pixels.XmlParser.{
  Token, element_start, text, end_open, end_close, end_empty, other, name_of, unrelated, Train,
  found,
}

-- What stands in a `TreinMaterieelDelen`: its coordinates, other elements with a text or empty, and space
-- between them.
pub data PartItem : Type 0 where
  lon_of : List ℕ → PartItem
  lat_of : List ℕ → PartItem
  leaf : List ℕ → List ℕ → PartItem
  empty_leaf : List ℕ → PartItem
  space : List ℕ → PartItem

-- What stands in a `TreinLocation`. A part has a number of attributes.
pub data LocationItem : Type 0 where
  number_of : List ℕ → LocationItem
  part : ℕ → List PartItem → LocationItem
  leaf : List ℕ → List ℕ → LocationItem
  empty_leaf : List ℕ → LocationItem
  space : List ℕ → LocationItem

-- A document: its locations, each with its number of attributes, and the tokens around them.
pub data DocumentItem : Type 0 where
  location : ℕ → List LocationItem → DocumentItem
  around : Token → DocumentItem

abbrev pub attributes : ℕ → List Token → List Token
attributes zero ts = ts
attributes (suc n) ts = other ∷ attributes n ts

-- An element with a text, and what follows it.
abbrev pub text_element : List ℕ → List ℕ → List Token → List Token
text_element name s ts = element_start name ∷ end_open ∷ text s ∷ end_close name ∷ ts

abbrev pub part_tokens : List PartItem → List Token → List Token
part_tokens [] ts = ts
part_tokens (lon_of s ∷ is) ts = text_element (codes "Longitude") s (part_tokens is ts)
part_tokens (lat_of s ∷ is) ts = text_element (codes "Latitude") s (part_tokens is ts)
part_tokens (PartItem.leaf name s ∷ is) ts = text_element name s (part_tokens is ts)
part_tokens (PartItem.empty_leaf name ∷ is) ts = element_start name ∷ end_empty ∷ part_tokens is ts
part_tokens (PartItem.space s ∷ is) ts = text s ∷ part_tokens is ts

abbrev pub location_tokens : List LocationItem → List Token → List Token
location_tokens [] ts = ts
location_tokens (number_of s ∷ is) ts = text_element (codes "TreinNummer") s (location_tokens is ts)
location_tokens (part n ps ∷ is) ts =
    element_start (codes "TreinMaterieelDelen")
    ∷ attributes n (
        end_open ∷ part_tokens ps (end_close (codes "TreinMaterieelDelen") ∷ location_tokens is ts))
location_tokens (LocationItem.leaf name s ∷ is) ts = text_element name s (location_tokens is ts)
location_tokens (LocationItem.empty_leaf name ∷ is) ts =
    element_start name ∷ end_empty ∷ location_tokens is ts
location_tokens (LocationItem.space s ∷ is) ts = text s ∷ location_tokens is ts

abbrev pub document_tokens : List DocumentItem → List Token
document_tokens [] = []
document_tokens (location n is ∷ ds) =
    element_start (codes "TreinLocation")
    ∷ attributes n
        (end_open ∷ location_tokens is (end_close (codes "TreinLocation") ∷ document_tokens ds))
document_tokens (around t ∷ ds) = t ∷ document_tokens ds

-- Each other element has a name of its own.
abbrev pub PartItemsFit : List PartItem → Type 0
PartItemsFit [] = Unit
PartItemsFit (PartItem.leaf name s ∷ is) = (name_of name ≡ unrelated) × PartItemsFit is
PartItemsFit (PartItem.empty_leaf name ∷ is) = (name_of name ≡ unrelated) × PartItemsFit is
PartItemsFit (i ∷ is) = PartItemsFit is

abbrev pub LocationItemsFit : List LocationItem → Type 0
LocationItemsFit [] = Unit
LocationItemsFit (LocationItem.leaf name s ∷ is) = (name_of name ≡ unrelated) × LocationItemsFit is
LocationItemsFit (LocationItem.empty_leaf name ∷ is) =
    (name_of name ≡ unrelated) × LocationItemsFit is
LocationItemsFit (part n ps ∷ is) = PartItemsFit ps × LocationItemsFit is
LocationItemsFit (i ∷ is) = LocationItemsFit is

-- The tokens between the locations are texts, comments, and the starts and ends of other elements.
abbrev pub Quiet : Token → Type 0
Quiet (element_start name) = name_of name ≡ unrelated
Quiet (end_close name) = name_of name ≡ unrelated
Quiet end_empty = ⊥
Quiet t = Unit

abbrev pub DocumentFits : List DocumentItem → Type 0
DocumentFits [] = Unit
DocumentFits (location n is ∷ ds) = LocationItemsFit is × DocumentFits ds
DocumentFits (around t ∷ ds) = Quiet t × DocumentFits ds

-- The texts that count: the last number of a location, its first part, and the last coordinates there.
abbrev pub last_number : List LocationItem → Option (List ℕ) → Option (List ℕ)
last_number [] before = before
last_number (number_of s ∷ is) before = last_number is (some s)
last_number (i ∷ is) before = last_number is before

abbrev pub first_part : List LocationItem → List PartItem
first_part [] = []
first_part (part n ps ∷ is) = ps
first_part (i ∷ is) = first_part is

abbrev pub last_lon : List PartItem → Option (List ℕ) → Option (List ℕ)
last_lon [] before = before
last_lon (lon_of s ∷ is) before = last_lon is (some s)
last_lon (i ∷ is) before = last_lon is before

abbrev pub last_lat : List PartItem → Option (List ℕ) → Option (List ℕ)
last_lat [] before = before
last_lat (lat_of s ∷ is) before = last_lat is (some s)
last_lat (i ∷ is) before = last_lat is before

abbrev pub value_of : {A : Type 0} → (List ℕ → Option A) → Option (List ℕ) → Option A
value_of read none = none
value_of read (some s) = read (trim s)

module _ {F : Type 0} (parse_f32 : List ℕ → Option F) where
  abbrev pub train_of : List LocationItem → List (Train F)
  train_of is =
      found F (value_of parse_u32 (last_number is none))
        (value_of parse_f32 (last_lon (first_part is) none))
        (value_of parse_f32 (last_lat (first_part is) none))

  abbrev pub trains_of : List DocumentItem → List (Train F)
  trains_of [] = []
  trains_of (location n is ∷ ds) = train_of is ++ trains_of ds
  trains_of (around t ∷ ds) = trains_of ds
