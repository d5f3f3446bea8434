-- ===== src/XmlParser.antt =====
-- xml_parser.rs: the walk over the tokens of the train position feed. `f32::from_str` is an argument, and
-- `on_train` is the push onto a vector, as the feed task calls it.
pub mod Document
pub mod Parts
pub mod Locations
use ns_pixels.Prelude.{
  ℕ, Bool, true, false, ◌&&◌, not, Option, none, some, List, [], ◌∷◌, ◌++◌, if◌then◌else◌,
}
use ns_pixels.Prelude.Text.{codes, same, trim, parse_u32}

pub record Train (F : Type 0) : Type 0 where
  pub number : ℕ
  pub lon : F
  pub lat : F

pub data Capture : Type 0 where
  nothing nummer lon lat : Capture

-- The tokens of xmlparser, an element's name without its prefix. `other` is any of those that are skipped:
-- attributes, comments, CDATA, the declaration.
pub data Token : Type 0 where
  element_start : List ℕ → Token
  text : List ℕ → Token
  end_open : Token
  end_close : List ℕ → Token
  end_empty : Token
  other : Token

-- The names that are told apart.
pub data Name : Type 0 where
  trein_location trein_nummer trein_materieel_delen longitude latitude unrelated : Name

unfoldable pub name_of : List ℕ → Name
name_of s =
    if same s (codes "TreinLocation")
    then trein_location
    else if same s (codes "TreinNummer")
    then trein_nummer
    else if same s (codes "TreinMaterieelDelen")
    then trein_materieel_delen
    else if same s (codes "Longitude")
    then longitude
    else if same s (codes "Latitude")
    then latitude
    else unrelated

-- The variables of `parse`, and the trains that were handed out.
pub record Walk (F : Type 0) : Type 0 where
  pub in_treinloc : Bool
  pub seen_first_part : Bool
  pub in_first_part : Bool
  pub capture : Capture
  pub current_local : List ℕ
  pub nummer : Option ℕ
  pub lon : Option F
  pub lat : Option F
  pub out : List (Train F)

module _ (F : Type 0) where
  abbrev pub start_walk : Walk F
  start_walk = record {
    in_treinloc = false;
    seen_first_part = false;
    in_first_part = false;
    capture = nothing;
    current_local = [];
    nummer = none;
    lon = none;
    lat = none;
    out = [];
  }

  -- The match on the name of an element that starts.
  unfoldable pub start_named : Name → Walk F → Walk F
  start_named trein_location w = record w {
    in_treinloc = true;
    seen_first_part = false;
    in_first_part = false;
    nummer = none;
    lon = none;
    lat = none;
    capture = nothing;
  }
  start_named trein_nummer w = if w.in_treinloc then record w { capture = Capture.nummer } else w
  start_named trein_materieel_delen w =
      if w.in_treinloc && not w.seen_first_part
      then record w { in_first_part = true; seen_first_part = true }
      else w
  start_named longitude w = if w.in_first_part then record w { capture = Capture.lon } else w
  start_named latitude w = if w.in_first_part then record w { capture = Capture.lat } else w
  start_named unrelated w = w

  -- The train of the values that were found, if all three were.
  unfoldable pub found : Option ℕ → Option F → Option F → List (Train F)
  found (some n) (some lo) (some la) = record { number = n; lon = lo; lat = la } ∷ []
  found (some n) (some lo) none = []
  found (some n) none la = []
  found none lo la = []

  -- The match on the name of an element that ends.
  unfoldable pub end_named : Name → Walk F → Walk F
  unfolding found
  end_named trein_nummer w = record w { capture = nothing }
  end_named longitude w = record w { capture = nothing }
  end_named latitude w = record w { capture = nothing }
  end_named trein_materieel_delen w =
      if w.in_first_part then record w { in_first_part = false } else w
  end_named trein_location w =
      if w.in_treinloc
      then record w {
        out = w.out ++ found w.nummer w.lon w.lat;
        in_treinloc = false;
        in_first_part = false;
        seen_first_part = false;
        capture = nothing;
      }
      else w
  end_named unrelated w = w

module _ {F : Type 0} (parse_f32 : List ℕ → Option F) where
  unfoldable pub on_text : Capture → List ℕ → Walk F → Walk F
  on_text Capture.nummer s w = record w { nummer = parse_u32 (trim s) }
  on_text Capture.lon s w = record w { lon = parse_f32 (trim s) }
  on_text Capture.lat s w = record w { lat = parse_f32 (trim s) }
  on_text nothing s w = w

  unfoldable pub on_token : Token → Walk F → Walk F
  unfolding start_named end_named on_text name_of
  on_token (element_start name) w = start_named F (name_of name) (record w { current_local = name })
  on_token (text s) w = on_text w.capture s w
  on_token (end_close name) w = end_named F (name_of name) w
  on_token end_empty w = end_named F (name_of w.current_local) w
  on_token end_open w = w
  on_token other w = w

  unfoldable pub walk : List Token → Walk F → Walk F
  unfolding on_token
  walk [] w = w
  walk (t ∷ ts) w = walk ts (on_token t w)

  -- `flatten` drops the tokenizer's errors.
  unfoldable pub flatten : List (Option Token) → List Token
  flatten [] = []
  flatten (none ∷ ts) = flatten ts
  flatten (some t ∷ ts) = t ∷ flatten ts

  -- `parse`, of what the tokenizer yields.
  unfoldable pub parse : List (Option Token) → List (Train F)
  unfolding walk flatten
  parse tokens = (walk (flatten tokens) (start_walk F)).out
