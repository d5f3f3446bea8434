-- ===== src/XmlParser/Parts.antt =====
-- The walk through one `TreinMaterieelDelen`.
use ns_pixels.Prelude.{
  ℕ, zero, suc, ◌≡◌, refl, ap, ◌∙◌, Bool, true, false, Option, some, List, [], ◌∷◌,
}
use ns_pixels.Prelude.Text.{codes, parse_u32}
use ns_pixels.XmlParser.{
  Token, element_start, text, end_open, end_close, end_empty, name_of, unrelated, longitude,
  latitude, Walk, Train, nothing, start_named, end_named, on_text, on_token, walk,
}
use ns_pixels.XmlParser.Document.{
  PartItem, lon_of, lat_of, part_tokens, text_element, attributes, PartItemsFit, last_lon, last_lat,
  value_of,
}

longitude_lem : name_of (codes "Longitude") ≡ longitude
unfolding name_of
longitude_lem = refl

latitude_lem : name_of (codes "Latitude") ≡ latitude
unfolding name_of
latitude_lem = refl

module _ {F : Type 0} (parse_f32 : List ℕ → Option F) where
  -- The walk inside a location, between elements, with the texts that were read for each value.
  abbrev pub within :
      Bool
      → Bool
      → List ℕ
      → Option (List ℕ)
      → Option (List ℕ)
      → Option (List ℕ)
      → List (Train F)
      → Walk F
  within seen in_part cur num lo la out = record {
    in_treinloc = true;
    seen_first_part = seen;
    in_first_part = in_part;
    capture = nothing;
    current_local = cur;
    nummer = value_of parse_u32 num;
    lon = value_of parse_f32 lo;
    lat = value_of parse_f32 la;
    out = out;
  }

  pub attributes_skipped :
      (n : ℕ) (ts : List Token) (w : Walk F)
      → walk parse_f32 (attributes n ts) w ≡ walk parse_f32 ts w
  unfolding walk on_token
  attributes_skipped zero ts w = refl
  attributes_skipped (suc n) ts w = attributes_skipped n ts w

  -- An element that does not count, with a text or empty.
  pub leaf_skipped :
      (name s : List ℕ) (ts : List Token) (seen in_part : Bool) (cur : List ℕ)
      (num lo la : Option (List ℕ)) (out : List (Train F))
      → name_of name ≡ unrelated
      → walk parse_f32 (text_element name s ts) (within seen in_part cur num lo la out)
        ≡ walk parse_f32 ts (within seen in_part name num lo la out)
  unfolding walk on_token on_text start_named end_named
  leaf_skipped name s ts seen in_part cur num lo la out e =
      let named : Walk F = within seen in_part name num lo la out in
      ap (λ k. walk parse_f32 (end_open ∷ text s ∷ end_close name ∷ ts) (start_named F k named)) e
      ∙ ap (λ k. walk parse_f32 ts (end_named F k named)) e

  pub empty_skipped :
      (name : List ℕ) (ts : List Token) (seen in_part : Bool) (cur : List ℕ)
      (num lo la : Option (List ℕ)) (out : List (Train F))
      → name_of name ≡ unrelated
      → walk parse_f32 (element_start name ∷ end_empty ∷ ts) (within seen in_part cur num lo la out)
        ≡ walk parse_f32 ts (within seen in_part name num lo la out)
  unfolding walk on_token on_text start_named end_named
  empty_skipped name ts seen in_part cur num lo la out e = rw (e, e)

  -- The first part: its coordinates are taken.
  pub first_part_run :
      (ps : List PartItem) (ts : List Token) (cur : List ℕ) (num lo la : Option (List ℕ))
      (out : List (Train F))
      → PartItemsFit ps
      → (cur' : List ℕ) × (walk parse_f32 (part_tokens ps ts) (within true true cur num lo la out)
          ≡ walk parse_f32 ts (within true true cur' num (last_lon ps lo) (last_lat ps la) out))
  unfolding walk on_token on_text start_named end_named name_of
  first_part_run [] ts cur num lo la out f = (cur, refl)
  first_part_run (lon_of s ∷ is) ts cur num lo la out f =
      first_part_run is ts (codes "Longitude") num (some s) la out f
  first_part_run (lat_of s ∷ is) ts cur num lo la out f =
      first_part_run is ts (codes "Latitude") num lo (some s) out f
  first_part_run (PartItem.leaf name s ∷ is) ts cur num lo la out f =
      let (c, e) = first_part_run is ts name num lo la out f.1 in
      (c, leaf_skipped name s (part_tokens is ts) true true cur num lo la out f.0 ∙ e)
  first_part_run (PartItem.empty_leaf name ∷ is) ts cur num lo la out f =
      let (c, e) = first_part_run is ts name num lo la out f.1 in
      (c, empty_skipped name (part_tokens is ts) true true cur num lo la out f.0 ∙ e)
  first_part_run (PartItem.space s ∷ is) ts cur num lo la out f =
      first_part_run is ts cur num lo la out f

  -- A later part: nothing of it is taken.
  pub later_part_run :
      (ps : List PartItem) (ts : List Token) (cur : List ℕ) (num lo la : Option (List ℕ))
      (out : List (Train F))
      → PartItemsFit ps
      → (cur' : List ℕ) × (walk parse_f32 (part_tokens ps ts) (within true false cur num lo la out)
          ≡ walk parse_f32 ts (within true false cur' num lo la out))
  unfolding walk on_token on_text start_named end_named name_of
  later_part_run [] ts cur num lo la out f = (cur, refl)
  later_part_run (lon_of s ∷ is) ts cur num lo la out f =
      later_part_run is ts (codes "Longitude") num lo la out f
  later_part_run (lat_of s ∷ is) ts cur num lo la out f =
      later_part_run is ts (codes "Latitude") num lo la out f
  later_part_run (PartItem.leaf name s ∷ is) ts cur num lo la out f =
      let (c, e) = later_part_run is ts name num lo la out f.1 in
      (c, leaf_skipped name s (part_tokens is ts) true false cur num lo la out f.0 ∙ e)
  later_part_run (PartItem.empty_leaf name ∷ is) ts cur num lo la out f =
      let (c, e) = later_part_run is ts name num lo la out f.1 in
      (c, empty_skipped name (part_tokens is ts) true false cur num lo la out f.0 ∙ e)
  later_part_run (PartItem.space s ∷ is) ts cur num lo la out f =
      later_part_run is ts cur num lo la out f
