-- ===== src/XmlParser/Locations.antt =====
-- The walk through whole documents gives the trains of their locations.
use mathlib.Core.List.{append_assoc, append-nil}
use ns_pixels.Prelude.{
  ℕ, ◌≡◌, refl, ap, sym, ◌∙◌, Bool, true, false, Option, none, some, List, [], ◌∷◌, ◌++◌,
}
use ns_pixels.Prelude.Text.{codes, parse_u32}
use ns_pixels.XmlParser.{
  Token, element_start, text, end_open, end_close, end_empty, other, name_of, Walk, Train, nothing,
  start_walk, start_named, end_named, on_text, on_token, walk, parse, flatten,
}
use ns_pixels.XmlParser.Document.{
  LocationItem, number_of, part, DocumentItem, location, around, part_tokens, location_tokens,
  document_tokens, LocationItemsFit, Quiet, DocumentFits, last_number, first_part, last_lon,
  last_lat, value_of, train_of, trains_of,
}
use ns_pixels.XmlParser.Parts.{
  within, attributes_skipped, leaf_skipped, empty_skipped, first_part_run, later_part_run,
}

-- What the tokenizer yields without an error.
abbrev pub yielded : List Token → List (Option Token)
yielded [] = []
yielded (t ∷ ts) = some t ∷ yielded ts

module _ {F : Type 0} (parse_f32 : List ℕ → Option F) where
  flatten-yielded : (ts : List Token) → flatten parse_f32 (yielded ts) ≡ ts
  unfolding flatten
  flatten-yielded [] = refl
  flatten-yielded (t ∷ ts) = ap (λ us. t ∷ us) (flatten-yielded ts)

  -- Behind the first part, only numbers are taken.
  behind_first_part :
      (is : List LocationItem) (ts : List Token) (cur : List ℕ) (num lo la : Option (List ℕ))
      (out : List (Train F))
      → LocationItemsFit is
      → (cur' : List ℕ) × (walk parse_f32
            (location_tokens is ts)
            (within parse_f32 true false cur num lo la out)
          ≡ walk parse_f32 ts (within parse_f32 true false cur' (last_number is num) lo la out))
  unfolding walk on_token on_text start_named end_named name_of
  behind_first_part [] ts cur num lo la out f = (cur, refl)
  behind_first_part (number_of s ∷ is) ts cur num lo la out f =
      behind_first_part is ts (codes "TreinNummer") (some s) lo la out f
  behind_first_part (part n ps ∷ is) ts cur num lo la out f =
      let delen : List ℕ = codes "TreinMaterieelDelen" in
      let rest : List Token = end_close delen ∷ location_tokens is ts in
      let (c, e) = later_part_run parse_f32 ps rest delen num lo la out f.0 in
      let (d, g) = behind_first_part is ts c num lo la out f.1 in
      (
        d,
        attributes_skipped parse_f32 n (end_open ∷ part_tokens ps rest)
              (within parse_f32 true false delen num lo la out)
            ∙ e
            ∙ g,
      )
  behind_first_part (LocationItem.leaf name s ∷ is) ts cur num lo la out f =
      let (c, e) = behind_first_part is ts name num lo la out f.1 in
      (
        c,
        leaf_skipped parse_f32 name s (location_tokens is ts) true false cur num lo la out f.0 ∙ e,
      )
  behind_first_part (LocationItem.empty_leaf name ∷ is) ts cur num lo la out f =
      let (c, e) = behind_first_part is ts name num lo la out f.1 in
      (c, empty_skipped parse_f32 name (location_tokens is ts) true false cur num lo la out f.0 ∙ e)
  behind_first_part (LocationItem.space s ∷ is) ts cur num lo la out f =
      behind_first_part is ts cur num lo la out f

  -- A location, from its first item to its end.
  location_run :
      (is : List LocationItem) (ts : List Token) (cur : List ℕ) (num : Option (List ℕ))
      (out : List (Train F))
      → LocationItemsFit is
      → (seen : Bool) × (cur' : List ℕ) × (walk parse_f32
            (location_tokens is ts)
            (within parse_f32 false false cur num none none out)
          ≡ walk parse_f32 ts (
              within parse_f32 seen false cur'
                (last_number is num)
                (last_lon (first_part is) none)
                (last_lat (first_part is) none)
                out))
  unfolding walk on_token on_text start_named end_named name_of
  location_run [] ts cur num out f = (false, cur, refl)
  location_run (number_of s ∷ is) ts cur num out f =
      location_run is ts (codes "TreinNummer") (some s) out f
  location_run (part n ps ∷ is) ts cur num out f =
      let delen : List ℕ = codes "TreinMaterieelDelen" in
      let rest : List Token = end_close delen ∷ location_tokens is ts in
      let (c, e) = first_part_run parse_f32 ps rest delen num none none out f.0 in
      let (d, g) = behind_first_part is ts c num (last_lon ps none) (last_lat ps none) out f.1 in
      (
        true,
        d,
        attributes_skipped parse_f32 n (end_open ∷ part_tokens ps rest)
              (within parse_f32 true true delen num none none out)
            ∙ e
            ∙ g,
      )
  location_run (LocationItem.leaf name s ∷ is) ts cur num out f =
      let (b, c, e) = location_run is ts name num out f.1 in
      (
        b,
        c,
        leaf_skipped parse_f32 name s (location_tokens is ts) false false cur num none none out f.0
            ∙ e,
      )
  location_run (LocationItem.empty_leaf name ∷ is) ts cur num out f =
      let (b, c, e) = location_run is ts name num out f.1 in
      (
        b,
        c,
        empty_skipped parse_f32 name (location_tokens is ts) false false cur num none none out f.0
            ∙ e,
      )
  location_run (LocationItem.space s ∷ is) ts cur num out f = location_run is ts cur num out f

  -- The walk between locations.
  abbrev outside : List ℕ → Option ℕ → Option F → Option F → List (Train F) → Walk F
  outside cur n lo la out = record {
    in_treinloc = false;
    seen_first_part = false;
    in_first_part = false;
    capture = nothing;
    current_local = cur;
    nummer = n;
    lon = lo;
    lat = la;
    out = out;
  }

  Quiet-skipped :
      (t : Token) (ts : List Token) (cur : List ℕ) (n : Option ℕ) (lo la : Option F)
      (out : List (Train F))
      → Quiet t
      → (cur' : List ℕ) × (walk parse_f32 (t ∷ ts) (outside cur n lo la out)
          ≡ walk parse_f32 ts (outside cur' n lo la out))
  unfolding walk on_token on_text start_named end_named
  Quiet-skipped (element_start name) ts cur n lo la out q =
      (name, ap (λ k. walk parse_f32 ts (start_named F k (outside name n lo la out))) q)
  Quiet-skipped (end_close name) ts cur n lo la out q =
      (cur, ap (λ k. walk parse_f32 ts (end_named F k (outside cur n lo la out))) q)
  Quiet-skipped end_empty ts cur n lo la out q = elim q [ ]
  Quiet-skipped (text s) ts cur n lo la out q = (cur, refl)
  Quiet-skipped end_open ts cur n lo la out q = (cur, refl)
  Quiet-skipped other ts cur n lo la out q = (cur, refl)

  document_run :
      (ds : List DocumentItem) (cur : List ℕ) (n : Option ℕ) (lo la : Option F)
      (out : List (Train F))
      → DocumentFits ds
      → (walk parse_f32 (document_tokens ds) (outside cur n lo la out)).out
        ≡ out ++ trains_of parse_f32 ds
  unfolding walk on_token on_text start_named end_named name_of
  document_run [] cur n lo la out f = sym (append-nil out)
  document_run (around t ∷ ds) cur n lo la out f =
      let (c, e) = Quiet-skipped t (document_tokens ds) cur n lo la out f.0 in
      ap (λ w. w.out) e ∙ document_run ds c n lo la out f.1
  document_run (location k is ∷ ds) cur n lo la out f =
      let loc : List ℕ = codes "TreinLocation" in
      let rest : List Token = end_close loc ∷ document_tokens ds in
      let (b, c, e) = location_run is rest loc none out f.0 in
      ap (λ w. w.out)
        (attributes_skipped parse_f32 k (end_open ∷ location_tokens is rest)
            (within parse_f32 false false loc none none none out)
          ∙ e)
      ∙ document_run ds c (value_of parse_u32 (last_number is none))
          (value_of parse_f32 (last_lon (first_part is) none))
          (value_of parse_f32 (last_lat (first_part is) none)) (out ++ train_of parse_f32 is) f.1
      ∙ append_assoc out (train_of parse_f32 is) (trains_of parse_f32 ds)

  -- A document whose tokens come through hands out the train of each location, in their order: the last
  -- number of the location with the last coordinates of its first part, when all three can be read.
  -- Other elements, later parts and space change nothing, and neither do comments between the locations.
  -- Other elements have a text or none, and names of their own; a location has no comment inside it.
  pub parse_document :
      (ds : List DocumentItem)
      → DocumentFits ds
      → parse parse_f32 (yielded (document_tokens ds)) ≡ trains_of parse_f32 ds
  unfolding parse
  parse_document ds f =
      ap (λ ts. (walk parse_f32 ts (start_walk F)).out) (flatten-yielded (document_tokens ds))
      ∙ document_run ds [] none none none [] f
