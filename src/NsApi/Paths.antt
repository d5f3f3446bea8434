-- ===== src/NsApi/Paths.antt =====
-- The request path of a batch: what is written into the bounded string, and that it holds all of it.
use mathlib.Core.Bool.{Bool, true, false}
use mathlib.Core.List.{append_assoc, append-nil}
use mathlib.Core.Path.{ap₂}
use ns_pixels.Prelude.{
  ℕ, ◌+◌, ◌*◌, ◌^◌, ◌≤◌, ◌<◌, ◌≡◌, refl, sym, ap, ◌∙◌, Option, some, List, [], ◌∷◌, ◌++◌,
  if◌then◌else◌, ◌==◌, leb, length, length-append, arith, drop, map,
}
use ns_pixels.Prelude.Text.{codes, parse_u32}
use ns_pixels.Prelude.Decimal.{
  u32_text, length-u32_text, Digits, u32_text-Digits, parse_u32-u32_text,
}

-- `push_str` of a string of bounded capacity: a text that does not fit is left out.
unfoldable pub push_str : ℕ → List ℕ → List ℕ → List ℕ
push_str cap path s = if leb (length path + length s) cap then path ++ s else path

abbrev pub types_prefix : List ℕ
types_prefix = codes "/virtual-train-api/v1/trein?ids="

-- The loop over the batch, with whether an id went before.
unfoldable pub push_ids : Bool → List ℕ → List ℕ → List ℕ
unfolding push_str
push_ids later [] path = path
push_ids false (n ∷ ns) path = push_ids true ns (push_str 160 path (u32_text n))
push_ids true (n ∷ ns) path =
    push_ids true ns (push_str 160 (push_str 160 path (b',' ∷ [])) (u32_text n))

unfoldable pub types_path : List ℕ → List ℕ
unfolding push_ids
types_path batch = push_ids false batch (push_str 160 [] types_prefix)

unfoldable pub service_path : ℕ → List ℕ
unfolding push_str
service_path number =
    push_str 128 (push_str 128 [] (codes "/reisinformatie-api/api/v2/journey?train="))
      (u32_text number)

-- The ids with a comma between them, as they are to be read back.
pub ids_text : Bool → List ℕ → List ℕ
ids_text later [] = []
ids_text false (n ∷ ns) = u32_text n ++ ids_text true ns
ids_text true (n ∷ ns) = (b',' ∷ u32_text n) ++ ids_text true ns

-- Reading the ids back: the texts between commas.
cut : List ℕ → List ℕ × List (List ℕ)
cut [] = ([], [])
cut (c ∷ s) = let rest = cut s in if c == b',' then ([], rest.0 ∷ rest.1) else (c ∷ rest.0, rest.1)

unfoldable pub pieces : List ℕ → List (List ℕ)
unfolding cut
pieces s = (cut s).0 ∷ (cut s).1

cut-Digits : (s t : List ℕ) → Digits s → cut (s ++ t) ≡ (s ++ (cut t).0, (cut t).1)
unfolding cut
cut-Digits [] t p = refl
cut-Digits (c ∷ s) t p = ground (arith, p.0, p.1, cut-Digits s t p.2)

texts_of : List ℕ → List (List ℕ)
texts_of [] = []
texts_of (n ∷ ns) = u32_text n ∷ texts_of ns

cut-ids : (ns : List ℕ) → cut (ids_text true ns) ≡ ([], texts_of ns)
unfolding cut texts_of ids_text
cut-ids [] = refl
cut-ids (n ∷ ns) = ground (
  arith,
  cut-Digits (u32_text n) (ids_text true ns) (u32_text-Digits n),
  cut-ids ns,
  append-nil (u32_text n),
)

length-ids_text : (ns : List ℕ) → length (ids_text true ns) ≤ length ns * 11
unfolding ids_text
length-ids_text [] = omega arith
length-ids_text (n ∷ ns) = omega (
  arith,
  length-append (b',' ∷ u32_text n) (ids_text true ns),
  length-u32_text n,
  length-ids_text ns,
)

push_str_room :
    (cap : ℕ) (path s : List ℕ) → length path + length s ≤ cap → push_str cap path s ≡ path ++ s
unfolding push_str
push_str_room cap path s b = ground arith

-- While there is room, the loop appends the text of the ids.
push_ids_room :
    (later : Bool) (ns path : List ℕ)
    → length path + length ns * 11 ≤ 160
    → push_ids later ns path ≡ path ++ ids_text later ns
unfolding push_ids ids_text
push_ids_room later [] path b = sym (append-nil path)
push_ids_room false (n ∷ ns) path b =
    ap (push_ids true ns) (push_str_room 160 path (u32_text n) (omega (arith, length-u32_text n)))
    ∙ push_ids_room true ns (path ++ u32_text n)
        (omega (arith, length-append path (u32_text n), length-u32_text n))
    ∙ append_assoc path (u32_text n) (ids_text true ns)
push_ids_room true (n ∷ ns) path b =
    let comma = push_str_room 160 path (b',' ∷ []) (omega arith) in
    let whole : push_str 160 (path ++ b',' ∷ []) (u32_text n) ≡ path ++ (b',' ∷ u32_text n) =
      push_str_room 160 (path ++ b',' ∷ []) (u32_text n)
        (omega (arith, length-append path (b',' ∷ []), length-u32_text n))
      ∙ append_assoc path (b',' ∷ []) (u32_text n) in
    ap (λ p. push_ids true ns (push_str 160 p (u32_text n))) comma
    ∙ ap (push_ids true ns) whole
    ∙ push_ids_room true ns (path ++ (b',' ∷ u32_text n))
        (omega (arith, length-append path (b',' ∷ u32_text n), length-u32_text n))
    ∙ append_assoc path (b',' ∷ u32_text n) (ids_text true ns)

types_path_room : (ns : List ℕ) → length ns ≤ 8 → types_path ns ≡ types_prefix ++ ids_text false ns
unfolding types_path push_str
types_path_room ns b = push_ids_room false ns types_prefix (omega arith)

abbrev pub AllU32 : List ℕ → Type 0
AllU32 [] = Unit
AllU32 (n ∷ ns) = (n < 2 ^ 32) × AllU32 ns

abbrev pub read_all : List (List ℕ) → List (Option ℕ)
read_all [] = []
read_all (s ∷ ss) = parse_u32 s ∷ read_all ss

read_all-texts_of : (ns : List ℕ) → AllU32 ns → read_all (texts_of ns) ≡ map some ns
unfolding texts_of
read_all-texts_of [] p = refl
read_all-texts_of (n ∷ ns) p = ap₂ ◌∷◌ (parse_u32-u32_text n p.0) (read_all-texts_of ns p.1)

pieces-ids_text :
    (n : ℕ) (ns : List ℕ) → pieces (ids_text false (n ∷ ns)) ≡ u32_text n ∷ texts_of ns
unfolding pieces ids_text
pieces-ids_text n ns = ground (
  arith,
  cut-Digits (u32_text n) (ids_text true ns) (u32_text-Digits n),
  cut-ids ns,
  append-nil (u32_text n),
)

-- The path of a batch of one to eight train numbers loses none of them: what stands behind the endpoint,
-- cut at its commas and read as numbers, is the batch, in its order.
pub types_path_ids :
    (n : ℕ) (ns : List ℕ)
    → length ns < 8
    → AllU32 (n ∷ ns)
    → read_all (pieces (drop (length types_prefix) (types_path (n ∷ ns)))) ≡ map some (n ∷ ns)
types_path_ids n ns b all =
    ap (λ p. read_all (pieces (drop (length types_prefix) p)))
      (types_path_room (n ∷ ns) (omega arith))
    ∙ ap read_all (pieces-ids_text n ns)
    ∙ ap₂ ◌∷◌ (parse_u32-u32_text n all.0) (read_all-texts_of ns all.1)
