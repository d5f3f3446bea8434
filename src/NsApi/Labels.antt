-- ===== src/NsApi/Labels.antt =====
-- `map_train_type` and `map_category_code`: what the labels of the gateway mean.
use mathlib.Core.Bool.{Bool, true, false, ◌||◌, ◌&&◌}
use mathlib.Core.List.{map-append}
use mathlib.Core.Path.{ap₂}
use ns_pixels.Prelude.{
  ℕ, zero, suc, ◌<◌, ◌≡◌, refl, sym, ap, ◌∙◌, Option, none, some, List, [], ◌∷◌, ◌++◌, map,
  if◌then◌else◌, ◌==◌, length, take, arith, leb, ltb, Bool-cases, inl, inr,
}
use ns_pixels.Prelude.Text.{
  codes, same, trim, trim_start, trim_end, keep, is_whitespace, to_ascii_uppercase, as_bytes,
  encode_utf8,
}
use ns_pixels.Train.{
  TrainType, sng, slt, flirt, icm, ddz, virm, icng, ServiceType, sprinter, intercity,
  intercity_direct,
}

unfoldable pub map_category_code : List ℕ → ServiceType
map_category_code code =
    if same code (codes "SPR")
    then sprinter
    else if same code (codes "IC")
    then intercity
    else if same code (codes "ICD") || same code (codes "ECD")
    then intercity_direct
    else ServiceType.unknown

-- `split(['-', ' ']).next()`: the text before the first of the two.
unfoldable pub head_of : List ℕ → List ℕ
head_of [] = []
head_of (c ∷ s) = if c == b'-' || c == b' ' then [] else c ∷ head_of s

-- The match on the bytes that were copied.
unfoldable pub type_of_bytes : List ℕ → TrainType
type_of_bytes bs =
    if same bs (codes "SNG")
    then sng
    else if same bs (codes "SLT")
    then slt
    else if same bs (codes "FLIRT")
    then flirt
    else if same bs (codes "ICM")
    then icm
    else if same bs (codes "DDZ") || same bs (codes "DDAR")
    then ddz
    else if same bs (codes "VIRM")
    then virm
    else if same bs (codes "ICNG")
    then icng
    else TrainType.unknown

-- At most 16 bytes of the head are copied.
unfoldable pub map_train_type : Option (List ℕ) → TrainType
unfolding head_of type_of_bytes
map_train_type none = TrainType.unknown
map_train_type (some s) =
    type_of_bytes (map to_ascii_uppercase (take 16 (as_bytes (head_of (trim s)))))

-- A text as the gateway may write it: letters in either case.
abbrev pub upper : List ℕ → List ℕ
upper s = map to_ascii_uppercase s

same-take : (n : ℕ) (bs known : List ℕ) → length known < n → same (take n bs) known ≡ same bs known
same-take zero bs known h = absurd (omega arith)
same-take (suc n) [] known h = refl
same-take (suc n) (b ∷ bs) [] h = refl
same-take (suc n) (b ∷ bs) (k ∷ known) h = ground (arith, same-take n bs known (omega arith))

take-upper : (n : ℕ) (bs : List ℕ) → map to_ascii_uppercase (take n bs) ≡ take n (upper bs)
take-upper zero bs = refl
take-upper (suc n) [] = refl
take-upper (suc n) (b ∷ bs) = ap (λ t. to_ascii_uppercase b ∷ t) (take-upper n bs)

type_of_bytes-take : (bs : List ℕ) → type_of_bytes (take 16 bs) ≡ type_of_bytes bs
unfolding type_of_bytes
type_of_bytes-take bs = rw (
  same-take 16 bs (codes "SNG") (omega arith),
  same-take 16 bs (codes "SLT") (omega arith),
  same-take 16 bs (codes "FLIRT") (omega arith),
  same-take 16 bs (codes "ICM") (omega arith),
  same-take 16 bs (codes "DDZ") (omega arith),
  same-take 16 bs (codes "DDAR") (omega arith),
  same-take 16 bs (codes "VIRM") (omega arith),
  same-take 16 bs (codes "ICNG") (omega arith),
)

to_ascii_uppercase_idem : (c : ℕ) → to_ascii_uppercase (to_ascii_uppercase c) ≡ to_ascii_uppercase c
unfolding to_ascii_uppercase
to_ascii_uppercase_idem c = ground arith

is_lower : ℕ → Bool
is_lower c = leb b'a' c && leb c b'z'

lower_is_ascii :
    (c : ℕ) → is_lower c ≡ true → (ltb c 0x80 ≡ true) × (ltb (to_ascii_uppercase c) 0x80 ≡ true)
unfolding to_ascii_uppercase is_lower
lower_is_ascii c e = (ground arith, ground arith)

not_lower : (c : ℕ) → is_lower c ≡ false → to_ascii_uppercase c ≡ c
unfolding to_ascii_uppercase is_lower
not_lower c e = ground arith

-- One character: an ASCII letter is one byte, and no other character changes.
encode_utf8-upper : (c : ℕ) → upper (encode_utf8 (to_ascii_uppercase c)) ≡ upper (encode_utf8 c)
unfolding encode_utf8
encode_utf8-upper c = elim (Bool-cases (is_lower c)) [
  | inl lower ↦ ground (arith, lower_is_ascii c lower, to_ascii_uppercase_idem c)
  | inr other ↦ ap (λ d. upper (encode_utf8 d)) (not_lower c other)
]

as_bytes-upper : (s : List ℕ) → upper (as_bytes (upper s)) ≡ upper (as_bytes s)
unfolding as_bytes
as_bytes-upper [] = refl
as_bytes-upper (c ∷ s) =
    map-append to_ascii_uppercase (encode_utf8 (to_ascii_uppercase c)) (as_bytes (upper s))
    ∙ ap₂ ◌++◌ (encode_utf8-upper c) (as_bytes-upper s)
    ∙ sym (map-append to_ascii_uppercase (encode_utf8 c) (as_bytes s))

head_of-upper : (s : List ℕ) → head_of (upper s) ≡ upper (head_of s)
unfolding head_of to_ascii_uppercase
head_of-upper [] = refl
head_of-upper (c ∷ s) = ground (arith, head_of-upper s)

is_whitespace-upper : (c : ℕ) → is_whitespace (to_ascii_uppercase c) ≡ is_whitespace c
unfolding is_whitespace to_ascii_uppercase is_lower
is_whitespace-upper c = elim (Bool-cases (is_lower c)) [
  | inl lower ↦ ground arith
  | inr other ↦ ground arith
]

keep-upper : (c : ℕ) (s : List ℕ) → keep (to_ascii_uppercase c) (upper s) ≡ upper (keep c s)
keep-upper c [] = ground (arith, is_whitespace-upper c)
keep-upper c (d ∷ s) = refl

trim_end-upper : (s : List ℕ) → trim_end (upper s) ≡ upper (trim_end s)
unfolding trim_end
trim_end-upper [] = refl
trim_end-upper (c ∷ s) =
    ap (keep (to_ascii_uppercase c)) (trim_end-upper s) ∙ keep-upper c (trim_end s)

trim_start-upper : (s : List ℕ) → trim_start (upper s) ≡ upper (trim_start s)
unfolding trim_start
trim_start-upper [] = refl
trim_start-upper (c ∷ s) = ground (arith, is_whitespace-upper c, trim_start-upper s)

trim-upper : (s : List ℕ) → trim (upper s) ≡ upper (trim s)
unfolding trim
trim-upper s = ap trim_end (trim_start-upper s) ∙ trim_end-upper (trim_start s)

-- Without the copy of 16 bytes.
map_train_type_whole :
    (s : List ℕ) → map_train_type (some s) ≡ type_of_bytes (upper (as_bytes (head_of (trim s))))
unfolding map_train_type
map_train_type_whole s =
    ap type_of_bytes (take-upper 16 (as_bytes (head_of (trim s))))
    ∙ type_of_bytes-take (upper (as_bytes (head_of (trim s))))

-- The copy of 16 bytes loses nothing, and the case of the letters does not matter: the type is that of the
-- whole head of the trimmed label, in upper case.
pub map_train_type_equiv :
    (s : List ℕ)
    → (map_train_type (some s) ≡ type_of_bytes (upper (as_bytes (head_of (trim s)))))
      × (map_train_type (some (upper s)) ≡ map_train_type (some s))
map_train_type_equiv s = (
  map_train_type_whole s,
  map_train_type_whole (upper s)
      ∙ ap (λ t. type_of_bytes (upper (as_bytes (head_of t)))) (trim-upper s)
      ∙ ap (λ t. type_of_bytes (upper (as_bytes t))) (head_of-upper (trim s))
      ∙ ap type_of_bytes (as_bytes-upper (head_of (trim s)))
      ∙ sym (map_train_type_whole s),
)
