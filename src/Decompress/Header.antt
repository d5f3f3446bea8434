-- ===== src/Decompress/Header.antt =====
-- The header of RFC 1952, as a gzip writer lays it out, against `skip_header`.
use mathlib.Core.List.{append_assoc}
use ns_pixels.Prelude.{
  ℕ, suc, ◌+◌, ◌/◌, ◌%◌, ◌^◌, ◌<◌, ◌≡◌, ◌≢◌, refl, sym, ap, ◌∙◌, Option, none, some, List, [], ◌∷◌,
  ◌++◌, arith, length, length-append, drop, get_elem?, bit_and, if◌then◌else◌, Bool, true, false,
}
use ns_pixels.Decompress.{
  Skip, at, then_skip, zero_at, skip_extra, skip_text, skip_crc, skip_fields, skip_header,
}

-- The fields of a header: whether the body is said to be text, the four bytes of the time, what the compressor says
-- of itself, and the optional ones.
pub record GzipFields : Type 0 where
  pub is_text : Bool
  pub time : ℕ × ℕ × ℕ × ℕ
  pub extra_flags : ℕ
  pub os : ℕ
  pub extra : Option (List ℕ)
  pub name : Option (List ℕ)
  pub comment : Option (List ℕ)
  pub crc : Option (ℕ × ℕ)

abbrev flag_of : {A : Type 0} → ℕ → Option A → ℕ
flag_of f none = 0
flag_of f (some x) = f

abbrev flags_of : GzipFields → ℕ
flags_of g =
    (if g.is_text then 1 else 0)
    + flag_of 2 g.crc
    + (flag_of 4 g.extra + (flag_of 8 g.name + flag_of 16 g.comment))

abbrev extra_bytes : Option (List ℕ) → List ℕ
extra_bytes none = []
extra_bytes (some x) = (length x % 256) ∷ (length x / 256) ∷ x

abbrev text_bytes : Option (List ℕ) → List ℕ
text_bytes none = []
text_bytes (some t) = t ++ 0 ∷ []

abbrev crc_bytes : Option (ℕ × ℕ) → List ℕ
crc_bytes none = []
crc_bytes (some (a, b)) = a ∷ b ∷ []

-- The fixed part with deflate as its method.
abbrev pub fixed_bytes : GzipFields → List ℕ
fixed_bytes g =
    0x1f
    ∷ 0x8b
    ∷ 8
    ∷ flags_of g
    ∷ g.time.0
    ∷ g.time.1
    ∷ g.time.2
    ∷ g.time.3
    ∷ g.extra_flags
    ∷ g.os
    ∷ []

-- The fixed part, then the fields in their order.
abbrev pub header_bytes : GzipFields → List ℕ
header_bytes g =
    fixed_bytes g
    ++ extra_bytes g.extra
    ++ text_bytes g.name
    ++ text_bytes g.comment
    ++ crc_bytes g.crc

-- A text has no zero byte.
abbrev pub NoZero : List ℕ → Type 0
NoZero [] = Unit
NoZero (b ∷ bs) = (b ≢ 0) × NoZero bs

abbrev pub Plain : Option (List ℕ) → Type 0
Plain none = Unit
Plain (some t) = NoZero t

abbrev pub Short : Option (List ℕ) → Type 0
Short none = Unit
Short (some x) = length x < 2 ^ 16

zero_at_end : (t rest : List ℕ) → NoZero t → zero_at (t ++ 0 ∷ [] ++ rest) ≡ some (length t)
unfolding zero_at
zero_at_end [] rest p = refl
zero_at_end (b ∷ t) rest p = ground (arith, p.0, zero_at_end t rest p.1)

drop-append : (pre rest : List ℕ) → drop (length pre) (pre ++ rest) ≡ rest
drop-append [] rest = refl
drop-append (b ∷ pre) rest = drop-append pre rest

get_elem?-append :
    (pre rest : List ℕ) (k : ℕ) → get_elem? (pre ++ rest) (length pre + k) ≡ get_elem? rest k
get_elem?-append [] rest k = ground arith
get_elem?-append (b ∷ pre) rest k =
    let e : suc (length pre) + k ≡ suc (length pre + k) = omega arith in
    ap (λ i. get_elem? (b ∷ (pre ++ rest)) i) e ∙ get_elem?-append pre rest k

skip_extra_run :
    (flags : ℕ) (x : Option (List ℕ)) (pre rest : List ℕ)
    → bit_and flags 4 ≡ flag_of 4 x
    → Short x
    → skip_extra flags (pre ++ (extra_bytes x ++ rest)) (length pre)
      ≡ at (length pre + length (extra_bytes x))
unfolding skip_extra
skip_extra_run flags none pre rest f s = ground arith
skip_extra_run flags (some x) pre rest f s =
    let here : get_elem? (pre ++ (extra_bytes (some x) ++ rest)) (length pre)
        ≡ some (length x % 256) =
      ap (get_elem? (pre ++ (extra_bytes (some x) ++ rest))) {x = length pre} {y = length pre + 0}
        (omega arith)
      ∙ get_elem?-append pre (extra_bytes (some x) ++ rest) 0 in
    ground (
      arith,
      length-append pre (extra_bytes (some x) ++ rest),
      length-append x rest,
      here,
      get_elem?-append pre (extra_bytes (some x) ++ rest) 1,
    )

skip_text_run :
    (flag flags : ℕ) (x : Option (List ℕ)) (pre rest : List ℕ)
    → bit_and flags flag ≡ flag_of flag x
    → flag ≢ 0
    → Plain x
    → skip_text flag flags (pre ++ (text_bytes x ++ rest)) (length pre)
      ≡ at (length pre + length (text_bytes x))
unfolding skip_text
skip_text_run flag flags none pre rest f n s = ground arith
skip_text_run flag flags (some x) pre rest f n s = ground (
  arith,
  length-append pre (text_bytes (some x) ++ rest),
  drop-append pre (text_bytes (some x) ++ rest),
  append_assoc x (0 ∷ []) rest,
  zero_at_end x rest s,
  length-append x (0 ∷ []),
)

skip_crc_run :
    (flags : ℕ) (x : Option (ℕ × ℕ)) (pre rest : List ℕ)
    → bit_and flags 2 ≡ flag_of 2 x
    → skip_crc flags (pre ++ (crc_bytes x ++ rest)) (length pre)
      ≡ at (length pre + length (crc_bytes x))
unfolding skip_crc
skip_crc_run flags none pre rest f = ground arith
skip_crc_run flags (some (a, b)) pre rest f = ground (arith, length-append pre (a ∷ b ∷ rest))

-- The sum of the flags has the bit of each field.
flags_bits :
    (g : GzipFields)
    → (bit_and (flags_of g) 2 ≡ flag_of 2 g.crc)
      × (bit_and (flags_of g) 4 ≡ flag_of 4 g.extra)
      × (bit_and (flags_of g) 8 ≡ flag_of 8 g.name)
      × (bit_and (flags_of g) 16 ≡ flag_of 16 g.comment)
flags_bits g = go g.is_text g.crc g.extra g.name g.comment
  where
    go :
        {A B C D : Type 0} (t : Bool) (r : Option A) (x : Option B) (n : Option C) (m : Option D)
        → let f =
            (if t then 1 else 0) + flag_of 2 r + (flag_of 4 x + (flag_of 8 n + flag_of 16 m)) in
          (bit_and f 2 ≡ flag_of 2 r)
          × (bit_and f 4 ≡ flag_of 4 x)
          × (bit_and f 8 ≡ flag_of 8 n)
          × (bit_and f 16 ≡ flag_of 16 m)
    go false none none none none = (refl, refl, refl, refl)
    go false none none none (some m) = (refl, refl, refl, refl)
    go false none none (some n) none = (refl, refl, refl, refl)
    go false none none (some n) (some m) = (refl, refl, refl, refl)
    go false none (some x) none none = (refl, refl, refl, refl)
    go false none (some x) none (some m) = (refl, refl, refl, refl)
    go false none (some x) (some n) none = (refl, refl, refl, refl)
    go false none (some x) (some n) (some m) = (refl, refl, refl, refl)
    go false (some r) none none none = (refl, refl, refl, refl)
    go false (some r) none none (some m) = (refl, refl, refl, refl)
    go false (some r) none (some n) none = (refl, refl, refl, refl)
    go false (some r) none (some n) (some m) = (refl, refl, refl, refl)
    go false (some r) (some x) none none = (refl, refl, refl, refl)
    go false (some r) (some x) none (some m) = (refl, refl, refl, refl)
    go false (some r) (some x) (some n) none = (refl, refl, refl, refl)
    go false (some r) (some x) (some n) (some m) = (refl, refl, refl, refl)
    go true none none none none = (refl, refl, refl, refl)
    go true none none none (some m) = (refl, refl, refl, refl)
    go true none none (some n) none = (refl, refl, refl, refl)
    go true none none (some n) (some m) = (refl, refl, refl, refl)
    go true none (some x) none none = (refl, refl, refl, refl)
    go true none (some x) none (some m) = (refl, refl, refl, refl)
    go true none (some x) (some n) none = (refl, refl, refl, refl)
    go true none (some x) (some n) (some m) = (refl, refl, refl, refl)
    go true (some r) none none none = (refl, refl, refl, refl)
    go true (some r) none none (some m) = (refl, refl, refl, refl)
    go true (some r) none (some n) none = (refl, refl, refl, refl)
    go true (some r) none (some n) (some m) = (refl, refl, refl, refl)
    go true (some r) (some x) none none = (refl, refl, refl, refl)
    go true (some r) (some x) none (some m) = (refl, refl, refl, refl)
    go true (some r) (some x) (some n) none = (refl, refl, refl, refl)
    go true (some r) (some x) (some n) (some m) = (refl, refl, refl, refl)

abbrev after_name : ℕ → List ℕ → ℕ → Skip
after_name flags buf q = then_skip (skip_text 16 flags buf q) (λ r. skip_crc flags buf r)

abbrev after_extra : ℕ → List ℕ → ℕ → Skip
after_extra flags buf p = then_skip (skip_text 8 flags buf p) (λ q. after_name flags buf q)

-- The fixed part is accepted, whatever the time and the last two bytes are.
opened :
    (g : GzipFields) (tail : List ℕ)
    → skip_header (fixed_bytes g ++ tail)
      ≡ then_skip
          (skip_extra (flags_of g) (fixed_bytes g ++ tail) 10)
          (λ p. after_extra (flags_of g) (fixed_bytes g ++ tail) p)
unfolding skip_header skip_fields
opened g tail = ground arith

-- The header of a gzip file, whatever its time, with FTEXT or not and with any of the optional fields, is skipped
-- up to the first byte of the body and no further. The extra field is shorter than 2 ^ 16, and the texts have no
-- zero byte.
pub skip_header_run :
    (g : GzipFields) (body : List ℕ)
    → Short g.extra
    → Plain g.name
    → Plain g.comment
    → skip_header (header_bytes g ++ body) ≡ at (length (header_bytes g))
skip_header_run g body sh pn pc =
    let flags : ℕ = flags_of g in
    let (f2, f4, f8, f16) = flags_bits g in
    let fixed : List ℕ = fixed_bytes g in
    let x : List ℕ = extra_bytes g.extra in
    let n : List ℕ = text_bytes g.name in
    let m : List ℕ = text_bytes g.comment in
    let r : List ℕ = crc_bytes g.crc in
    let buf : List ℕ = fixed ++ x ++ n ++ m ++ r ++ body in
    let e4 : buf ≡ fixed ++ x ++ n ++ m ++ (r ++ body) =
      append_assoc (fixed ++ x ++ n ++ m) r body in
    let e3 : buf ≡ fixed ++ x ++ n ++ (m ++ (r ++ body)) =
      e4 ∙ append_assoc (fixed ++ x ++ n) m (r ++ body) in
    let e2 : buf ≡ fixed ++ x ++ (n ++ (m ++ (r ++ body))) =
      e3 ∙ append_assoc (fixed ++ x) n (m ++ (r ++ body)) in
    let e1 : buf ≡ fixed ++ (x ++ (n ++ (m ++ (r ++ body)))) =
      e2 ∙ append_assoc fixed x (n ++ (m ++ (r ++ body))) in
    let s1 = skip_extra_run flags g.extra fixed (n ++ (m ++ (r ++ body))) f4 sh in
    let s2 = skip_text_run 8 flags g.name (fixed ++ x) (m ++ (r ++ body)) f8 (omega arith) pn in
    let s3 = skip_text_run 16 flags g.comment (fixed ++ x ++ n) (r ++ body) f16 (omega arith) pc in
    let s4 = skip_crc_run flags g.crc (fixed ++ x ++ n ++ m) body f2 in
    let l1 = length-append fixed x in
    let l2 = length-append (fixed ++ x) n in
    let l3 = length-append (fixed ++ x ++ n) m in
    let l4 = length-append (fixed ++ x ++ n ++ m) r in
    let t1 : skip_extra flags buf 10 ≡ at (length (fixed ++ x)) =
      ap (λ b. skip_extra flags b 10) e1 ∙ s1 ∙ ap at (sym l1) in
    let t2 : skip_text 8 flags buf (length (fixed ++ x)) ≡ at (length (fixed ++ x ++ n)) =
      ap (λ b. skip_text 8 flags b (length (fixed ++ x))) e2 ∙ s2 ∙ ap at (sym l2) in
    let t3 : skip_text 16 flags buf (length (fixed ++ x ++ n))
        ≡ at (length (fixed ++ x ++ n ++ m)) =
      ap (λ b. skip_text 16 flags b (length (fixed ++ x ++ n))) e3 ∙ s3 ∙ ap at (sym l3) in
    let t4 : skip_crc flags buf (length (fixed ++ x ++ n ++ m))
        ≡ at (length (fixed ++ x ++ n ++ m ++ r)) =
      ap (λ b. skip_crc flags b (length (fixed ++ x ++ n ++ m))) e4 ∙ s4 ∙ ap at (sym l4) in
    opened g (x ++ n ++ m ++ r ++ body)
    ∙ ap (λ k. then_skip k (λ p. after_extra flags buf p)) t1
    ∙ ap (λ k. then_skip k (λ q. after_name flags buf q)) t2
    ∙ ap (λ k. then_skip k (λ q. skip_crc flags buf q)) t3
    ∙ t4
