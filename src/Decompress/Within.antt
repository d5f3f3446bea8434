-- ===== src/Decompress/Within.antt =====
-- What the header is skipped to lies inside the payload.
use mathlib.Core.Bool.{Bool, true, false, not}
use ns_pixels.Prelude.{
  ℕ, ◌≤◌, ◌<◌, ◌≡◌, ◌≢◌, refl, Option, none, some, List, [], ◌∷◌, arith, if◌then◌else◌, length,
  drop, get_elem?, length-drop, zero, suc, ◌+◌, ◌==◌, ltb, bit_and, Bool-cases, inl, inr, subst,
}
use ns_pixels.Decompress.{
  Skip, at, refuse, panic, then_skip, index, expect, behind_extra, zero_at, skip_extra, skip_text,
  skip_crc, skip_fields, skip_header,
}

-- No panic, and a place inside the payload that is not before `p`.
abbrev pub Within : List ℕ → ℕ → Skip → Type 0
Within buf p k = (k ≢ panic) × ((q : ℕ) → k ≡ at q → (p ≤ q) × (q ≤ length buf))

zero_at_bound : (bs : List ℕ) (n : ℕ) → zero_at bs ≡ some n → n < length bs
unfolding zero_at
zero_at_bound [] n e = absurd (cc)
zero_at_bound (b ∷ bs) n e = go (zero_at bs) refl (zero_at_bound bs)
  where
    go :
        (r : Option ℕ)
        → zero_at bs ≡ r
        → ((m : ℕ) → zero_at bs ≡ some m → m < length bs)
        → n < length (b ∷ bs)
    go none p i = ground arith
    go (some m) p i = ground (arith, i m p)

guard-Within :
    (g : Bool) (buf : List ℕ) (p : ℕ) (k : Skip)
    → (g ≡ false → Within buf p k)
    → Within buf p (if g then refuse else k)
guard-Within true buf p k w = (ground arith, λ q e. absurd (ground arith))
guard-Within false buf p k w = w refl

get_elem?-ne-none : (xs : List ℕ) (i : ℕ) → i < length xs → get_elem? xs i ≢ none
get_elem?-ne-none [] i l e = elim l [ ]
get_elem?-ne-none (x ∷ xs) zero l e = cc
get_elem?-ne-none (x ∷ xs) (suc i) l e = get_elem?-ne-none xs i (omega arith) e

index-Within :
    (buf : List ℕ) (i p : ℕ) (f : ℕ → Skip)
    → i < length buf
    → ((b : ℕ) → Within buf p (f b))
    → Within buf p (index buf i f)
index-Within buf i p f l w = go (get_elem? buf i) refl
  where
    go :
        (o : Option ℕ) → get_elem? buf i ≡ o → Within buf p (elim o [ none ↦ panic | some b ↦ f b ])
    go none e = absurd (get_elem?-ne-none buf i l e)
    go (some b) e = w b

expect-Within :
    (buf : List ℕ) (i want p : ℕ) (rest : Skip)
    → i < length buf
    → Within buf p rest
    → Within buf p (expect buf i want rest)
expect-Within buf i want p rest l w =
    index-Within buf i p (λ b. if not (b == want) then refuse else rest) l
      (λ b. guard-Within (not (b == want)) buf p rest (λ _. w))

skip_extra-Within :
    (flags p : ℕ) (buf : List ℕ) → p ≤ length buf → Within buf p (skip_extra flags buf p)
unfolding skip_extra
skip_extra-Within flags p buf b = elim (Bool-cases (bit_and flags 4 == 0)) [
  | inl no_extra ↦ (ground arith, λ q e. (ground arith, ground arith))
  | inr extra ↦ subst (Within buf p) (ground (arith, extra)) (
      guard-Within (ltb (length buf) (p + 2)) buf p
        (index buf p (λ low. index buf (p + 1) (λ high. behind_extra buf p low high)))
        (λ room. index-Within buf p p _ (ground arith) (λ low.
          index-Within buf (p + 1) p _ (ground arith)
            (λ high. (ground arith, λ q e. (ground arith, ground arith))))))
]

skip_text-Within :
    (flag flags p : ℕ) (buf : List ℕ) → p ≤ length buf → Within buf p (skip_text flag flags buf p)
unfolding skip_text
skip_text-Within flag flags p buf b = go (zero_at (drop p buf)) refl
  where
    go : (r : Option ℕ) → zero_at (drop p buf) ≡ r → Within buf p (skip_text flag flags buf p)
    go none e = (ground arith, λ q x. (ground arith, ground arith))
    go (some n) e =
        let i = zero_at_bound (drop p buf) n e in
        (ground arith, λ q x. (ground arith, ground (arith, i, length-drop p buf)))

skip_crc-Within :
    (flags p : ℕ) (buf : List ℕ) → p ≤ length buf → Within buf p (skip_crc flags buf p)
unfolding skip_crc
skip_crc-Within flags p buf b = (ground arith, λ q e. (ground arith, ground arith))

-- Stages in a row.
then_skip-Within :
    (buf : List ℕ) (p : ℕ) (k : Skip) (f : ℕ → Skip)
    → Within buf p k
    → ((q : ℕ) → q ≤ length buf → Within buf q (f q))
    → Within buf p (then_skip k f)
then_skip-Within buf p (at r) f w g =
    let (i, j) = w.1 r refl in
    let (n, h) = g r j in (n, λ q e. (omega (arith, (h q e).0), (h q e).1))
then_skip-Within buf p refuse f w g = w
then_skip-Within buf p panic f w g = w

-- The header of a payload is skipped without a slice or an index out of range, whatever its bytes are:
-- it is refused, or the body begins behind the ten bytes of the fixed part and inside the payload.
pub skip_header-Within : (buf : List ℕ) → Within buf 10 (skip_header buf)
unfolding skip_header skip_fields
skip_header-Within buf = guard-Within (ltb (length buf) 10) buf 10 _ (λ long.
    let l : 10 ≤ length buf = ground arith in
    expect-Within buf 0 0x1f 10 _ (omega arith) (
      expect-Within buf 1 0x8b 10 _ (omega arith) (
        expect-Within buf 2 8 10 _ (omega arith) (
          index-Within buf 3 10 (λ flags. skip_fields flags buf) (omega arith)
            (λ flags. then_skip-Within buf 10 _ _ (skip_extra-Within flags 10 buf l) (λ p b.
              then_skip-Within buf p _ _ (skip_text-Within 8 flags p buf b) (λ q c.
                then_skip-Within buf q _ _ (skip_text-Within 16 flags q buf c)
                  (λ r d. skip_crc-Within flags r buf d))))))))
