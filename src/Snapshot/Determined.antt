-- ===== src/Snapshot/Determined.antt =====
-- Entries in strictly ascending order are determined by what they show.
use mathlib.Core.Bool.{Bool, true, false, ◌&&◌, not}
use ns_pixels.Prelude.{
  ℕ, ◌≤◌, ◌<◌, ◌≡◌, refl, sym, ap, ◌∙◌, inl, inr, List, [], ◌∷◌, arith, ltb, ◌==◌, Bool-cases,
}
use ns_pixels.Prelude.Bits.{bit, bit-le-one}
use ns_pixels.Prelude.Masks.{bits_equal, some_bit}
use ns_pixels.Train.{PixelData}
use ns_pixels.Snapshot.Content.{any, shows, StrictlyAscending}

-- The masks are bytes, and an entry has some train type.
abbrev pub is_entry : PixelData → Bool
is_entry e = ltb 0 e.types && ltb e.types 256 && ltb e.services 256

abbrev pub Entries : List PixelData → Type 0
Entries xs = any (λ e. not (is_entry e)) xs ≡ false

-- Two lists show the same in a mask.
abbrev pub Agree : (PixelData → ℕ) → List PixelData → List PixelData → Type 0
Agree f xs ys = (k i : ℕ) → any (shows f k i) xs ≡ any (shows f k i) ys

tail-StrictlyAscending :
    (x : PixelData) (xs : List PixelData) → StrictlyAscending (x ∷ xs) → StrictlyAscending xs
tail-StrictlyAscending x [] s = tt
tail-StrictlyAscending x (y ∷ xs) s = s.1

none_behind :
    (f : PixelData → ℕ) (x : PixelData) (xs : List PixelData) (k i : ℕ)
    → StrictlyAscending (x ∷ xs)
    → k ≤ x.coord_key
    → any (shows f k i) xs ≡ false
none_behind f x [] k i s h = refl
none_behind f x (y ∷ xs) k i s h =
    ground (arith, s.0, none_behind f y xs k i s.1 (omega (arith, s.0)))

none_before :
    (f : PixelData → ℕ) (x : PixelData) (xs : List PixelData) (k i : ℕ)
    → StrictlyAscending (x ∷ xs)
    → k < x.coord_key
    → any (shows f k i) (x ∷ xs) ≡ false
none_before f x xs k i s h = ground (arith, none_behind f x xs k i s (omega arith))

shown_first :
    (f : PixelData → ℕ) (x : PixelData) (xs : List PixelData) (i : ℕ)
    → StrictlyAscending (x ∷ xs)
    → any (shows f x.coord_key i) (x ∷ xs) ≡ (bit i (f x) == 1)
shown_first f x xs i s = ground (arith, none_behind f x xs x.coord_key i s (omega arith))

-- An entry has a bit, so it shows at its key.
types_shown :
    (x : PixelData) (xs : List PixelData)
    → StrictlyAscending (x ∷ xs)
    → is_entry x ≡ true
    → (i : ℕ) × (any (shows (λ e. e.types) x.coord_key i) (x ∷ xs) ≡ true)
types_shown x xs s e =
    let (i, has) = some_bit 8 x.types (ground arith) (ground arith) in
    (i, shown_first (λ e. e.types) x xs i s ∙ ground (arith, has))

mask_equal :
    (f : PixelData → ℕ) (x y : PixelData) (xs ys : List PixelData)
    → StrictlyAscending (x ∷ xs)
    → StrictlyAscending (y ∷ ys)
    → x.coord_key ≡ y.coord_key
    → f x < 256
    → f y < 256
    → Agree f (x ∷ xs) (y ∷ ys)
    → f x ≡ f y
mask_equal f x y xs ys s t e bx by a = bits_equal 8 (f x) (f y) bx by (λ i.
    let same : (bit i (f x) == 1) ≡ (bit i (f y) == 1) =
      sym (shown_first f x xs i s)
      ∙ a x.coord_key i
      ∙ ap (λ (k : ℕ). any (shows f k i) (y ∷ ys)) e
      ∙ shown_first f y ys i t in
    ground (arith, same, bit-le-one i (f x), bit-le-one i (f y)))

tail-Agree :
    (f : PixelData → ℕ) (x y : PixelData) (xs ys : List PixelData)
    → StrictlyAscending (x ∷ xs)
    → StrictlyAscending (y ∷ ys)
    → x.coord_key ≡ y.coord_key
    → Agree f (x ∷ xs) (y ∷ ys)
    → Agree f xs ys
tail-Agree f x y xs ys s t e a k i = elim (Bool-cases (x.coord_key == k)) [
  | inl here ↦
      none_behind f x xs k i s (ground arith) ∙ sym (none_behind f y ys k i t (ground arith))
  | inr there ↦ ground (arith, a k i, there, e)
]

first_not_before :
    (x y : PixelData) (xs ys : List PixelData)
    → StrictlyAscending (x ∷ xs)
    → StrictlyAscending (y ∷ ys)
    → is_entry x ≡ true
    → Agree (λ e. e.types) (x ∷ xs) (y ∷ ys)
    → y.coord_key ≤ x.coord_key
first_not_before x y xs ys s t e a = elim (Bool-cases (ltb x.coord_key y.coord_key)) [
  | inl before ↦
      let (i, shown) = types_shown x xs s e in
      absurd (
        ground (
          arith,
          shown,
          a x.coord_key i,
          none_before (λ e. e.types) y ys x.coord_key i t (ground (arith, before)),
        ))
  | inr not_before ↦ ground (arith, not_before)
]

entries_equal :
    (x y : PixelData)
    → x.coord_key ≡ y.coord_key
    → x.types ≡ y.types
    → x.services ≡ y.services
    → x ≡ y
entries_equal x y e f g = ground (arith, e, f, g)

pub determined :
    (xs ys : List PixelData)
    → StrictlyAscending xs
    → StrictlyAscending ys
    → Entries xs
    → Entries ys
    → Agree (λ e. e.types) xs ys
    → Agree (λ e. e.services) xs ys
    → xs ≡ ys
determined [] [] s t e f a b = refl
determined [] (y ∷ ys) s t e f a b =
    let (i, shown) = types_shown y ys t (ground arith) in
    absurd (ground (arith, shown, a y.coord_key i))
determined (x ∷ xs) [] s t e f a b =
    let (i, shown) = types_shown x xs s (ground arith) in
    absurd (ground (arith, shown, a x.coord_key i))
determined (x ∷ xs) (y ∷ ys) s t e f a b =
    let ex : is_entry x ≡ true = ground (arith, e) in
    let ey : is_entry y ≡ true = ground (arith, f) in
    let le = first_not_before x y xs ys s t ex a in
    let ge = first_not_before y x ys xs t s ey (λ k i. sym (a k i)) in
    let key : x.coord_key ≡ y.coord_key = omega arith in
    let head : x ≡ y =
      entries_equal x y key
        (mask_equal (λ e. e.types) x y xs ys s t key (ground (arith, ex)) (ground (arith, ey)) a)
        (mask_equal (λ e. e.services) x y xs ys s t key (ground (arith, ex)) (ground (arith, ey))
          b) in
    let rest =
      determined xs ys (tail-StrictlyAscending x xs s) (tail-StrictlyAscending y ys t)
        (ground (arith, e)) (ground (arith, f)) (tail-Agree (λ e. e.types) x y xs ys s t key a)
        (tail-Agree (λ e. e.services) x y xs ys s t key b) in
    ap (λ z. z ∷ xs) head ∙ ap (λ zs. y ∷ zs) rest
