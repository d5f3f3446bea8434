-- ===== src/Extern/AssocMap.antt =====
-- The assumptions on the crates can be met: an association list as the map of the registry, lists as
-- bounded vectors, and a clock of a million ticks to the second.
use mathlib.Core.Bool.{Bool, true, false}
use mathlib.Core.Option
use ns_pixels.Prelude.{
  ℕ, suc, ◌-◌, ◌*◌, ◌/◌, ◌≤◌, ◌<◌, ◌≡◌, ◌++◌, refl, sym, inl, inr, Option, none, some, List, [],
  ◌∷◌, arith, if◌then◌else◌, ◌==◌, ==_iff, leb, ltb, ltb→lt, length, Bool-cases,
}
use ns_pixels.Prelude.Assoc.{lookup, Distinct}
use ns_pixels.Extern.Clock.{Clock}
use ns_pixels.Extern.Heapless.{IndexMap, BoundedVec}

module _ {V : Type 0} where
  unfoldable pub modify_at : List (ℕ × V) → ℕ → (V → V) → List (ℕ × V)
  modify_at [] k f = []
  modify_at ((j, v) ∷ l) k f = (j, if j == k then f v else v) ∷ modify_at l k f

  unfoldable pub remove_at : List (ℕ × V) → ℕ → List (ℕ × V)
  remove_at [] k = []
  remove_at ((j, v) ∷ l) k = let rest = remove_at l k in if j == k then rest else (j, v) ∷ rest

  lookup-modify_at :
      (l : List (ℕ × V)) (k j : ℕ) (f : V → V)
      → lookup j (modify_at l k f) ≡ (if j == k then Option.map f (lookup j l) else lookup j l)
  unfolding modify_at
  lookup-modify_at [] k j f = ground arith
  lookup-modify_at ((i, v) ∷ l) k j f = ground (arith, lookup-modify_at l k j f)

  pub length-modify_at :
      (l : List (ℕ × V)) (k : ℕ) (f : V → V) → length (modify_at l k f) ≡ length l
  unfolding modify_at
  length-modify_at [] k f = refl
  length-modify_at ((i, v) ∷ l) k f = omega (arith, length-modify_at l k f)

  pub modify_at-Distinct :
      (l : List (ℕ × V)) (k : ℕ) (f : V → V) → Distinct l → Distinct (modify_at l k f)
  unfolding modify_at
  modify_at-Distinct [] k f d = tt
  modify_at-Distinct ((i, v) ∷ l) k f d =
      (ground (arith, lookup-modify_at l k i f, d.0), modify_at-Distinct l k f d.1)

  lookup-remove_at :
      (l : List (ℕ × V)) (k j : ℕ)
      → lookup j (remove_at l k) ≡ (if j == k then none else lookup j l)
  unfolding remove_at
  lookup-remove_at [] k j = ground arith
  lookup-remove_at ((i, v) ∷ l) k j = ground (arith, lookup-remove_at l k j)

  pub remove_at-Distinct : (l : List (ℕ × V)) (k : ℕ) → Distinct l → Distinct (remove_at l k)
  unfolding remove_at
  remove_at-Distinct [] k d = tt
  remove_at-Distinct ((i, v) ∷ l) k d = elim (Bool-cases (i == k)) [
    | inl same ↦ rw same (remove_at-Distinct l k d.1)
    | inr other ↦ rw other (ground (arith, lookup-remove_at l k i, d.0), remove_at-Distinct l k d.1)
  ]

  length-remove_at_absent :
      (l : List (ℕ × V)) (k : ℕ) → lookup k l ≡ none → length (remove_at l k) ≡ length l
  unfolding remove_at
  length-remove_at_absent [] k e = refl
  length-remove_at_absent ((i, v) ∷ l) k e = ground (arith, length-remove_at_absent l k)

  pub length-remove_at-le : (l : List (ℕ × V)) (k : ℕ) → length (remove_at l k) ≤ length l
  unfolding remove_at
  length-remove_at-le [] k = omega arith
  length-remove_at-le ((i, v) ∷ l) k = ground (arith, length-remove_at-le l k)

  length-remove_at :
      (l : List (ℕ × V)) (k : ℕ) {v : V}
      → Distinct l
      → lookup k l ≡ some v
      → suc (length (remove_at l k)) ≡ length l
  unfolding remove_at
  length-remove_at [] k d e = cc
  length-remove_at ((i, w) ∷ l) k {v} d e = elim (Bool-cases (i == k)) [
    | inl same ↦
        let at : lookup k l ≡ none = rw (sym ((==_iff i k).0 same)) d.0 in
        rw same (omega (arith, length-remove_at_absent l k at))
    | inr other ↦ rw other (omega (arith, length-remove_at l k {v = v} d.1 (ground arith)))
  ]

abbrev pub AssocMap : ℕ → Type 0 → Type 0
AssocMap cap V = (l : List (ℕ × V)) × Distinct l × (length l ≤ cap)

module _ (cap : ℕ) (V : Type 0) where
  unfoldable pub modify : AssocMap cap V → ℕ → (V → V) → AssocMap cap V
  unfolding modify_at
  modify (l, d, b) k f =
      (modify_at l k f, modify_at-Distinct l k f d, omega (arith, length-modify_at l k f))

  unfoldable pub remove : AssocMap cap V → ℕ → AssocMap cap V
  unfolding remove_at
  remove (l, d, b) k =
      (remove_at l k, remove_at-Distinct l k d, omega (arith, length-remove_at-le l k))

  -- The insertion, told what the lookup gives and whether there is room.
  unfoldable pub insert_told :
      (m : AssocMap cap V) (k : ℕ) (v : V) (o : Option V)
      → lookup k m.0 ≡ o
      → (room : Bool) → ltb (length m.0) cap ≡ room
      → AssocMap cap V
  insert_told m k v none e true r = ((k, v) ∷ m.0, (e, m.1), ltb→lt (length m.0) cap r)
  insert_told m k v none e false r = m
  insert_told m k v (some _) e room r = modify m k (λ _. v)

  unfoldable pub insert : AssocMap cap V → ℕ → V → AssocMap cap V
  unfolding insert_told modify
  insert m k v = insert_told m k v (lookup k m.0) refl (ltb (length m.0) cap) refl

  insert_told-room :
      (m : AssocMap cap V) (k : ℕ) (v : V) (o : Option V) (e : lookup k m.0 ≡ o) (room : Bool)
      (r : ltb (length m.0) cap ≡ room)
      → o ≡ none
      → length m.0 < cap
      → (insert_told m k v o e room r).0 ≡ (k, v) ∷ m.0
  unfolding insert_told
  insert_told-room m k v none e true r p b = refl
  insert_told-room m k v none e false r p b = absurd (ground arith)
  insert_told-room m k v (some _) e room r p b = cc

  insert_told-full :
      (m : AssocMap cap V) (k : ℕ) (v : V) (o : Option V) (e : lookup k m.0 ≡ o) (room : Bool)
      (r : ltb (length m.0) cap ≡ room)
      → o ≡ none
      → cap ≤ length m.0
      → insert_told m k v o e room r ≡ m
  unfolding insert_told
  insert_told-full m k v none e true r p b = absurd (ground arith)
  insert_told-full m k v none e false r p b = refl
  insert_told-full m k v (some _) e room r p b = cc

  insert-room :
      (m : AssocMap cap V) (k : ℕ) (v : V)
      → lookup k m.0 ≡ none
      → length m.0 < cap
      → (insert m k v).0 ≡ (k, v) ∷ m.0
  unfolding insert
  insert-room m k v e b = insert_told-room m k v (lookup k m.0) refl (ltb (length m.0) cap) refl e b

  pub get-insert :
      (m : AssocMap cap V) (k j : ℕ) (v : V)
      → lookup k m.0 ≡ none
      → length m.0 < cap
      → lookup j (insert m k v).0 ≡ (if j == k then some v else lookup j m.0)
  get-insert m k j v e b = rw (insert-room m k v e b) (ground arith)

  pub get-modify :
      (m : AssocMap cap V) (k j : ℕ) (f : V → V)
      → lookup j (modify m k f).0 ≡ (if j == k then Option.map f (lookup j m.0) else lookup j m.0)
  unfolding modify
  get-modify m k j f = lookup-modify_at m.0 k j f

  pub length-modify :
      (m : AssocMap cap V) (k : ℕ) (f : V → V) → length (modify m k f).0 ≡ length m.0
  unfolding modify
  length-modify m k f = length-modify_at m.0 k f

  pub length-insert :
      (m : AssocMap cap V) (k : ℕ) (v : V)
      → lookup k m.0 ≡ none
      → length m.0 < cap
      → length (insert m k v).0 ≡ suc (length m.0)
  length-insert m k v e b = rw (insert-room m k v e b) refl

  pub insert_full :
      (m : AssocMap cap V) (k : ℕ) (v : V)
      → lookup k m.0 ≡ none
      → cap ≤ length m.0
      → insert m k v ≡ m
  unfolding insert
  insert_full m k v e b = insert_told-full m k v (lookup k m.0) refl (ltb (length m.0) cap) refl e b

  pub get-remove :
      (m : AssocMap cap V) (k j : ℕ)
      → lookup j (remove m k).0 ≡ (if j == k then none else lookup j m.0)
  unfolding remove
  get-remove m k j = lookup-remove_at m.0 k j

  pub length-remove :
      (m : AssocMap cap V) (k : ℕ) {v : V}
      → lookup k m.0 ≡ some v
      → suc (length (remove m k).0) ≡ length m.0
  unfolding remove
  length-remove m k {v} e = length-remove_at m.0 k {v = v} m.1 e

  -- The registry's map as an association list.
  abbrev pub assoc_map : IndexMap cap V
  assoc_map = record {
    Map = AssocMap cap V;
    empty = ([], tt, omega arith);
    entries = λ m. m.0;
    get = λ m k. lookup k m.0;
    modify = modify;
    insert = insert;
    remove = remove;
    entries-empty = refl;
    entries_bounded = λ m. m.2;
    entries-Distinct = λ m. m.1;
    get-lookup = λ m k. refl;
    get-modify = get-modify;
    length-modify = length-modify;
    get-insert = get-insert;
    length-insert = length-insert;
    insert_full = insert_full;
    get-remove = get-remove;
    length-remove = length-remove;
  }

unfoldable pub push : ℕ → List ℕ → ℕ → Option (List ℕ)
push cap xs x = if ltb (length xs) cap then some (xs ++ x ∷ []) else none

pub push_room :
    (cap : ℕ) (xs : List ℕ) (x : ℕ) → length xs < cap → push cap xs x ≡ some (xs ++ x ∷ [])
unfolding push
push_room cap xs x b = ground arith

pub push_full : (cap : ℕ) (xs : List ℕ) (x : ℕ) → cap ≤ length xs → push cap xs x ≡ none
unfolding push
push_full cap xs x b = ground arith

abbrev pub list_vec : BoundedVec
list_vec = record { push = push; push_room = push_room; push_full = push_full }

abbrev pub microseconds : Clock
microseconds = record {
  tick_hz = 1_000_000;
  from_secs = λ s. s * 1_000_000;
  as_secs = λ d. d / 1_000_000;
  checked_duration_since =
      λ later earlier. if leb earlier later then some (later - earlier) else none;
  checked_sub = λ at d. if leb d at then some (at - d) else none;
  tick_hz_pos = omega arith;
  from_secs_lem = λ s. refl;
  as_secs_lem = λ d. refl;
  since_lem = λ later earlier. refl;
  sub_lem = λ at d. refl;
}
