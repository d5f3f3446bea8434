-- ===== src/Decompress.antt =====
-- decompress.rs: the gzip header and the loop of the inflater.
pub mod Within
pub mod Utf8
pub mod Header
pub mod Bounds
use mathlib.Core.Bool.{Bool, true, false, not, ◌&&◌, ◌||◌}
use ns_pixels.Prelude.{
  ◌⊎◌, inl, inr, ℕ, zero, suc, ◌+◌, ◌-◌, ◌*◌, Option, none, some, List, [], ◌∷◌, ◌++◌,
  if◌then◌else◌, ltb, ◌==◌, length, take, drop, get_elem?, bit_and,
}
use ns_pixels.Extern.Inflate.{
  Inflater, Status, Flush, StreamResult, stream_end, going_on, inflate_error, finish, no_flush,
}
use Utf8.{is_utf8}

-- Where the body begins; `panic` is a slice or an index out of range.
pub data Skip : Type 0 where
  at : ℕ → Skip
  refuse panic : Skip

abbrev pub then_skip : Skip → (ℕ → Skip) → Skip
then_skip (at p) f = f p
then_skip refuse f = refuse
then_skip panic f = panic

-- The place of the first zero byte, as `position` finds it.
pub zero_at : List ℕ → Option ℕ
zero_at [] = none
zero_at (b ∷ bs) =
    if b == 0 then some 0 else elim (zero_at bs) [ none ↦ none | some n ↦ some (suc n) ]

-- `buf[i]`, which panics out of range.
abbrev pub index : List ℕ → ℕ → (ℕ → Skip) → Skip
index buf i f = elim (get_elem? buf i) [ none ↦ panic | some b ↦ f b ]

-- `p += 2 + xlen`, and whether the buffer reaches so far.
abbrev pub behind_extra : List ℕ → ℕ → ℕ → ℕ → Skip
behind_extra buf p low high =
    let xlen = low + 256 * high in
    let q = p + (2 + xlen) in if ltb (length buf) q then refuse else at q

unfoldable pub skip_extra : ℕ → List ℕ → ℕ → Skip
skip_extra flags buf p =
    if bit_and flags 4 == 0
    then at p
    else if ltb (length buf) (p + 2)
    then refuse
    else index buf p (λ low. index buf (p + 1) (λ high. behind_extra buf p low high))

-- A text that a zero byte ends, when the flag is set.
unfoldable pub skip_text : ℕ → ℕ → List ℕ → ℕ → Skip
skip_text flag flags buf p =
    if bit_and flags flag == 0
    then at p
    else if ltb (length buf) p
    then panic
    else elim (zero_at (drop p buf)) [ none ↦ refuse | some end ↦ at (p + (end + 1)) ]

unfoldable pub skip_crc : ℕ → List ℕ → ℕ → Skip
skip_crc flags buf p =
    if bit_and flags 2 == 0 then at p else if ltb (length buf) (p + 2) then refuse else at (p + 2)

-- The fields behind the fixed part.
unfoldable pub skip_fields : ℕ → List ℕ → Skip
skip_fields flags buf = then_skip (skip_extra flags buf 10) (λ p.
    then_skip (skip_text 8 flags buf p)
      (λ q. then_skip (skip_text 16 flags buf q) (λ r. skip_crc flags buf r)))

-- A byte of the fixed part, which the `||` looks at only behind those before it.
abbrev pub expect : List ℕ → ℕ → ℕ → Skip → Skip
expect buf i want rest = index buf i (λ b. if not (b == want) then refuse else rest)

unfoldable pub skip_header : List ℕ → Skip
unfolding skip_fields
skip_header buf =
    if ltb (length buf) 10
    then refuse
    else expect buf 0 0x1f
        (expect buf 1 0x8b (expect buf 2 8 (index buf 3 (λ flags. skip_fields flags buf))))

pub data Error (E : Type 0) : Type 0 where
  bad_gzip_header overflow not_utf8 : Error E
  inflate : E → Error E

-- `stalled` is fuel that has run out, `out_of_range` a slice that panics.
pub data Inflated (E : Type 0) : Type 0 where
  ok : List ℕ → Inflated E
  err : Error E → Inflated E
  stalled out_of_range : Inflated E

-- The last call is told so.
abbrev pub flush_of : List ℕ → Flush
flush_of [] = finish
flush_of (b ∷ bs) = no_flush

module _ (inf : Inflater) (buf_len : ℕ) where
  open inf use {S, E}

  -- A round of the loop, from the bytes that are in the buffer: its result, or the next round.
  abbrev pub Round : Type 0
  Round = Inflated E ⊎ (S × List ℕ × List ℕ)

  -- What a call of the inflater leads to.
  unfoldable pub after_call : List ℕ → List ℕ → StreamResult S E → Round
  after_call input written res =
      if ltb (length input) res.bytes_consumed || ltb (buf_len - length written) (length res.output)
      then inl out_of_range
      else elim res.status [
        | inflate_error e ↦ inl (err (inflate e))
        | stream_end ↦ inl (ok (written ++ res.output))
        | going_on ↦
            if (length res.output == 0) && (res.bytes_consumed == 0)
            then inl (ok (written ++ res.output))
            else inr (res.state, drop res.bytes_consumed input, written ++ res.output)
      ]

  unfoldable pub round : S → List ℕ → List ℕ → Round
  round state input written =
      if length written == buf_len
      then inl (err overflow)
      else after_call input written
          (inf.inflate state input (buf_len - length written) (flush_of input))

  unfoldable pub inflate_loop : ℕ → S → List ℕ → List ℕ → Inflated E
  inflate_loop zero state input written = stalled
  inflate_loop (suc fuel) state input written = elim (round state input written) [
    | inl r ↦ r
    | inr (state2, input2, written2) ↦ inflate_loop fuel state2 input2 written2
  ]

  -- `from_utf8` of what was written.
  unfoldable pub check_utf8 : Inflated E → Inflated E
  check_utf8 (ok bs) = if is_utf8 bs then ok bs else err not_utf8
  check_utf8 (err e) = err e
  check_utf8 stalled = stalled
  check_utf8 out_of_range = out_of_range

  -- Each round takes a byte of the input or writes one, so both together are fuel enough.
  unfoldable pub inflate_gzip : List ℕ → S → Inflated E
  unfolding inflate_loop check_utf8
  inflate_gzip payload state = elim (skip_header payload) [
    | refuse ↦ err bad_gzip_header
    | panic ↦ out_of_range
    | at header_len ↦
        if ltb (length payload) header_len
        then out_of_range
        else (let input = drop header_len payload in
            check_utf8 (inflate_loop (suc (length input + buf_len)) (inf.reset state) input []))
  ]
