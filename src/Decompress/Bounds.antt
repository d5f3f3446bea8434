-- ===== src/Decompress/Bounds.antt =====
-- The inflater's loop ends, stays inside its buffers, and skips a header that lies inside the payload.
use mathlib.Core.Bool.{true}
use ns_pixels.Prelude.{
  ℕ, zero, suc, ◌+◌, ◌-◌, ◌≤◌, ◌<◌, ◌≡◌, ◌≢◌, refl, inl, inr, List, [], arith, ◌==◌, length, drop,
  Bool-cases, length-append, length-drop,
}
use ns_pixels.Extern.Inflate.{Inflater, Status, StreamResult, stream_end, going_on, inflate_error}
use ns_pixels.Decompress.Utf8.{is_utf8}
use ns_pixels.Decompress.{
  Skip, at, refuse, panic, skip_header, Inflated, ok, err, stalled, out_of_range, inflate_loop,
  inflate_gzip, Round, after_call, round, flush_of, check_utf8,
}
use ns_pixels.Decompress.Within.{skip_header-Within}

module _ (inf : Inflater) (buf_len : ℕ) where
  open inf use {S, E}

  -- How the loop ends.
  abbrev Ends : Inflated E → Type 0
  Ends r = (r ≢ stalled) × (r ≢ out_of_range) × ((bs : List ℕ) → r ≡ ok bs → length bs ≤ buf_len)

  after_call-Ends :
      (input written : List ℕ) (res : StreamResult S E) (r : Inflated E)
      → res.bytes_consumed ≤ length input
      → length written + length res.output ≤ buf_len
      → after_call inf buf_len input written res ≡ inl r
      → Ends r
  unfolding after_call
  after_call-Ends input written res r c w e = go res.status refl
    where
      go : (st : Status E) → res.status ≡ st → Ends r
      go stream_end p =
          (ground arith, ground arith, λ bs x. ground (arith, length-append written res.output))
      go (inflate_error x) p = (ground arith, ground arith, λ bs y. ground arith)
      go going_on p =
          (ground arith, ground arith, λ bs x. ground (arith, length-append written res.output))

  after_call_progress :
      (input written i w : List ℕ) (res : StreamResult S E) (s : S)
      → res.bytes_consumed ≤ length input
      → length written + length res.output ≤ buf_len
      → after_call inf buf_len input written res ≡ inr (s, i, w)
      → (length w ≤ buf_len)
        × (length i + (buf_len - length w) < length input + (buf_len - length written))
  unfolding after_call
  after_call_progress input written i w res s c b e = go res.status refl
    where
      go :
          (st : Status E)
          → res.status ≡ st
          → (length w ≤ buf_len)
            × (length i + (buf_len - length w) < length input + (buf_len - length written))
      go stream_end p = absurd (ground arith)
      go (inflate_error x) p = absurd (ground arith)
      go going_on p = (
        ground (arith, length-append written res.output),
        ground (arith, length-append written res.output, length-drop res.bytes_consumed input),
      )

  round-Ends :
      (state : S) (input written : List ℕ) (r : Inflated E)
      → length written ≤ buf_len
      → round inf buf_len state input written ≡ inl r
      → Ends r
  unfolding round
  round-Ends state input written r w e =
      let res = inf.inflate state input (buf_len - length written) (flush_of input) in
      let c = inf.consumed_at_most state input (buf_len - length written) (flush_of input) in
      let o = inf.written_at_most state input (buf_len - length written) (flush_of input) in
      elim (Bool-cases (length written == buf_len)) [
        | inl full ↦ (ground arith, ground arith, λ bs x. ground arith)
        | inr more ↦ after_call-Ends input written res r c (omega arith) (ground arith)
      ]

  round_progress :
      (state s : S) (input written i w : List ℕ)
      → length written ≤ buf_len
      → round inf buf_len state input written ≡ inr (s, i, w)
      → (length w ≤ buf_len)
        × (length i + (buf_len - length w) < length input + (buf_len - length written))
  unfolding round
  round_progress state s input written i w l e =
      let res = inf.inflate state input (buf_len - length written) (flush_of input) in
      let c = inf.consumed_at_most state input (buf_len - length written) (flush_of input) in
      let o = inf.written_at_most state input (buf_len - length written) (flush_of input) in
      elim (Bool-cases (length written == buf_len)) [
        | inl full ↦ absurd (ground arith)
        | inr more ↦ after_call_progress input written i w res s c (omega arith) (ground arith)
      ]

  after_round :
      (fuel : ℕ) (k : Round inf buf_len)
      → ((r : Inflated E) → k ≡ inl r → Ends r)
      → ((s : S) (i w : List ℕ) → k ≡ inr (s, i, w) → Ends (inflate_loop inf buf_len fuel s i w))
      → Ends (elim k [ inl r ↦ r | inr (s, i, w) ↦ inflate_loop inf buf_len fuel s i w ])
  after_round fuel (inl r) f g = f r refl
  after_round fuel (inr (s, i, w)) f g = g s i w refl

  loop-Ends :
      (fuel : ℕ) (state : S) (input written : List ℕ)
      → length written ≤ buf_len
      → length input + (buf_len - length written) < fuel
      → Ends (inflate_loop inf buf_len fuel state input written)
  unfolding inflate_loop
  loop-Ends zero state input written w b = elim b [ ]
  loop-Ends (suc fuel) state input written w b =
      after_round fuel (round inf buf_len state input written)
        (λ r e. round-Ends state input written r w e)
        (λ s i v e.
          let (m, n) = round_progress state s input written i v w e in
          loop-Ends fuel s i v m (omega arith))

  check_utf8-Ends :
      (r : Inflated E)
      → Ends r
      → (check_utf8 inf buf_len r ≢ stalled) × (check_utf8 inf buf_len r ≢ out_of_range)
  unfolding check_utf8
  check_utf8-Ends (ok bs) e = (ground arith, ground arith)
  check_utf8-Ends (err x) e = (ground arith, ground arith)
  check_utf8-Ends stalled e = absurd (e.0 refl)
  check_utf8-Ends out_of_range e = absurd (e.1 refl)

  check_utf8_sound :
      (r : Inflated E) (bs : List ℕ)
      → check_utf8 inf buf_len r ≡ ok bs
      → (r ≡ ok bs) × (is_utf8 bs ≡ true)
  unfolding check_utf8
  check_utf8_sound (ok cs) bs e = (ground arith, ground arith)
  check_utf8_sound (err x) bs e = absurd (ground arith)
  check_utf8_sound stalled bs e = absurd (ground arith)
  check_utf8_sound out_of_range bs e = absurd (ground arith)

  -- Whatever the payload, the inflater ends, and no slice or index of it is out of range.
  pub inflate_gzip_total :
      (payload : List ℕ) (state : S)
      → (inflate_gzip inf buf_len payload state ≢ stalled)
        × (inflate_gzip inf buf_len payload state ≢ out_of_range)
  unfolding inflate_gzip
  inflate_gzip_total payload state = go (skip_header payload) refl
    where
      go :
          (k : Skip)
          → skip_header payload ≡ k
          → (inflate_gzip inf buf_len payload state ≢ stalled)
            × (inflate_gzip inf buf_len payload state ≢ out_of_range)
      go refuse e = (ground arith, ground arith)
      go panic e = absurd ((skip_header-Within payload).0 e)
      go (at p) e =
          let i = (skip_header-Within payload).1 p e in
          let (n, o) = check_utf8-Ends _ (
            loop-Ends (suc (length (drop p payload) + buf_len)) (inf.reset state) (drop p payload)
              [] (omega arith) (omega arith)) in
          (ground arith, ground arith)

  -- What the inflater returns is UTF-8 and fits its buffer.
  pub inflate_gzip_sound :
      (payload bs : List ℕ) (state : S)
      → inflate_gzip inf buf_len payload state ≡ ok bs
      → (is_utf8 bs ≡ true) × (length bs ≤ buf_len)
  unfolding inflate_gzip check_utf8
  inflate_gzip_sound payload bs state e = go (skip_header payload) refl
    where
      go : (k : Skip) → skip_header payload ≡ k → (is_utf8 bs ≡ true) × (length bs ≤ buf_len)
      go refuse x = absurd (ground arith)
      go panic x = absurd (ground arith)
      go (at p) x =
          let run =
            inflate_loop inf buf_len (suc (length (drop p payload) + buf_len)) (inf.reset state)
              (drop p payload) [] in
          let (f, u) = check_utf8_sound run bs (ground arith) in
          (
            u,
            (loop-Ends (suc (length (drop p payload) + buf_len)) (inf.reset state) (drop p payload)
                  [] (omega arith) (omega arith)).2
                bs f,
          )
