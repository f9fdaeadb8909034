-- ===== src/Chunked/Reader/Ends.antt =====
-- Each round of the loop of `Read` takes a byte or sets the error (internal/chunked.go).
use Prim.Native.Nat.{min}
use fhttp.Base.{
  ℕ, zero, suc, ◌+◌, ◌-◌, ◌<◌, ◌≤◌, ◌≡◌, ◌⊎◌, inl, inr, refl, sym, ap, subst, ◌∙◌, not, ◌&&◌,
  Option, none, some, [], ◌∷◌, ◌++◌, Bytes, length, length-drop, drop, ltb, leb, ◌==◌, Bool-cases,
  Option-cases, arith,
}
use fhttp.Chunked.{SizeResult, ok, err, parse_hex_uint}
use fhttp.Chunked.Reader.{
  BufReader, ReadError, ChunkedReader, buffered, line_length, LineResult, line, no_line, chunk_line,
  with_size, with_line, header_available, after, read_count, begin_chunk, Step, goes_on, stops,
  read_footer, check_footer, read_data, after_footer, round, read_loop, read,
}

-- The rounds that are enough.
abbrev pub rounds : Option ReadError → ℕ → ℕ
rounds none k = k + 2
rounds (some e) k = 1

rounds-le : (o : Option ReadError) (k : ℕ) → rounds o k ≤ k + 2
rounds-le none k = omega arith
rounds-le (some e) k = omega arith

pub line_length_bounds : (s : Bytes) (k : ℕ) → line_length s ≡ some k → (1 ≤ k) × (k ≤ length s)
unfolding line_length
line_length_bounds [] k h = cc
line_length_bounds (c ∷ s) k h = elim (Bool-cases (c == 0x0a)) [
  | inl here ↦ let t : some 1 ≡ some k = rw here at h in let e : 1 ≡ k = cc in omega arith
  | inr later ↦ elim (Option-cases (line_length s)) [
    | inl nowhere ↦ let t : none ≡ some k = sym (rw (later, nowhere) refl) ∙ h in cc
    | inr (j, found) ↦
        let t : some (suc j) ≡ some k = sym (rw (later, found) refl) ∙ h in
        let e : suc j ≡ k = cc in let b = line_length_bounds s j found in omega (arith, b.1)
  ]
]

module _ (more : ℕ → ℕ) where
  pub bytes-after : (r : BufReader) (k : ℕ) → (after more r k).bytes ≡ drop k r.bytes
  unfolding after
  bytes-after r k = elim (Bool-cases (leb k (buffered r))) [
    | inl held ↦ rw held refl
    | inr waited ↦ rw waited refl
  ]

  abbrev Ends : Option (Bytes × ChunkedReader) → Type 0
  Ends o = (t : Bytes × ChunkedReader) × (o ≡ some t)

  rounds-with_line :
      (cr : ChunkedReader) (n : ℕ) (res : LineResult)
      → length cr.r.bytes < n
      → rounds (with_line cr res).err (length (with_line cr res).r.bytes) ≤ n + 1
  unfolding with_line
  rounds-with_line cr n (no_line e) h = omega arith
  rounds-with_line cr n (line p) h = by_size (parse_hex_uint p)
    where
      by_size :
          (z : SizeResult) → rounds (with_size cr z).err (length (with_size cr z).r.bytes) ≤ n + 1
      by_size (err e) = omega arith
      by_size (ok zero) = omega arith
      by_size (ok (suc m)) = ground arith

  rounds-begin_chunk :
      (cr : ChunkedReader)
      → rounds (begin_chunk more cr).err (length (begin_chunk more cr).r.bytes)
        ≤ length cr.r.bytes + 1
  unfolding begin_chunk with_line chunk_line
  rounds-begin_chunk cr = elim (Option-cases (line_length cr.r.bytes)) [
    | inl nowhere ↦ rw nowhere (omega arith)
    | inr (k, found) ↦
        let b = line_length_bounds cr.r.bytes k found in
        rw found (
          rounds-with_line (record cr { r = after more cr.r (min 4096 k) }) (length cr.r.bytes)
            (chunk_line cr.r.bytes (some k))
            (omega (
              arith,
              b.0,
              b.1,
              ap length (bytes-after cr.r (min 4096 k)),
              length-drop (min 4096 k) cr.r.bytes,
            )))
  ]

  read_count_pos : (r : BufReader) (k : ℕ) → 0 < k → 0 < length r.bytes → 0 < read_count more r k
  unfolding read_count buffered
  read_count_pos r k hk h = ground arith

  rounds-read_data :
      (cr : ChunkedReader) (k : ℕ)
      → 0 < k
      → let t = (read_data more cr k).1 in rounds t.err (length t.r.bytes) ≤ length cr.r.bytes + 1
  unfolding read_data
  rounds-read_data cr k hk = elim (Bool-cases (length cr.r.bytes == 0)) [
    | inl over ↦ rw over (omega arith)
    | inr more_left ↦
        let left : 0 < length cr.r.bytes = ground arith in
        let pos = read_count_pos cr.r k hk left in
        rw more_left (
          omega (
            arith,
            rounds-le cr.err (length (after more cr.r (read_count more cr.r k)).bytes),
            ap length (bytes-after cr.r (read_count more cr.r k)),
            length-drop (read_count more cr.r k) cr.r.bytes,
            pos,
          ))
  ]

  pub check_footer-cases :
      (cr : ChunkedReader) (count : ℕ)
      → (check_footer more cr count ≡ stops cr)
        ⊎ ((check_footer more cr count ≡ goes_on cr)
            ⊎ (check_footer more cr count ≡ read_footer more cr cr.r.bytes))
  unfolding check_footer
  check_footer-cases cr count = ground arith

  module _ (next : ChunkedReader → ℕ → Bytes → Option (Bytes × ChunkedReader)) (n : ℕ)
      (ends : (c : ChunkedReader) (m : ℕ) (o : Bytes)
        → rounds c.err (length c.r.bytes) ≤ n + 1
        → Ends (next c m o)) where
    after_footer-Ends :
        (cr : ChunkedReader) (room : ℕ) (out : Bytes)
        → length cr.r.bytes ≤ n
        → Ends (after_footer more next (goes_on cr) room out)
    unfolding after_footer
    after_footer-Ends cr room out h = elim (Bool-cases (cr.n == 0)) [
      | inl at_header ↦ elim (Bool-cases (ltb 0 (length out) && not (header_available cr.r))) [
        | inl enough ↦ simp (at_header, enough) ((out, cr), refl)
        | inr begin ↦
            simp (at_header, begin)
              (ends (begin_chunk more cr) room out (omega (arith, rounds-begin_chunk cr)))
      ]
      | inr inside ↦ elim (Bool-cases (room == 0)) [
        | inl full ↦ simp (inside, full) ((out, cr), refl)
        | inr open_room ↦
            let t = read_data more cr (min room cr.n) in
            simp (inside, open_room)
              (ends t.1 (room - length t.0) (out ++ t.0)
                (omega (arith, rounds-read_data cr (min room cr.n) (ground arith))))
      ]
    ]

    read_footer-Ends :
        (cr : ChunkedReader) (s : Bytes) (room : ℕ) (out : Bytes)
        → cr.r.bytes ≡ s
        → length s ≤ n
        → Ends (after_footer more next (read_footer more cr s) room out)
    unfolding read_footer after_footer
    read_footer-Ends cr [] room out e h = after_footer-Ends _ room out (omega (arith, ap length e))
    read_footer-Ends cr (a ∷ []) room out e h =
        after_footer-Ends _ room out
          (omega (arith, ap length (bytes-after cr.r 1), length-drop 1 cr.r.bytes, ap length e))
    read_footer-Ends cr (a ∷ b ∷ s) room out e h = elim (Bool-cases (a == 0x0d && b == 0x0a)) [
      | inl met ↦ rw met (
          after_footer-Ends _ room out
            (omega (arith, ap length (bytes-after cr.r 2), length-drop 2 cr.r.bytes, ap length e)))
      | inr unmet ↦ rw unmet (_, refl)
    ]

    check_footer-Ends :
        (cr : ChunkedReader) (room : ℕ) (out : Bytes)
        → length cr.r.bytes ≤ n
        → Ends (after_footer more next (check_footer more cr (length out)) room out)
    unfolding after_footer
    check_footer-Ends cr room out h = elim (check_footer-cases cr (length out)) [
      | inl here ↦
          subst (λ (t : Step). Ends (after_footer more next t room out)) (sym here)
            ((out, cr), refl)
      | inr (inl on) ↦
          subst (λ (t : Step). Ends (after_footer more next t room out)) (sym on)
            (after_footer-Ends cr room out h)
      | inr (inr checked) ↦
          subst (λ (t : Step). Ends (after_footer more next t room out)) (sym checked)
            (read_footer-Ends cr cr.r.bytes room out refl h)
    ]

  rounds_pos : (o : Option ReadError) (k : ℕ) → 0 < rounds o k
  rounds_pos none k = omega arith
  rounds_pos (some e) k = omega arith

  round-Ends :
      (fuel : ℕ)
      → ((c : ChunkedReader) (m : ℕ) (o : Bytes)
          → rounds c.err (length c.r.bytes) ≤ fuel
          → Ends (read_loop more fuel c m o))
      → (e : Option ReadError) (cr : ChunkedReader) (room : ℕ) (out : Bytes)
      → rounds e (length cr.r.bytes) ≤ suc fuel
      → Ends (round more (λ c m o. read_loop more fuel c m o) e cr room out)
  unfolding round
  round-Ends fuel ih (some e) cr room out h = ((out, cr), refl)
  round-Ends fuel ih none cr room out h =
      check_footer-Ends (λ c m o. read_loop more fuel c m o) (length cr.r.bytes)
        (λ c m o le. ih c m o (omega (arith, le))) cr room out (omega arith)

  read_loop-Ends :
      (fuel : ℕ) (cr : ChunkedReader) (room : ℕ) (out : Bytes)
      → rounds cr.err (length cr.r.bytes) ≤ fuel
      → Ends (read_loop more fuel cr room out)
  unfolding read_loop
  read_loop-Ends zero cr room out h = absurd (omega (arith, rounds_pos cr.err (length cr.r.bytes)))
  read_loop-Ends (suc fuel) cr room out h =
      round-Ends fuel (λ c m o le. read_loop-Ends fuel c m o le) cr.err cr room out h

  -- `Read` comes to an end on every connection, whatever it gives and however much is buffered.
  pub read_halts :
      (cr : ChunkedReader) (room : ℕ) → (t : Bytes × ChunkedReader) × (read more cr room ≡ some t)
  unfolding read
  read_halts cr room =
      read_loop-Ends (length cr.r.bytes + 2) cr room []
        (omega (arith, rounds-le cr.err (length cr.r.bytes)))
