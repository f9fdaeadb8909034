-- ===== src/Chunked/Delivery/Rounds.antt =====
-- The rounds of `Read` on a list of chunks (internal/chunked.go).
use Prim.Native.Nat.{min}
use fhttp.Base.{
  ℕ, ◌+◌, ◌-◌, ◌<◌, ◌≤◌, ◌≡◌, inl, inr, refl, sym, ap, subst, ◌∙◌, true, false, not, ◌&&◌, Option,
  some, List, [], ◌∷◌, ◌++◌, append_assoc, append-nil, Bytes, length, length-append, length-take,
  length-drop, take, drop, drop-append_le, take-append_le, take-append-drop, ltb, ◌==◌, Bool-cases,
  arith,
}
use fhttp.Chunked.{ok}
use fhttp.Chunked.Writer.{to_hex}
use fhttp.Chunked.Reader.{
  eof, ChunkedReader, with_size, header_available, after, read_count, begin_chunk, Step, goes_on,
  read_footer, check_footer, read_data, after_footer,
}
use fhttp.Chunked.Reader.Ends.{bytes-after}
use fhttp.Chunked.Line.{begin_chunk-to_hex}
use fhttp.Chunked.Wire.{
  IsAt, Place, at_line, in_data, payload, joined, encoded, Returns, stay, behind,
}
use fhttp.Chunked.Delivery.Steps.{
  check_footer_off, check_footer_on, drop_line, no_error, no_footer, read_count_bounds,
  read_data-filled, to_hex-zero,
}

module _ (more : ℕ → ℕ) (t : Bytes) (fuel : ℕ)
    (next : ChunkedReader → ℕ → Bytes → Option (Bytes × ChunkedReader))
    (over : (c : ChunkedReader) (m : ℕ) (o : Bytes) → c.err ≡ some eof → next c m o ≡ some (o, c))
    (ih : (c : ChunkedReader) (m : ℕ) (o : Bytes) (place : Place) (ds : List Bytes)
      → IsAt c place ds t
      → length c.r.bytes + 2 ≤ fuel
      → Returns (payload place ds) t m o (next c m o)) where
  -- The line of the last chunk ends the stream.
  at_end :
      (cr : ChunkedReader) (room : ℕ) (out : Bytes)
      → IsAt cr at_line [] t
      → Returns [] t room out (next (begin_chunk more cr) room out)
  unfolding with_size
  at_end cr room out v =
      let begun : begin_chunk more cr ≡ with_size (record cr { r = after more cr.r 3 }) (ok 0) =
        begin_chunk-to_hex more cr 0 t (omega arith)
          (v.bytes_at ∙ ap (λ h. h ++ 0x0d ∷ 0x0a ∷ t) (sym to_hex-zero))
        ∙ ap (λ h. with_size (record cr { r = after more cr.r (length h + 2) }) (ok 0))
            to_hex-zero in
      let c : ChunkedReader = with_size (record cr { r = after more cr.r 3 }) (ok 0) in
      (
        (out, c),
        ap (λ b. next b room out) begun ∙ over c room out refl,
        (
          [],
          sym (append-nil out),
          omega arith,
          inr (refl, refl, bytes-after more cr.r 3 ∙ ap (drop 3) v.bytes_at),
        ),
      )

  -- The line of a chunk with data.
  at_chunk :
      (cr : ChunkedReader) (d : Bytes) (ds : List Bytes) (room : ℕ) (out : Bytes)
      → IsAt cr at_line (d ∷ ds) t
      → length cr.r.bytes + 1 ≤ fuel
      → Returns (d ++ joined ds) t room out (next (begin_chunk more cr) room out)
  unfolding with_size
  at_chunk cr d ds room out v h =
      let k = length (to_hex (length d)) in
      let rest = d ++ 0x0d ∷ 0x0a ∷ encoded ds t in
      let c : ChunkedReader =
        with_size (record cr { r = after more cr.r (k + 2) }) (ok (length d)) in
      let begun : begin_chunk more cr ≡ c =
        begin_chunk-to_hex more cr (length d) rest v.chunks_at.0.1 v.bytes_at in
      let bytes : c.r.bytes ≡ rest =
        bytes-after more cr.r (k + 2)
        ∙ ap (drop (k + 2)) v.bytes_at
        ∙ drop_line (to_hex (length d)) rest in
      let stands : IsAt c (in_data d) ds t = record {
        bytes_at = bytes;
        n_at = refl;
        err_at = no_error d v.chunks_at.0.0;
        end_at = v.end_at ∙ sym (no_footer d v.chunks_at.0.0);
        chunks_at = v.chunks_at.1;
      } in
      subst (Returns (d ++ joined ds) t room out) (ap (λ b. next b room out) (sym begun)) (
        ih c room out (in_data d) ds stands (
          omega (
            arith,
            ap length bytes,
            ap length v.bytes_at,
            length-append (to_hex (length d)) (0x0d ∷ 0x0a ∷ rest),
          )))

  line_round :
      (cr : ChunkedReader) (ds : List Bytes) (room : ℕ) (out : Bytes)
      → IsAt cr at_line ds t
      → length cr.r.bytes + 1 ≤ fuel
      → Returns (joined ds) t room out (after_footer more next (goes_on cr) room out)
  unfolding after_footer
  line_round cr ds room out v h =
      let at_header : (cr.n == 0) ≡ true = ground (arith, v.n_at) in
      elim (Bool-cases (ltb 0 (length out) && not (header_available cr.r))) [
        | inl enough ↦
            simp (at_header, enough) (stay cr at_line ds t room out v (λ b. ground arith))
        | inr begin ↦ simp (at_header, begin) (begun ds v)
      ]
    where
      begun :
          (es : List Bytes)
          → IsAt cr at_line es t
          → Returns (joined es) t room out (next (begin_chunk more cr) room out)
      begun [] w = at_end cr room out w
      begun (d ∷ es) w = at_chunk cr d es room out w h

  data_read :
      (cr : ChunkedReader) (b : ℕ) (d : Bytes) (ds : List Bytes) (room : ℕ) (out : Bytes)
      → IsAt cr (in_data (b ∷ d)) ds t
      → 0 < room
      → length cr.r.bytes + 1 ≤ fuel
      → let q = read_data more cr (min room cr.n) in
        Returns ((b ∷ d) ++ joined ds) t room out (next q.1 (room - length q.0) (out ++ q.0))
  data_read cr b d ds room out v pos h =
      let k = min room cr.n in
      let n0 = read_count more cr.r k in
      let filled : 0 < length cr.r.bytes = omega (arith, ap length v.bytes_at) in
      let (some_read, fits) = read_count_bounds more cr.r k (omega (arith, v.n_at)) filled in
      let within : n0 ≤ length (b ∷ d) = omega (arith, v.n_at, fits) in
      let now = take n0 (b ∷ d) in
      let c : ChunkedReader = record cr {
        r = after more cr.r n0;
        n = cr.n - n0;
        check_end = cr.n - n0 == 0;
      } in
      let done : read_data more cr k ≡ (now, c) =
        read_data-filled more cr k filled
        ∙ ap (λ x. let q : Bytes × ChunkedReader = (x, c) in q)
            (ap (take n0) v.bytes_at
              ∙ take-append_le n0 (b ∷ d) (0x0d ∷ 0x0a ∷ encoded ds t) within) in
      let bytes : c.r.bytes ≡ drop n0 (b ∷ d) ++ 0x0d ∷ 0x0a ∷ encoded ds t =
        bytes-after more cr.r n0
        ∙ ap (drop n0) v.bytes_at
        ∙ drop-append_le n0 (b ∷ d) (0x0d ∷ 0x0a ∷ encoded ds t) within in
      let left : cr.n - n0 ≡ length (drop n0 (b ∷ d)) =
        omega (arith, v.n_at, length-drop n0 (b ∷ d)) in
      let stands : IsAt c (in_data (drop n0 (b ∷ d))) ds t = record {
        bytes_at = bytes;
        n_at = left;
        err_at = v.err_at;
        end_at = ap (λ x. x == 0) left;
        chunks_at = v.chunks_at;
      } in
      let shorter : length c.r.bytes + 2 ≤ fuel = omega (
        arith,
        ap length (bytes-after more cr.r n0),
        length-drop n0 cr.r.bytes,
        some_read,
        filled,
      ) in
      subst
        (λ (q : Bytes × ChunkedReader).
          Returns ((b ∷ d) ++ joined ds) t room out (next q.1 (room - length q.0) (out ++ q.0)))
        (sym done)
        (behind ((b ∷ d) ++ joined ds) (drop n0 (b ∷ d) ++ joined ds) t room out now
          (next c (room - length now) (out ++ now)) (omega (arith, length-take n0 (b ∷ d), fits))
          (sym (append_assoc now (drop n0 (b ∷ d)) (joined ds))
            ∙ ap (λ x. x ++ joined ds) (take-append-drop n0 (b ∷ d)))
          (ih c (room - length now) (out ++ now) (in_data (drop n0 (b ∷ d))) ds stands shorter))

  data_round :
      (cr : ChunkedReader) (b : ℕ) (d : Bytes) (ds : List Bytes) (room : ℕ) (out : Bytes)
      → IsAt cr (in_data (b ∷ d)) ds t
      → length cr.r.bytes + 1 ≤ fuel
      → Returns ((b ∷ d) ++ joined ds) t room out (after_footer more next (goes_on cr) room out)
  unfolding after_footer
  data_round cr b d ds room out v h =
      let inside : (cr.n == 0) ≡ false = ground (arith, v.n_at) in
      elim (Bool-cases (room == 0)) [
        | inl full ↦
            simp (inside, full) (stay cr (in_data (b ∷ d)) ds t room out v (λ e. ground arith))
        | inr open_room ↦ simp (inside, open_room) (data_read cr b d ds room out v (ground arith) h)
      ]

  -- The CRLF behind a chunk, and then the next line.
  footer_round :
      (cr : ChunkedReader) (ds : List Bytes) (room : ℕ) (out : Bytes)
      → IsAt cr (in_data []) ds t
      → length cr.r.bytes + 1 ≤ fuel
      → Returns
          (joined ds)
          t
          room
          out
          (after_footer more next (check_footer more cr (length out)) room out)
  unfolding after_footer read_footer
  footer_round cr ds room out v h = elim (check_footer_on more cr (length out) v.end_at) [
    | inl (copied, waits) ↦
        subst (λ (x : Step). Returns (joined ds) t room out (after_footer more next x room out))
          (sym waits) (stay cr (in_data []) ds t room out v (λ b. copied))
    | inr checked ↦
        let c : ChunkedReader = record cr { r = after more cr.r 2; check_end = false } in
        let bytes : c.r.bytes ≡ encoded ds t = bytes-after more cr.r 2 ∙ ap (drop 2) v.bytes_at in
        let stands : IsAt c at_line ds t = record {
          bytes_at = bytes;
          n_at = v.n_at;
          err_at = v.err_at;
          end_at = refl;
          chunks_at = v.chunks_at;
        } in
        subst (λ (x : Step). Returns (joined ds) t room out (after_footer more next x room out))
          (sym (checked ∙ ap (read_footer more cr) v.bytes_at))
          (line_round c ds room out stands
            (omega (arith, ap length bytes, ap length v.bytes_at, h)))
  ]

  pub place_round :
      (cr : ChunkedReader) (place : Place) (ds : List Bytes) (room : ℕ) (out : Bytes)
      → IsAt cr place ds t
      → length cr.r.bytes + 1 ≤ fuel
      → Returns
          (payload place ds)
          t
          room
          out
          (after_footer more next (check_footer more cr (length out)) room out)
  place_round cr at_line ds room out v h =
      subst (λ (x : Step). Returns (joined ds) t room out (after_footer more next x room out))
        (sym (check_footer_off more cr (length out) v.end_at)) (line_round cr ds room out v h)
  place_round cr (in_data []) ds room out v h = footer_round cr ds room out v h
  place_round cr (in_data (b ∷ d)) ds room out v h =
      subst
        (λ (x : Step).
          Returns ((b ∷ d) ++ joined ds) t room out (after_footer more next x room out))
        (sym (check_footer_off more cr (length out) (ground (arith, v.end_at))))
        (data_round cr b d ds room out v h)
