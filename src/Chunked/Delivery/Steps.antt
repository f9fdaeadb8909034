-- ===== src/Chunked/Delivery/Steps.antt =====
-- Single steps of `Read` (internal/chunked.go).
use fhttp.Base.{
  ℕ, ◌+◌, ◌-◌, ◌<◌, ◌≤◌, ◌≡◌, ◌⊎◌, refl, sym, ap, ◌∙◌, true, false, none, some, [], ◌∷◌, ◌++◌,
  append_assoc, Bytes, length, length-append, take, drop, drop-append, ◌==◌, if◌then◌else◌, arith,
}
use fhttp.Chunked.Writer.{hex_digit, hex_digits, to_hex, crlf}
use fhttp.Chunked.Reader.{
  BufReader, eof, ChunkedReader, buffered, after, read_count, goes_on, stops, read_footer,
  check_footer, read_data,
}

pub check_footer_off :
    (more : ℕ → ℕ) (cr : ChunkedReader) (k : ℕ)
    → cr.check_end ≡ false
    → check_footer more cr k ≡ goes_on cr
unfolding check_footer
check_footer_off more cr k e = ground arith

pub check_footer_on :
    (more : ℕ → ℕ) (cr : ChunkedReader) (k : ℕ)
    → cr.check_end ≡ true
    → ((0 < k) × (check_footer more cr k ≡ stops cr))
      ⊎ (check_footer more cr k ≡ read_footer more cr cr.r.bytes)
unfolding check_footer
check_footer_on more cr k e = ground arith

pub drop_line : (p rest : Bytes) → drop (length p + 2) (p ++ 0x0d ∷ 0x0a ∷ rest) ≡ rest
drop_line p rest =
    ap (drop (length p + 2)) (sym (append_assoc p crlf rest))
    ∙ ap (λ k. drop k ((p ++ crlf) ++ rest)) (omega (arith, length-append p crlf))
    ∙ drop-append (p ++ crlf) rest

pub no_error : (d : Bytes) → 0 < length d → (if length d == 0 then some eof else none) ≡ none
no_error d h = ground arith

pub no_footer : (d : Bytes) → 0 < length d → (length d == 0) ≡ false
no_footer d h = ground arith

pub read_count_bounds :
    (more : ℕ → ℕ) (r : BufReader) (k : ℕ)
    → 0 < k
    → 0 < length r.bytes
    → (0 < read_count more r k) × (read_count more r k ≤ k)
unfolding read_count buffered
read_count_bounds more r k hk h = ground arith

pub read_data-filled :
    (more : ℕ → ℕ) (cr : ChunkedReader) (k : ℕ)
    → 0 < length cr.r.bytes
    → let n0 = read_count more cr.r k in
      read_data more cr k ≡ (
        take n0 cr.r.bytes,
        record cr { r = after more cr.r n0; n = cr.n - n0; check_end = cr.n - n0 == 0 },
      )
unfolding read_data
read_data-filled more cr k h =
    let filled : (length cr.r.bytes == 0) ≡ false = ground arith in rw filled refl

pub to_hex-zero : to_hex 0 ≡ 0x30 ∷ []
unfolding to_hex hex_digits hex_digit
to_hex-zero = refl
