-- ===== src/Chunked/Line.antt =====
-- The reader finds the size that the writer put on a chunk's line (internal/chunked.go).
use Prim.Native.Nat.{min}
use native.Mathlib.Nat.{pow-suc}
use fhttp.Base.{
  ℕ, zero, suc, ◌+◌, ◌*◌, ◌/◌, ◌%◌, ◌^◌, ◌<◌, ◌≤◌, ◌≡◌, inl, inr, refl, sym, ap, ◌∙◌, true, false,
  Option, none, some, [], ◌∷◌, ◌++◌, append_assoc, Bytes, length, length-append, take, take-append,
  ltb, leb, le→ltb, ◌==◌, Bool-cases, Option-cases, All, All-append, arith,
}
use fhttp.Base.Text.{is_ascii_space, trim_back, before_blank, cut}
use fhttp.Chunked.{ok, digit, parse_hex_uint}
use fhttp.Chunked.Size.{value, value-bad, value-digit, parse_hex_uint-value}
use fhttp.Chunked.Writer.{hex_digit, hex_digits, to_hex, crlf}
use fhttp.Chunked.Reader.{
  ChunkedReader, line_length, remove_chunk_extension, chunk_line, with_size, with_line, after,
  begin_chunk,
}

value-snoc :
    (xs : Bytes) (m x c d : ℕ)
    → value m xs ≡ some x
    → digit c ≡ some d
    → value m (xs ++ c ∷ []) ≡ some (x * 16 + d)
unfolding value
value-snoc [] m x c d v e =
    let same : m ≡ x = cc in value-digit m c d [] e ∙ ap (λ t. some (t * 16 + d)) same
value-snoc (b ∷ xs) m x c d v e = elim (Option-cases (digit b)) [
  | inl bad ↦ let no_value : none ≡ some x = sym (value-bad m b xs bad) ∙ v in absurd cc
  | inr (y, good) ↦
      value-digit m b y (xs ++ c ∷ []) good
      ∙ value-snoc xs (m * 16 + y) x c d (sym (value-digit m b y xs good) ∙ v) e
]

digit-hex_digit : (d : ℕ) → d < 16 → digit (hex_digit d) ≡ some d
unfolding digit hex_digit
digit-hex_digit d h = ground arith

-- What a digit is not: the end of a line, the start of an extension, or white space.
abbrev IsPlain : ℕ → Type 0
IsPlain c = ((c == 0x0a) ≡ false) × ((c == 0x3b) ≡ false) × (is_ascii_space c ≡ false)

hex_digit-IsPlain : (d : ℕ) → d < 16 → IsPlain (hex_digit d)
unfolding hex_digit
hex_digit-IsPlain d h = ground arith

value-hex_digits : (k n : ℕ) → n < 16 ^ suc k → value 0 (hex_digits (suc k) n) ≡ some n
unfolding hex_digits value
value-hex_digits zero n h =
    let small : ltb n 16 ≡ true = ground (arith, pow-suc 16 0) in
    rw small
      (value-digit 0 (hex_digit n) n [] (digit-hex_digit n (ground arith)) ∙ ap some (omega arith))
value-hex_digits (suc k) n h = elim (Bool-cases (ltb n 16)) [
  | inl small ↦
      rw small (
        value-digit 0 (hex_digit n) n [] (digit-hex_digit n (ground arith)) ∙ ap some (omega arith))
  | inr large ↦ rw large (
      value-snoc (hex_digits (suc k) (n / 16)) 0 (n / 16) (hex_digit (n % 16)) (n % 16)
        (value-hex_digits k (n / 16) (omega (arith, pow-suc 16 (suc k))))
        (digit-hex_digit (n % 16) (omega arith))
      ∙ ap some (omega arith))
]

hex_digits-IsPlain : (k n : ℕ) → All IsPlain (hex_digits k n)
unfolding hex_digits
hex_digits-IsPlain zero n = tt
hex_digits-IsPlain (suc k) n = elim (Bool-cases (ltb n 16)) [
  | inl small ↦ rw small (hex_digit-IsPlain n (ground arith), tt)
  | inr large ↦ rw large (
      All-append IsPlain (hex_digits k (n / 16)) (hex_digit (n % 16) ∷ [])
        (hex_digits-IsPlain k (n / 16)) (hex_digit-IsPlain (n % 16) (omega arith), tt))
]

length-hex_digits : (k n : ℕ) → length (hex_digits k n) ≤ k
unfolding hex_digits
length-hex_digits zero n = omega arith
length-hex_digits (suc k) n = elim (Bool-cases (ltb n 16)) [
  | inl small ↦ rw small (omega arith)
  | inr large ↦ rw large (
      omega (
        arith,
        length-append (hex_digits k (n / 16)) (hex_digit (n % 16) ∷ []),
        length-hex_digits k (n / 16),
      ))
]

line_length-crlf :
    (p rest : Bytes) → All IsPlain p → line_length (p ++ 0x0d ∷ 0x0a ∷ rest) ≡ some (length p + 2)
unfolding line_length
line_length-crlf [] rest a = refl
line_length-crlf (c ∷ p) rest a = rw (a.0.0, line_length-crlf p rest a.1) (ap some (omega arith))

cut-IsPlain : (p : Bytes) → All IsPlain p → cut 0x3b p ≡ none
unfolding cut
cut-IsPlain [] a = refl
cut-IsPlain (c ∷ p) a = rw (a.0.1, cut-IsPlain p a.1) refl

remove_chunk_extension-IsPlain : (p : Bytes) → All IsPlain p → remove_chunk_extension p ≡ p
unfolding remove_chunk_extension
remove_chunk_extension-IsPlain p a =
    ap (λ (o : Option (Bytes × Bytes)). elim o [ none ↦ p | some (front, _) ↦ front ])
      (cut-IsPlain p a)

trim_back-crlf : (p : Bytes) → All IsPlain p → trim_back (p ++ crlf) ≡ p
unfolding trim_back before_blank
trim_back-crlf [] a = refl
trim_back-crlf (c ∷ []) a = rw a.0.2 refl
trim_back-crlf (c ∷ d ∷ p) a = ap (before_blank c) (trim_back-crlf (d ∷ p) a.1)

to_hex-IsPlain : (n : ℕ) → All IsPlain (to_hex n)
unfolding to_hex
to_hex-IsPlain n = hex_digits-IsPlain 16 n

length-to_hex : (n : ℕ) → length (to_hex n) ≤ 16
unfolding to_hex
length-to_hex n = length-hex_digits 16 n

value-to_hex : (n : ℕ) → n < 2 ^ 64 → value 0 (to_hex n) ≡ some n
unfolding to_hex
value-to_hex n h = value-hex_digits 15 n (omega arith)

-- `parseHexUint` reads what `%x` writes.
pub parse_hex_uint-to_hex : (n : ℕ) → n < 2 ^ 64 → parse_hex_uint (to_hex n) ≡ ok n
parse_hex_uint-to_hex n h =
    parse_hex_uint-value (to_hex n) n (value-to_hex n h)
    ∙ rw (le→ltb 16 (length (to_hex n)) (length-to_hex n)) refl

begin_chunk-line :
    (more : ℕ → ℕ) (cr : ChunkedReader) (p rest : Bytes)
    → All IsPlain p
    → length p ≤ 16
    → cr.r.bytes ≡ p ++ 0x0d ∷ 0x0a ∷ rest
    → begin_chunk more cr
      ≡ with_size (record cr { r = after more cr.r (length p + 2) }) (parse_hex_uint p)
unfolding begin_chunk with_line chunk_line
begin_chunk-line more cr p rest plain few e =
    let found : line_length cr.r.bytes ≡ some (length p + 2) =
      ap line_length e ∙ line_length-crlf p rest plain in
    let whole : min 4096 (length p + 2) ≡ length p + 2 = omega arith in
    let short : leb 4096 (length p + 2) ≡ false = ground arith in
    let front : take (length p + 2) cr.r.bytes ≡ p ++ crlf =
      ap (take (length p + 2)) (e ∙ sym (append_assoc p crlf rest))
      ∙ ap (λ k. take k ((p ++ crlf) ++ rest)) (omega (arith, length-append p crlf))
      ∙ take-append (p ++ crlf) rest in
    simp
      (found, whole, short, front, trim_back-crlf p plain, remove_chunk_extension-IsPlain p plain)

-- The reader after a line that holds the number `n`.
pub begin_chunk-to_hex :
    (more : ℕ → ℕ) (cr : ChunkedReader) (n : ℕ) (rest : Bytes)
    → n < 2 ^ 64
    → cr.r.bytes ≡ to_hex n ++ 0x0d ∷ 0x0a ∷ rest
    → begin_chunk more cr
      ≡ with_size (record cr { r = after more cr.r (length (to_hex n) + 2) }) (ok n)
begin_chunk-to_hex more cr n rest h e =
    begin_chunk-line more cr (to_hex n) rest (to_hex-IsPlain n) (length-to_hex n) e
    ∙ ap (with_size (record cr { r = after more cr.r (length (to_hex n) + 2) }))
        (parse_hex_uint-to_hex n h)
