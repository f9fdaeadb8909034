-- ===== src/Chunked/Size.antt =====
-- `parseHexUint` against the number that its digits write, in exact arithmetic.
use Prim.Native.Nat.{bit_or}
use native.Mathlib.Nat.{pow-suc, pow-le-pow_right}
use native.Mathlib.Numerals.{towards_suc}
use fhttp.Base.{
  ℕ, ◌+◌, ◌*◌, ◌^◌, ◌<◌, ◌≤◌, ◌≡◌, ◌⊎◌, inl, inr, refl, sym, ap, subst, ◌∙◌, Option, none, some,
  Option-cases, Bool-cases, List, [], ◌∷◌, Bytes, length, ltb, ◌==◌, if◌then◌else◌, arith,
}
use fhttp.Base.Word.{shl64}
use fhttp.Base.Join.{join_nibble}
use fhttp.Chunked.{ok, err, invalid_byte, too_large, digit, parse_from, parse_hex_uint}

-- The 22 hexadecimal digits with what each stands for.
abbrev pub hexadecimal : List (ℕ × ℕ)
hexadecimal =
    (0x30, 0)
    ∷ (0x31, 1)
    ∷ (0x32, 2)
    ∷ (0x33, 3)
    ∷ (0x34, 4)
    ∷ (0x35, 5)
    ∷ (0x36, 6)
    ∷ (0x37, 7)
    ∷ (0x38, 8)
    ∷ (0x39, 9)
    ∷ (0x61, 10)
    ∷ (0x62, 11)
    ∷ (0x63, 12)
    ∷ (0x64, 13)
    ∷ (0x65, 14)
    ∷ (0x66, 15)
    ∷ (0x41, 10)
    ∷ (0x42, 11)
    ∷ (0x43, 12)
    ∷ (0x44, 13)
    ∷ (0x45, 14)
    ∷ (0x46, 15)
    ∷ []

unfoldable pub find_digit : ℕ → List (ℕ × ℕ) → Option ℕ
find_digit b [] = none
find_digit b ((c, d) ∷ ds) = if b == c then some d else find_digit b ds

-- The number written by hexadecimal digits behind the number `n`; `none` where a byte is no digit.
unfoldable pub value : ℕ → Bytes → Option ℕ
value n [] = some n
value n (b ∷ v) = elim (find_digit b hexadecimal) [ none ↦ none | some d ↦ value (n * 16 + d) v ]

digit-find_digit : (b : ℕ) → find_digit b hexadecimal ≡ digit b
unfolding digit find_digit
digit-find_digit b = ground arith

digit-lt : (b d : ℕ) → digit b ≡ some d → d < 16
unfolding digit
digit-lt b d e = ground arith

step : (i n d : ℕ) → i < 16 → n < 16 ^ i → d < 16 → bit_or (shl64 n 4) d ≡ n * 16 + d
step i n d hi hn hd = ap (λ t. bit_or t d) shift ∙ join_nibble n d hd
  where
    few : 16 ^ i ≤ 16 ^ 15
    few = pow-le-pow_right (omega arith) {j = 15} (omega arith)

    shift : shl64 n 4 ≡ n * 16
    shift = omega (arith, few)

next-lt : (i n d : ℕ) → n < 16 ^ i → d < 16 → n * 16 + d < 16 ^ (i + 1)
next-lt i n d hn hd = simp towards_suc (omega (arith, pow-suc 16 i))

parse_from-digit :
    (i n b d : ℕ) (v : Bytes)
    → digit b ≡ some d
    → parse_from i n (b ∷ v)
      ≡ (if i == 16 then err too_large else parse_from (i + 1) (bit_or (shl64 n 4) d) v)
unfolding parse_from
parse_from-digit i n b d v z =
    ap
      (λ (o : Option ℕ). elim o [
        | none ↦ err invalid_byte
        | some d ↦ if i == 16 then err too_large else parse_from (i + 1) (bit_or (shl64 n 4) d) v
      ])
      z

parse_from-bad :
    (i n b : ℕ) (v : Bytes) → digit b ≡ none → parse_from i n (b ∷ v) ≡ err invalid_byte
unfolding parse_from
parse_from-bad i n b v z =
    ap
      (λ (o : Option ℕ). elim o [
        | none ↦ err invalid_byte
        | some d ↦ if i == 16 then err too_large else parse_from (i + 1) (bit_or (shl64 n 4) d) v
      ])
      z

pub value-digit :
    (n b d : ℕ) (v : Bytes) → digit b ≡ some d → value n (b ∷ v) ≡ value (n * 16 + d) v
unfolding value
value-digit n b d v z =
    ap (λ (o : Option ℕ). elim o [ none ↦ none | some d ↦ value (n * 16 + d) v ])
      (digit-find_digit b ∙ z)

pub value-bad : (n b : ℕ) (v : Bytes) → digit b ≡ none → value n (b ∷ v) ≡ none
unfolding value
value-bad n b v z =
    ap (λ (o : Option ℕ). elim o [ none ↦ none | some d ↦ value (n * 16 + d) v ])
      (digit-find_digit b ∙ z)

parse_from-value :
    (v : Bytes) (i n x : ℕ)
    → i ≤ 16
    → n < 16 ^ i
    → value n v ≡ some x
    → parse_from i n v ≡ (if ltb 16 (i + length v) then err too_large else ok x)
unfolding parse_from value
parse_from-value [] i n x hi hn e = ground arith
parse_from-value (b ∷ v) i n x hi hn e = elim (Option-cases (digit b)) [
  | inl z ↦ let bad : none ≡ some x = sym (value-bad n b v z) ∙ e in absurd cc
  | inr (d, z) ↦ elim (Bool-cases (i == 16)) [
    | inl l ↦ ground arith
    | inr l ↦
        let d16 = digit-lt b d z in
        let rest =
          parse_from-value v (i + 1) (n * 16 + d) x (ground arith) (next-lt i n d hn d16)
            (sym (value-digit n b d v z) ∙ e) in
        parse_from-digit i n b d v z
        ∙ rw (l, step i n d (ground arith) hn d16) (rest ∙ ground arith)
  ]
]

pub parse_hex_uint-value :
    (v : Bytes) (x : ℕ)
    → value 0 v ≡ some x
    → parse_hex_uint v ≡ (if ltb 16 (length v) then err too_large else ok x)
unfolding parse_hex_uint
parse_hex_uint-value v x e = parse_from-value v 0 0 x (omega arith) (omega arith) e ∙ ground arith

parse_from-none :
    (v : Bytes) (i n m : ℕ)
    → value m v ≡ none
    → (parse_from i n v ≡ err invalid_byte) ⊎ (parse_from i n v ≡ err too_large)
unfolding parse_from value
parse_from-none [] i n m e = ground arith
parse_from-none (b ∷ v) i n m e = elim (Option-cases (digit b)) [
  | inl z ↦ inl (parse_from-bad i n b v z)
  | inr (d, z) ↦ elim (Bool-cases (i == 16)) [
    | inl l ↦ inr (parse_from-digit i n b d v z ∙ rw l refl)
    | inr l ↦
        subst (λ r. (r ≡ err invalid_byte) ⊎ (r ≡ err too_large))
          (sym (parse_from-digit i n b d v z ∙ rw l refl))
          (parse_from-none v (i + 1) (bit_or (shl64 n 4) d) (m * 16 + d)
            (sym (value-digit m b d v z) ∙ e))
  ]
]

parse_hex_uint-none :
    (v : Bytes)
    → value 0 v ≡ none
    → (parse_hex_uint v ≡ err invalid_byte) ⊎ (parse_hex_uint v ≡ err too_large)
unfolding parse_hex_uint
parse_hex_uint-none v e = parse_from-none v 0 0 0 e

-- What the size line `v` is answered, if it writes the number `x`, or no number.
abbrev pub Answers : Bytes → Option ℕ → Type 0
Answers v none = (parse_hex_uint v ≡ err invalid_byte) ⊎ (parse_hex_uint v ≡ err too_large)
Answers v (some x) = parse_hex_uint v ≡ (if ltb 16 (length v) then err too_large else ok x)

-- On bytes that are all among the 22 hexadecimal digits `parseHexUint` returns the number that they
-- write, which no shift has cut off, up to 16 digits, and answers that the length is too large from
-- 17 digits on; where some byte is not among them, it answers one of its two errors.
pub parse_hex_uint-Answers : (v : Bytes) → Answers v (value 0 v)
parse_hex_uint-Answers v = elim (Option-cases (value 0 v)) [
  | inl gone ↦ subst (Answers v) (sym gone) (parse_hex_uint-none v gone)
  | inr (x, is) ↦ subst (Answers v) (sym is) (parse_hex_uint-value v x is)
]
