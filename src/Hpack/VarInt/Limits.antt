-- ===== src/Hpack/VarInt/Limits.antt =====
-- `readVarInt` against `appendVarInt` on every uint64, and on any input.
use Prim.Native.Nat.{bit_and}
use fhttp.Base.{
  ℕ, zero, suc, ◌+◌, ◌-◌, ◌*◌, ◌/◌, ◌%◌, ◌^◌, ◌≤◌, ◌<◌, ◌≡◌, refl, subst, ltb→lt, inl, inr, [], ◌∷◌,
  ◌++◌, Bytes, ltb, leb, if◌then◌else◌, arith, length, Bool-cases, le→ltb, ltb_irrefl,
}
use native.Mathlib.Nat.{pow-suc, one-le-pow}
use fhttp.Base.Bits.{bit_and_128}
use fhttp.Base.Mask.{bit_and_mask, pow_le_of_le}
use fhttp.Base.Word.{add64, shl64}
use fhttp.Hpack.Errors.{ok, err, varint_overflow}
use fhttp.Hpack.VarInt.{append_var_int, read_var_int_loop, read_var_int}
use fhttp.Hpack.VarInt.Encoding.{
  groups, first_octet, first_octet-lt, more_octets, append_var_int-octets,
}
use fhttp.Hpack.VarInt.RoundTrip.{read_prefix, read_var_int-octets}

-- An octet with the top bit set ends the reading where the shift would reach 63.
read_on :
    (g i m : ℕ) (rest : Bytes)
    → g < 128
    → read_var_int_loop ((g + 128) ∷ rest) i m ≡ (
        if leb 63 (m + 7)
        then err varint_overflow
        else read_var_int_loop rest (add64 i (shl64 g m)) (m + 7))
unfolding read_var_int_loop
read_on g i m rest h = ground (arith, bit_and_mask 7 (g + 128), bit_and_128 (g + 128))

read_loop-groups_overflow :
    (rounds w i m : ℕ) (rest : Bytes)
    → 128 ^ suc rounds ≤ w
    → m + 7 * suc rounds ≡ 63
    → read_var_int_loop (groups (suc rounds) w ++ rest) i m ≡ err varint_overflow
unfolding groups
read_loop-groups_overflow zero w i m rest h e =
    rw (le→ltb w 128 h, read_on (w % 128) i m (w / 128 ∷ rest) (omega arith)) (ground arith)
read_loop-groups_overflow (suc rounds) w i m rest h e = rw (le→ltb w 128 big) (
    ground (
      arith,
      read_on (w % 128) i m (groups (suc rounds) (w / 128) ++ rest) (omega arith),
      read_loop-groups_overflow rounds (w / 128) (add64 i (shl64 (w % 128) m)) (m + 7) rest quotient
          (omega arith),
    ))
  where
    quotient : 128 ^ suc rounds ≤ w / 128
    quotient = omega (arith, pow-suc 128 (suc rounds))

    big : 128 ≤ w
    big = omega (arith, pow-suc 128 (suc rounds), one-le-pow (suc rounds) 128 (omega arith))

octets_overflow :
    (n i : ℕ) (rest : Bytes)
    → 1 ≤ n
    → n ≤ 8
    → 2 ^ 63 + (2 ^ n - 1) ≤ i
    → read_var_int n (first_octet n i ∷ (more_octets n i ++ rest)) ≡ err varint_overflow
unfolding read_var_int more_octets
octets_overflow n i rest h1 h8 h =
    rw
      (
        le→ltb n 1 h1,
        le→ltb 8 n h8,
        prefix,
        limit,
        le→ltb i (2 ^ n - 1) (omega arith),
        ltb_irrefl (2 ^ n - 1),
      )
      (read_loop-groups_overflow 8 (i - (2 ^ n - 1)) (2 ^ n - 1) 0 rest (omega arith) refl)
  where
    plain : 0 * 2 ^ n + first_octet n i ≡ first_octet n i
    plain = omega arith

    prefix :
        (if ltb n 8 then bit_and (first_octet n i) (2 ^ n - 1) else first_octet n i)
        ≡ first_octet n i
    prefix =
        subst (λ t. (if ltb n 8 then bit_and t (2 ^ n - 1) else t) ≡ first_octet n i) plain
          (read_prefix n 0 (first_octet n i) h8 (first_octet-lt n i h1)
            (omega (arith, first_octet-lt n i h1, pow_le_of_le n 8 h8)))

    limit : first_octet n i ≡ 2 ^ n - 1
    limit = unfold first_octet in ground arith

octets_plain :
    (n i : ℕ) (rest : Bytes)
    → 1 ≤ n
    → n ≤ 8
    → i < 2 ^ 64
    → read_var_int n (first_octet n i ∷ (more_octets n i ++ rest))
      ≡ (if ltb i (2 ^ 63 + (2 ^ n - 1)) then ok (i, rest) else err varint_overflow)
octets_plain n i rest h1 h8 hi = elim (Bool-cases (ltb i (2 ^ 63 + (2 ^ n - 1)))) [
  | inl e ↦ rw e (
      subst (λ t. read_var_int n (t ∷ (more_octets n i ++ rest)) ≡ ok (i, rest)) plain
        (read_var_int-octets n 0 i rest h1 h8 small (ltb→lt _ _ e)))
  | inr e ↦ rw e (octets_overflow n i rest h1 h8 (ground arith))
]
  where
    plain : 0 * 2 ^ n + first_octet n i ≡ first_octet n i
    plain = omega arith

    small : 0 * 2 ^ n + first_octet n i < 256
    small = omega (arith, first_octet-lt n i h1, pow_le_of_le n 8 h8)

-- On every uint64 and every legal prefix length, `readVarInt` returns what `appendVarInt` wrote, with
-- what follows it, exactly when the number is below 2^63 + 2^n - 1; otherwise it answers
-- `errVarintOverflow`.
pub read_var_int-append_var_int :
    (n i : ℕ) (rest : Bytes)
    → 1 ≤ n
    → n ≤ 8
    → i < 2 ^ 64
    → read_var_int n (append_var_int [] n i ++ rest)
      ≡ (if ltb i (2 ^ 63 + (2 ^ n - 1)) then ok (i, rest) else err varint_overflow)
read_var_int-append_var_int n i rest h1 h8 hi =
    rw (append_var_int-octets [] n i h8 hi) (octets_plain n i rest h1 h8 hi)

read_loop-append :
    (p more : Bytes) (i m k j : ℕ) (rest : Bytes)
    → m ≡ 7 * k
    → k ≤ 8
    → read_var_int_loop p i m ≡ ok (j, rest)
    → (read_var_int_loop (p ++ more) i m ≡ ok (j, rest ++ more))
      × (length rest < length p)
      × (length p + k ≤ length rest + 9)
unfolding read_var_int_loop
read_loop-append [] more i m k j rest hm hk e = cc
read_loop-append (b ∷ p) more i m k j rest hm hk e =
    ground
      (arith, read_loop-append p more (add64 i (shl64 (bit_and b 127) m)) (m + 7) (k + 1) j rest)

-- What `readVarInt` accepts it takes from the front: 1 to 10 octets, whatever stands behind them.
pub read_var_int-append :
    (n : ℕ) (p more : Bytes) (i : ℕ) (rest : Bytes)
    → read_var_int n p ≡ ok (i, rest)
    → (read_var_int n (p ++ more) ≡ ok (i, rest ++ more))
      × (length rest < length p)
      × (length p ≤ length rest + 10)
unfolding read_var_int
read_var_int-append n [] more i rest e = ground arith
read_var_int-append n (b ∷ p) more i rest e =
    let first : ℕ = (if ltb n 8 then bit_and b (2 ^ n - 1) else b) in
    ground (arith, read_loop-append p more first 0 0 i rest)
