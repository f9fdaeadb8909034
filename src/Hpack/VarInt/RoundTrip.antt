-- ===== src/Hpack/VarInt/RoundTrip.antt =====
-- `readVarInt` reads back what `appendVarInt` wrote, whatever the bits above the prefix are.
use Prim.Native.Nat.{bit_and}
use native.Mathlib.Numerals.{towards_suc}
use native.Mathlib.Nat.{div-add-mod, mod-eq_of_lt, add_comm, add-mul-mod_self_right}
use native.Mathlib.Decide.{dec_lt}
use fhttp.Base.{
  ℕ, zero, suc, ◌+◌, ◌-◌, ◌*◌, ◌/◌, ◌%◌, ◌^◌, ◌≤◌, ◌<◌, ◌≡◌, ◌∙◌, ap, inl, inr, ◌∷◌, ◌++◌, Bytes,
  ltb, if◌then◌else◌, arith, Bool-cases, le→ltb,
}
use fhttp.Base.Bits.{bit_and_128}
use fhttp.Base.Mask.{bit_and_mask, pow_pos, pow_le_of_le}
use fhttp.Hpack.Errors.{ok}
use fhttp.Hpack.VarInt.{read_var_int_loop, read_var_int}
use fhttp.Hpack.VarInt.Encoding.{groups, first_octet, more_octets, first_octet-lt}

-- `2 ^ (m + 7)` as a multiple of `2 ^ m`.
pub pow_add_seven : (m : ℕ) → 2 ^ (m + 7) ≡ 128 * 2 ^ m
pow_add_seven m = simp towards_suc (omega arith)

pub low_and_high : (w m : ℕ) → w * 2 ^ m ≡ w % 128 * 2 ^ m + w / 128 * 2 ^ (m + 7)
low_and_high w m = omega (
  arith,
  ap (λ (t : ℕ). t * 2 ^ m) (div-add-mod w 128),
  ap (λ (t : ℕ). w / 128 * t) (pow_add_seven m),
)

-- One round on the last octet of a number, and on an octet with the top bit set.
read_last :
    (w i m : ℕ) (rest : Bytes)
    → w < 128
    → i + w * 2 ^ m < 2 ^ 64
    → read_var_int_loop (w ∷ rest) i m ≡ ok (i + w * 2 ^ m, rest)
unfolding read_var_int_loop
read_last w i m rest h fits = ground (arith, bit_and_mask 7 w, bit_and_128 w)

pub read_continued :
    (g i m : ℕ) (rest : Bytes)
    → g < 128
    → m + 7 < 63
    → i + g * 2 ^ m < 2 ^ 64
    → read_var_int_loop ((g + 128) ∷ rest) i m ≡ read_var_int_loop rest (i + g * 2 ^ m) (m + 7)
unfolding read_var_int_loop
read_continued g i m rest h small fits =
    ground (arith, bit_and_mask 7 (g + 128), bit_and_128 (g + 128))

-- A number of two groups at least leaves room for the shift of the second.
room : (w m : ℕ) → 128 ≤ w → w * 2 ^ m < 2 ^ 63 → m + 7 < 63
room w m h fits = elim (dec_lt (m + 7) 63) [
  | yes p ↦ p
  | no p ↦ absurd (grind (arith, pow_le_of_le 63 (m + 7) (omega arith), pow_add_seven m))
]

read_loop-groups :
    (rounds w i m : ℕ) (rest : Bytes)
    → w < 2 * 128 ^ rounds
    → w * 2 ^ m < 2 ^ 63
    → i + w * 2 ^ m < 2 ^ 64
    → read_var_int_loop (groups rounds w ++ rest) i m ≡ ok (i + w * 2 ^ m, rest)
unfolding groups
read_loop-groups zero w i m rest hw small fits = read_last w i m rest (omega arith) fits
read_loop-groups (suc rounds) w i m rest hw small fits = elim (Bool-cases (ltb w 128)) [
  | inl last ↦ rw last (read_last w i m rest (ground arith) fits)
  | inr more ↦ rw more (
      ground (
        arith,
        low_and_high w m,
        read_continued (w % 128) i m (groups rounds (w / 128) ++ rest) (omega arith)
            (room w m (ground arith) small),
        read_loop-groups rounds (w / 128) (i + w % 128 * 2 ^ m) (m + 7) rest,
      ))
]

-- The prefix is read under a mask, except where it is the whole octet.
pub read_prefix :
    (n high f : ℕ)
    → n ≤ 8
    → f < 2 ^ n
    → high * 2 ^ n + f < 256
    → (if ltb n 8 then bit_and (high * 2 ^ n + f) (2 ^ n - 1) else high * 2 ^ n + f) ≡ f
read_prefix n high f hn hf hb = elim (Bool-cases (ltb n 8)) [
  | inl e ↦ rw e (
      bit_and_mask n (high * 2 ^ n + f)
      ∙ ap (λ t. t % 2 ^ n) (add_comm (high * 2 ^ n) f)
      ∙ add-mul-mod_self_right f high (2 ^ n)
      ∙ mod-eq_of_lt hf)
  | inr e ↦ rw e (whole_octet (ground arith))
]
  where
    whole_octet : n ≡ 8 → high * 2 ^ n + f ≡ f
    whole_octet e = omega (arith, rw e at hb, ap (λ t. high * 2 ^ t) e)

-- `readVarInt` with an `n`-bit prefix returns the number that `appendVarInt` wrote and what follows
-- it, if what exceeds the prefix is below 2^63; `high` holds the bits of the first octet above the prefix.
pub read_var_int-octets :
    (n high i : ℕ) (rest : Bytes)
    → 1 ≤ n
    → n ≤ 8
    → high * 2 ^ n + first_octet n i < 256
    → i < 2 ^ 63 + (2 ^ n - 1)
    → read_var_int n ((high * 2 ^ n + first_octet n i) ∷ (more_octets n i ++ rest)) ≡ ok (i, rest)
unfolding read_var_int more_octets
read_var_int-octets n high i rest h1 h8 hb hi =
    rw
      (
        le→ltb n 1 h1,
        le→ltb 8 n h8,
        read_prefix n high (first_octet n i) h8 (first_octet-lt n i h1) hb,
      )
      (unfold first_octet in
        elim (Bool-cases (ltb i (2 ^ n - 1))) [
          | inl e ↦ rw (e, e)
          | inr e ↦ ground (
            arith,
            pow_pos n,
            read_loop-groups 9 (i - (2 ^ n - 1)) (2 ^ n - 1) 0 rest,
            pow_le_of_le n 8 h8,
          )
        ])
