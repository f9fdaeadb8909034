-- ===== src/Hpack/VarInt/Encoding.antt =====
-- What `appendVarInt` writes, in plain arithmetic: the first octet, and the groups of 7 bits.
use Prim.Native.Nat.{bit_and, bit_or}
use fhttp.Base.{
  ℕ, zero, suc, ◌+◌, ◌-◌, ◌*◌, ◌/◌, ◌%◌, ◌^◌, ◌≤◌, ◌<◌, ◌≡◌, ◌∙◌, ap, [], ◌∷◌, ◌++◌, append_assoc,
  Bytes, All, ltb, if◌then◌else◌, arith, length,
}
use fhttp.Base.Bits.{bit_or_128_left}
use fhttp.Base.Mask.{bit_and_mask, pow_pos, pow_le_of_le}
use fhttp.Base.Word.{IsByte}
use fhttp.Hpack.VarInt.{append_var_int_loop, append_var_int}

-- The groups of 7 bits of `i`, lowest first, at most `rounds + 1` of them.
unfoldable pub groups : ℕ → ℕ → Bytes
groups zero i = i ∷ []
groups (suc rounds) i =
    let rest = groups rounds (i / 128) in if ltb i 128 then i ∷ [] else (i % 128 + 128) ∷ rest

unfoldable pub first_octet : ℕ → ℕ → ℕ
first_octet n i = if ltb i (2 ^ n - 1) then i else 2 ^ n - 1

unfoldable pub more_octets : ℕ → ℕ → Bytes
more_octets n i = if ltb i (2 ^ n - 1) then [] else groups 9 (i - (2 ^ n - 1))

continued : (i : ℕ) → bit_or 128 (bit_and i 127) % 256 ≡ i % 128 + 128
continued i =
    ap (λ t. bit_or 128 t % 256) (bit_and_mask 7 i)
    ∙ ap (λ t. t % 256) (bit_or_128_left (i % 128) (omega arith))
    ∙ omega arith

loop-groups :
    (rounds i : ℕ) (dst : Bytes)
    → i < 2 * 128 ^ rounds
    → append_var_int_loop rounds dst i ≡ dst ++ groups rounds i
unfolding append_var_int_loop groups
loop-groups zero i dst h = ap (λ t. dst ++ t ∷ []) (omega arith)
loop-groups (suc rounds) i dst h = ground (
  arith,
  continued i,
  loop-groups rounds (i / 128) (dst ++ (i % 128 + 128) ∷ []) (omega arith),
  append_assoc dst ((i % 128 + 128) ∷ []) (groups rounds (i / 128)),
)

-- On a uint64 `appendVarInt` keeps `dst` and appends the octets.
pub append_var_int-octets :
    (dst : Bytes) (n i : ℕ)
    → n ≤ 8
    → i < 2 ^ 64
    → append_var_int dst n i ≡ dst ++ first_octet n i ∷ more_octets n i
unfolding append_var_int first_octet more_octets
append_var_int-octets dst n i hn hi = ground (
  arith,
  pow_le_of_le n 8 hn,
  loop-groups 9 (i - (2 ^ n - 1)) (dst ++ (2 ^ n - 1) ∷ []),
  append_assoc dst ((2 ^ n - 1) ∷ []) (groups 9 (i - (2 ^ n - 1))),
)

pub first_octet-lt : (n i : ℕ) → 0 < n → first_octet n i < 2 ^ n
unfolding first_octet
first_octet-lt n i h = ground (arith, pow_pos n)

pub groups-IsByte : (rounds i : ℕ) → i < 2 * 128 ^ rounds → All IsByte (groups rounds i)
unfolding groups
groups-IsByte zero i h = omega arith
groups-IsByte (suc rounds) i h = ground (arith, groups-IsByte rounds (i / 128) (omega arith))

pub length-groups : (rounds i : ℕ) → length (groups rounds i) ≤ suc rounds
unfolding groups
length-groups zero i = omega arith
length-groups (suc rounds) i = ground (arith, length-groups rounds (i / 128))
