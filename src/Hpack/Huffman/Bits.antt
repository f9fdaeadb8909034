-- ===== src/Hpack/Huffman/Bits.antt =====
-- Strings of bits, first the highest, in which the Huffman coder is described.
use native.Mathlib.Nat.{pow-suc, div-div-eq-div-mul}
use fhttp.Base.{
  ℕ, zero, suc, ◌+◌, ◌*◌, ◌/◌, ◌%◌, ◌^◌, ◌≤◌, ◌≡◌, refl, sym, ap, ap₂, ◌∙◌, List, [], ◌∷◌, ◌++◌,
  append_assoc, append-nil, length, length-append, Bytes, arith,
}
use fhttp.Base.Mask.{mod_twice, pow_pos}

-- The `n` lowest bits of a number.
unfoldable pub bits : ℕ → ℕ → List ℕ
bits zero v = []
bits (suc n) v = bits n (v / 2) ++ v % 2 ∷ []

unfoldable pub bits_of : Bytes → List ℕ
bits_of [] = []
bits_of (b ∷ bs) = bits 8 b ++ bits_of bs

pub length-bits : (n v : ℕ) → length (bits n v) ≡ n
unfolding bits
length-bits zero v = refl
length-bits (suc n) v =
    omega (arith, length-append (bits n (v / 2)) (v % 2 ∷ []), length-bits n (v / 2))

pub length-bits_of : (bs : Bytes) → length (bits_of bs) ≡ 8 * length bs
unfolding bits_of
length-bits_of [] = omega arith
length-bits_of (b ∷ bs) =
    omega (arith, length-append (bits 8 b) (bits_of bs), length-bits 8 b, length-bits_of bs)

pub bits_of-append : (xs ys : Bytes) → bits_of (xs ++ ys) ≡ bits_of xs ++ bits_of ys
unfolding bits_of
bits_of-append [] ys = refl
bits_of-append (x ∷ xs) ys =
    ap (λ t. bits 8 x ++ t) (bits_of-append xs ys)
    ∙ sym (append_assoc (bits 8 x) (bits_of xs) (bits_of ys))

halves : (v b : ℕ) → v / 2 / 2 ^ b ≡ v / 2 ^ suc b
halves v b = div-div-eq-div-mul v 2 (2 ^ b) ∙ ap (λ t. v / t) (omega (arith, pow-suc 2 b))

pub bits_same : (n m u v : ℕ) → n ≡ m → u ≡ v → bits n u ≡ bits m v
bits_same n m u v e h = ap₂ bits e h

-- The high bits and the low bits.
pub bits_split : (a b n v : ℕ) → n ≡ a + b → bits n v ≡ bits a (v / 2 ^ b) ++ bits b v
unfolding bits
bits_split a zero n v e =
    bits_same n a v (v / 2 ^ 0) (omega (arith, e)) (omega arith) ∙ sym (append-nil _)
bits_split a (suc b) zero v e = absurd (omega arith)
bits_split a (suc b) (suc n) v e =
    ap (λ t. t ++ v % 2 ∷ []) (bits_split a b n (v / 2) (omega arith))
    ∙ append_assoc (bits a (v / 2 / 2 ^ b)) (bits b (v / 2)) (v % 2 ∷ [])
    ∙ ap (λ t. bits a t ++ (bits b (v / 2) ++ v % 2 ∷ [])) (halves v b)

-- Bits above the lowest `n` do not count.
pub bits-mod : (n m v : ℕ) → n ≤ m → bits n (v % 2 ^ m) ≡ bits n v
unfolding bits
bits-mod zero m v h = refl
bits-mod (suc n) zero v h = absurd (omega arith)
bits-mod (suc n) (suc m) v h =
    let whole : v % 2 ^ suc m ≡ v % 2 + 2 * (v / 2 % 2 ^ m) =
      ap (λ t. v % t) (omega (arith, pow-suc 2 m)) ∙ mod_twice v (2 ^ m) (pow_pos m) in
    let high : v % 2 ^ suc m / 2 ≡ v / 2 % 2 ^ m = omega (arith, whole) in
    let low : v % 2 ^ suc m % 2 ≡ v % 2 = omega (arith, whole) in
    ap (λ t. bits n t ++ v % 2 ^ suc m % 2 ∷ []) high
    ∙ ap (λ t. t ++ v % 2 ^ suc m % 2 ∷ []) (bits-mod n m (v / 2) (omega arith))
    ∙ ap (λ t. bits n (v / 2) ++ t ∷ []) low

-- The number that bits stand for, behind the number `n`.
unfoldable number : ℕ → List ℕ → ℕ
number n [] = n
number n (b ∷ bs) = number (n * 2 + b) bs

number-concat : (n : ℕ) (bs : List ℕ) (b : ℕ) → number n (bs ++ b ∷ []) ≡ number n bs * 2 + b
unfolding number
number-concat n [] b = refl
number-concat n (c ∷ bs) b = number-concat (n * 2 + c) bs b

number-bits : (n v : ℕ) → number 0 (bits n v) ≡ v % 2 ^ n
unfolding number bits
number-bits zero v = omega arith
number-bits (suc n) v =
    number-concat 0 (bits n (v / 2)) (v % 2)
    ∙ omega (arith, number-bits n (v / 2), ap (λ t. v % t) (two n), mod_twice v (2 ^ n) (pow_pos n))
  where
    two : (k : ℕ) → 2 ^ suc k ≡ 2 * 2 ^ k
    two k = omega (arith, pow-suc 2 k)

-- Equal bits are those of equal numbers.
pub bits_equal : (n u v : ℕ) → bits n u ≡ bits n v → u % 2 ^ n ≡ v % 2 ^ n
bits_equal n u v e = sym (number-bits n u) ∙ ap (number 0) e ∙ number-bits n v
