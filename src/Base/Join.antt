-- ===== src/Base/Join.antt =====
-- `x | y` adds `y` where it has its bits below those of `x`.
use Prim.Native.Nat.{
  ℕ, zero, suc, ◌+◌, ◌*◌, ◌/◌, ◌%◌, ◌^◌, ◌≤◌, ◌<◌, max, bit_or, digits, bit_or-bitwise,
}
use mathlib.Core.Path.{◌≡◌, refl, sym, ◌∙◌, ap}
use native.Mathlib.Nat.{pow-suc, mul_assoc}
use native.Mathlib.Omega.{arith}

-- The digit recursion that `bit_or` stands for, at any depth that is enough.
abbrev either_digits : ℕ → ℕ → ℕ → ℕ
either_digits depth x y = digits (λ b. b) max depth x y

either_digits_depth : (d e x y : ℕ) → x ≤ d → x ≤ e → either_digits d x y ≡ either_digits e x y
either_digits_depth zero zero zero y p q = refl
either_digits_depth zero zero (suc x) y p q = refl
either_digits_depth zero (suc e) zero y p q = refl
either_digits_depth zero (suc e) (suc x) y p q = absurd (omega arith)
either_digits_depth (suc d) zero zero y p q = refl
either_digits_depth (suc d) zero (suc x) y p q = absurd (omega arith)
either_digits_depth (suc d) (suc e) zero y p q = refl
either_digits_depth (suc d) (suc e) (suc x) y p q =
    omega (arith, either_digits_depth d e (suc x / 2) (y / 2) (omega arith) (omega arith))

bit_or_of_zero : (y : ℕ) → bit_or 0 y ≡ y
bit_or_of_zero y = bit_or-bitwise 0 y

-- The lowest bit, and the bits above it.
pub bit_or_halves : (x y : ℕ) → bit_or x y ≡ max (x % 2) (y % 2) + 2 * bit_or (x / 2) (y / 2)
bit_or_halves zero y = omega (arith, bit_or_of_zero y, bit_or_of_zero (y / 2))
bit_or_halves (suc x) y = omega (
  arith,
  bit_or-bitwise (suc x) y,
  bit_or-bitwise (suc x / 2) (y / 2),
  either_digits_depth x (suc x / 2) (suc x / 2) (y / 2) (omega arith) (omega arith),
)

bit_or_none_up_to : (bound x : ℕ) → x ≤ bound → bit_or x 0 ≡ x
bit_or_none_up_to bound zero h = bit_or_of_zero 0
bit_or_none_up_to zero (suc x) h = absurd (omega arith)
bit_or_none_up_to (suc bound) (suc x) h =
    omega (arith, bit_or_halves (suc x) 0, bit_or_none_up_to bound (suc x / 2) (omega arith))

join_bit : (m b : ℕ) → bit_or (2 * m) b ≡ b % 2 + 2 * bit_or m (b / 2)
join_bit m b =
    bit_or_halves (2 * m) b
    ∙ ap (λ t. max (2 * m % 2) (b % 2) + 2 * bit_or t (b / 2)) half
    ∙ omega arith
  where
    half : 2 * m / 2 ≡ m
    half = omega arith

join_bits : (m b c : ℕ) → bit_or m (b / 2) ≡ c → bit_or (2 * m) b ≡ b % 2 + 2 * c
join_bits m b c e = join_bit m b ∙ ap (λ t. b % 2 + 2 * t) e

-- `x<<4 | b` of a hexadecimal digit `b`.
pub join_nibble : (m b : ℕ) → b < 16 → bit_or (m * 16) b ≡ m * 16 + b
join_nibble m b h =
    ap (λ t. bit_or t b) shape
    ∙ join_bits (2 * (2 * (2 * m))) b _ (
        join_bits (2 * (2 * m)) (b / 2) _ (
          join_bits (2 * m) (b / 2 / 2) _ (
            join_bits m (b / 2 / 2 / 2) m
              (ap (bit_or m) gone ∙ bit_or_none_up_to m m (omega arith)))))
    ∙ omega arith
  where
    shape : m * 16 ≡ 2 * (2 * (2 * (2 * m)))
    shape = omega arith

    gone : b / 2 / 2 / 2 / 2 ≡ 0
    gone = omega arith

twice : (m p : ℕ) → m * (p * 2) ≡ 2 * (m * p)
twice m p = omega (arith, sym (mul_assoc m p 2))

-- `x<<k | b` of a number `b` below `2 ^ k`.
pub join_pow : (k m b : ℕ) → b < 2 ^ k → bit_or (m * 2 ^ k) b ≡ m * 2 ^ k + b
join_pow zero m b h =
    let none_left : b ≡ 0 = omega arith in
    ap (bit_or (m * 2 ^ 0)) none_left
    ∙ bit_or_none_up_to (m * 2 ^ 0) (m * 2 ^ 0) (omega arith)
    ∙ omega (arith, none_left)
join_pow (suc k) m b h =
    let shape : m * 2 ^ suc k ≡ 2 * (m * 2 ^ k) = ap (λ t. m * t) (pow-suc 2 k) ∙ twice m (2 ^ k) in
    ap (λ t. bit_or t b) shape
    ∙ join_bits (m * 2 ^ k) b _ (join_pow k m (b / 2) (omega (arith, pow-suc 2 k)))
    ∙ omega (arith, shape)

pub bit_or-lt : (k x y : ℕ) → x < 2 ^ k → y < 2 ^ k → bit_or x y < 2 ^ k
bit_or-lt zero x y hx hy =
    let none_x : x ≡ 0 = omega arith in
    let none_y : y ≡ 0 = omega arith in omega (arith, ap (λ t. bit_or t y) none_x, bit_or_of_zero y)
bit_or-lt (suc k) x y hx hy = omega (
  arith,
  bit_or_halves x y,
  bit_or-lt k (x / 2) (y / 2) (omega (arith, pow-suc 2 k)) (omega (arith, pow-suc 2 k)),
  pow-suc 2 k,
)
