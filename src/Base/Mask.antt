-- ===== src/Base/Mask.antt =====
-- `x & (1<<k - 1)` is the remainder by `2 ^ k`, for every number `x`.
use Prim.Native.Nat.{
  ℕ, zero, suc, ◌+◌, ◌-◌, ◌*◌, ◌/◌, ◌%◌, ◌^◌, ◌≤◌, ◌<◌, min, bit_and, digits, bit_and-bitwise,
}
use mathlib.Core.Path.{◌≡◌, refl, ◌∙◌, ap}
use native.Mathlib.Nat.{
  pow-suc, div-add-mod, pow-le-pow_right, mod-lt, mod-eq_of_lt, add-mul-mod_self_left,
}
use native.Mathlib.Omega.{arith}

-- The digit recursion that `bit_and` stands for, at any depth that is enough.
abbrev both_digits : ℕ → ℕ → ℕ → ℕ
both_digits depth x y = digits (λ z. zero) min depth x y

both_digits_depth : (d e x y : ℕ) → x ≤ d → x ≤ e → both_digits d x y ≡ both_digits e x y
both_digits_depth zero zero zero y p q = refl
both_digits_depth zero zero (suc x) y p q = refl
both_digits_depth zero (suc e) zero y p q = refl
both_digits_depth zero (suc e) (suc x) y p q = absurd (omega arith)
both_digits_depth (suc d) zero zero y p q = refl
both_digits_depth (suc d) zero (suc x) y p q = absurd (omega arith)
both_digits_depth (suc d) (suc e) zero y p q = refl
both_digits_depth (suc d) (suc e) (suc x) y p q =
    omega (arith, both_digits_depth d e (suc x / 2) (y / 2) (omega arith) (omega arith))

bit_and_of_zero : (y : ℕ) → bit_and 0 y ≡ 0
bit_and_of_zero y = bit_and-bitwise 0 y

-- The lowest bit, and the bits above it.
bit_and_halves : (x y : ℕ) → bit_and x y ≡ min (x % 2) (y % 2) + 2 * bit_and (x / 2) (y / 2)
bit_and_halves zero y = omega (arith, bit_and_of_zero y, bit_and_of_zero (y / 2))
bit_and_halves (suc x) y = omega (
  arith,
  bit_and-bitwise (suc x) y,
  bit_and-bitwise (suc x / 2) (y / 2),
  both_digits_depth x (suc x / 2) (suc x / 2) (y / 2) (omega arith) (omega arith),
)

bit_and_empty : (bound x : ℕ) → x ≤ bound → bit_and x 0 ≡ 0
bit_and_empty bound zero h = bit_and_of_zero 0
bit_and_empty zero (suc x) h = absurd (omega arith)
bit_and_empty (suc bound) (suc x) h =
    omega (arith, bit_and_halves (suc x) 0, bit_and_empty bound (suc x / 2) (omega arith))

pub mod_twice : (x m : ℕ) → 0 < m → x % (2 * m) ≡ x % 2 + 2 * (x / 2 % m)
mod_twice x m h =
    ap (λ t. t % (2 * m)) whole
    ∙ add-mul-mod_self_left (x % 2 + 2 * (x / 2 % m)) (2 * m) (x / 2 / m)
    ∙ mod-eq_of_lt (omega (arith, mod-lt (x / 2) {m = m} h))
  where
    whole : x ≡ x % 2 + 2 * (x / 2 % m) + 2 * m * (x / 2 / m)
    whole = omega (arith, div-add-mod (x / 2) m)

pub pow_pos : (k : ℕ) → 0 < 2 ^ k
pow_pos zero = omega arith
pow_pos (suc k) = omega (arith, pow_pos k, pow-suc 2 k)

pub bit_and_mask : (k x : ℕ) → bit_and x (2 ^ k - 1) ≡ x % 2 ^ k
bit_and_mask zero x = bit_and_empty x x (omega arith) ∙ omega arith
bit_and_mask (suc k) x =
    bit_and_halves x (2 ^ suc k - 1)
    ∙ ap (λ t. min (x % 2) ((2 ^ suc k - 1) % 2) + 2 * bit_and (x / 2) t) half
    ∙ ap (λ t. min (x % 2) ((2 ^ suc k - 1) % 2) + 2 * t) (bit_and_mask k (x / 2))
    ∙ omega (arith, pow-suc 2 k, pow_pos k, mod_twice x (2 ^ k) (pow_pos k), double)
  where
    half : (2 ^ suc k - 1) / 2 ≡ 2 ^ k - 1
    half = omega (arith, pow-suc 2 k, pow_pos k)

    double : x % 2 ^ suc k ≡ x % (2 * 2 ^ k)
    double = ap (λ t. x % t) (omega (arith, pow-suc 2 k))

pub pow_le_of_le : (j k : ℕ) → j ≤ k → 2 ^ j ≤ 2 ^ k
pow_le_of_le j k h = pow-le-pow_right (omega arith) h
