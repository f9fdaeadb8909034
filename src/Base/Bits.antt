-- ===== src/Base/Bits.antt =====
-- Masks on one byte as arithmetic: each is a table of 256 entries at most, checked by evaluation.
use Prim.Native.Nat.{ℕ, zero, suc, ◌+◌, ◌*◌, ◌/◌, ◌%◌, ◌<◌, bit_and, bit_or}
use mathlib.Core.Path.{◌≡◌, refl}
use mathlib.Core.Bool.{Bool, true, ◌&&◌}
use native.Mathlib.Omega.{arith}
use fhttp.Base.Tests.{◌==◌}

-- `f` and `g` agree on every number below `n`.
same_below : (ℕ → ℕ) → (ℕ → ℕ) → ℕ → Bool
same_below f g zero = true
same_below f g (suc n) = f n == g n && same_below f g n

same_below_sound : (f g : ℕ → ℕ) (n i : ℕ) → same_below f g n ≡ true → i < n → f i ≡ g i
unfolding same_below
same_below_sound f g zero i e h = absurd (omega arith)
same_below_sound f g (suc n) i e h = ground (arith, same_below_sound f g n i)

module _ (b : ℕ) (h : b < 256) where
  pub bit_and_127 : bit_and b 127 ≡ b % 128
  unfolding same_below
  bit_and_127 = same_below_sound (λ b. bit_and b 127) (λ b. b % 128) 256 b refl h

  pub bit_and_128 : bit_and b 128 ≡ b / 128 * 128
  unfolding same_below
  bit_and_128 = same_below_sound (λ b. bit_and b 128) (λ b. b / 128 * 128) 256 b refl h

  pub bit_and_192 : bit_and b 192 ≡ b / 64 * 64
  unfolding same_below
  bit_and_192 = same_below_sound (λ b. bit_and b 192) (λ b. b / 64 * 64) 256 b refl h

  pub bit_and_224 : bit_and b 224 ≡ b / 32 * 32
  unfolding same_below
  bit_and_224 = same_below_sound (λ b. bit_and b 224) (λ b. b / 32 * 32) 256 b refl h

  pub bit_and_240 : bit_and b 240 ≡ b / 16 * 16
  unfolding same_below
  bit_and_240 = same_below_sound (λ b. bit_and b 240) (λ b. b / 16 * 16) 256 b refl h

pub bit_or_128 : (b : ℕ) → b < 128 → bit_or b 128 ≡ b + 128
unfolding same_below
bit_or_128 b h = same_below_sound (λ b. bit_or b 128) (λ b. b + 128) 128 b refl h

pub bit_or_64 : (b : ℕ) → b < 64 → bit_or b 64 ≡ b + 64
unfolding same_below
bit_or_64 b h = same_below_sound (λ b. bit_or b 64) (λ b. b + 64) 64 b refl h

pub bit_or_32 : (b : ℕ) → b < 32 → bit_or b 32 ≡ b + 32
unfolding same_below
bit_or_32 b h = same_below_sound (λ b. bit_or b 32) (λ b. b + 32) 32 b refl h

pub bit_or_16 : (b : ℕ) → b < 16 → bit_or b 16 ≡ b + 16
unfolding same_below
bit_or_16 b h = same_below_sound (λ b. bit_or b 16) (λ b. b + 16) 16 b refl h

pub bit_or_128_left : (b : ℕ) → b < 128 → bit_or 128 b ≡ b + 128
unfolding same_below
bit_or_128_left b h = same_below_sound (λ b. bit_or 128 b) (λ b. b + 128) 128 b refl h

pub bit_or_none : (b : ℕ) → b < 256 → bit_or b 0 ≡ b
unfolding same_below
bit_or_none b h = same_below_sound (λ b. bit_or b 0) (λ b. b) 256 b refl h
