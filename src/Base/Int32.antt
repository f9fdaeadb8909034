-- ===== src/Base/Int32.antt =====
-- Go's int32, as the word of 32 bits of its two's complement.
use fhttp.Base.{ℕ, ◌+◌, ◌%◌, ◌^◌, Bool, ltb, if◌then◌else◌}

-- The value with 2^31 added, by which int32 numbers are ordered.
abbrev pub ord : ℕ → ℕ
ord a = (a + 2 ^ 31) % 2 ^ 32

abbrev pub signed_ltb : ℕ → ℕ → Bool
signed_ltb a b = ltb (ord a) (ord b)

-- `if b < a { a = b }`
abbrev pub signed_min : ℕ → ℕ → ℕ
signed_min a b = if signed_ltb b a then b else a
