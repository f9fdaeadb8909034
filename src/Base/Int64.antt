-- ===== src/Base/Int64.antt =====
-- Go's int64, as the word of 64 bits of its two's complement.
use fhttp.Base.{ℕ, ◌+◌, ◌%◌, ◌^◌, Bool, ltb, leb}

-- The value with 2^63 added, by which int64 numbers are ordered.
abbrev pub ord64 : ℕ → ℕ
ord64 a = (a + 2 ^ 63) % 2 ^ 64

abbrev pub signed_ltb64 : ℕ → ℕ → Bool
signed_ltb64 a b = ltb (ord64 a) (ord64 b)

abbrev pub signed_leb64 : ℕ → ℕ → Bool
signed_leb64 a b = leb (ord64 a) (ord64 b)
