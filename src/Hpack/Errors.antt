-- ===== src/Hpack/Errors.antt =====
-- The errors of package hpack, and the results of its functions.
use fhttp.Base.{ℕ}

-- `need_more` is `errNeedMore` and `string_length` is `ErrStringLength`. The others are the
-- values of `DecodingError`, and `ErrInvalidHuffman`.
pub data Error : Type 0 where
  need_more string_length invalid_huffman varint_overflow : Error
  invalid_index : ℕ → Error
  invalid_encoding update_not_first update_too_large truncated_headers : Error

-- A Go result with its `error`; `panic` stands for a run-time panic.
pub data Result {ℓ} (A : Type ℓ) : Type ℓ where
  ok : A → Result A
  err : Error → Result A
  panic : Result A

infixl 5 ◌>>=◌
abbrev pub ◌>>=◌ {ℓ κ} : {A : Type ℓ} {B : Type κ} → Result A → (A → Result B) → Result B
ok a >>= f = f a
err e >>= f = err e
panic >>= f = panic
