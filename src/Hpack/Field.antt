-- ===== src/Hpack/Field.antt =====
-- `HeaderField` of http2/hpack/hpack.go.
use fhttp.Base.{ℕ, ◌+◌, ◌%◌, Bool, false, Bytes, [], ◌∷◌, length, ◌==◌}
use fhttp.Base.Word.{u32}

-- Names and values are opaque sequences of octets.
pub record HeaderField : Type 0 where
  pub name : Bytes
  pub value : Bytes
  pub sensitive : Bool

-- `HeaderField{}`
abbrev pub zero_field : HeaderField
zero_field = record { name = []; value = []; sensitive = false }

-- `uint32(len(hf.Name) + len(hf.Value) + 32)`
unfoldable pub size : HeaderField → ℕ
size f = (length f.name + length f.value + 32) % u32

-- The same with no wrap-around.
abbrev pub true_size : HeaderField → ℕ
true_size f = length f.name + length f.value + 32

starts_with_colon : Bytes → Bool
starts_with_colon [] = false
starts_with_colon (c ∷ s) = c == b':'

unfoldable pub is_pseudo : HeaderField → Bool
unfolding starts_with_colon
is_pseudo f = starts_with_colon f.name
