-- ===== src/Hpack/VarInt.antt =====
-- The variable-length integers of HPACK: `appendVarInt` (http2/hpack/encode.go) and `readVarInt`
-- (http2/hpack/hpack.go).
pub mod Encoding
pub mod RoundTrip
pub mod Limits
use Prim.Native.Nat.{bit_and, bit_or}
use fhttp.Base.{
  ℕ, zero, suc, ◌+◌, ◌-◌, ◌/◌, ◌%◌, ◌^◌, ◌||◌, List, [], ◌∷◌, ◌++◌, Bytes, ltb, leb, ◌==◌,
  if◌then◌else◌,
}
use fhttp.Base.Word.{add64, shl64}
use fhttp.Hpack.Errors.{Result, ok, err, panic, need_more, varint_overflow}

-- `for ; i >= 128; i >>= 7 { dst = append(dst, byte(0x80|(i&0x7f))) }` and the last append.
-- After 9 rounds a uint64 is below 2, so the loop makes 9 rounds at most.
unfoldable pub append_var_int_loop : ℕ → Bytes → ℕ → Bytes
append_var_int_loop zero dst i = dst ++ i % 256 ∷ []
append_var_int_loop (suc rounds) dst i =
    let more =
      append_var_int_loop rounds (dst ++ bit_or 128 (bit_and i 127) % 256 ∷ []) (i / 128) in
    if leb 128 i then more else dst ++ i % 256 ∷ []

unfoldable pub append_var_int : Bytes → ℕ → ℕ → Bytes
append_var_int dst n i =
    let k = 2 ^ n - 1 in
    if ltb i k then dst ++ i % 256 ∷ [] else append_var_int_loop 9 (dst ++ k % 256 ∷ []) (i - k)

-- The loop of `readVarInt`, on what is left of `p`; `i` and `m` are uint64.
unfoldable pub read_var_int_loop : Bytes → ℕ → ℕ → Result (ℕ × Bytes)
read_var_int_loop [] i m = err need_more
read_var_int_loop (b ∷ p) i m =
    let i' = add64 i (shl64 (bit_and b 127) m) in
    let more = read_var_int_loop p i' (m + 7) in
    if bit_and b 128 == 0 then ok (i', p) else if leb 63 (m + 7) then err varint_overflow else more

unfoldable pub read_var_int : ℕ → Bytes → Result (ℕ × Bytes)
read_var_int n [] = if ltb n 1 || ltb 8 n then panic else err need_more
read_var_int n (b ∷ p) =
    if ltb n 1 || ltb 8 n
    then panic
    else let i = (if ltb n 8 then bit_and b (2 ^ n - 1) else b) in
      if ltb i (2 ^ n - 1) then ok (i, p) else read_var_int_loop p i 0
