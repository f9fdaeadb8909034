-- ===== src/Chunked.antt =====
-- The size line of a chunk in internal/chunked.go.
pub mod Size
pub mod Writer
pub mod Reader
pub mod Line
pub mod Wire
pub mod Delivery
pub mod RoundTrip
mod Tests
use Prim.Native.Nat.{bit_or}
use fhttp.Base.{
  ℕ, ◌+◌, ◌-◌, Bool, ◌&&◌, Option, none, some, List, [], ◌∷◌, Bytes, leb, ◌==◌, if◌then◌else◌,
}
use fhttp.Base.Word.{shl64}

-- The two errors of `parseHexUint`.
pub data SizeError : Type 0 where
  invalid_byte too_large : SizeError

pub data SizeResult : Type 0 where
  ok : ℕ → SizeResult
  err : SizeError → SizeResult

-- The switch of `parseHexUint`; `none` is its default.
unfoldable pub digit : ℕ → Option ℕ
digit b =
    if leb 48 b && leb b 57
    then some (b - 48)
    else if leb 97 b && leb b 102
    then some (b - 97 + 10)
    else if leb 65 b && leb b 70
    then some (b - 65 + 10)
    else none

-- The loop from index `i` on.
unfoldable pub parse_from : ℕ → ℕ → Bytes → SizeResult
parse_from i n [] = ok n
parse_from i n (b ∷ v) = elim (digit b) [
  | none ↦ err invalid_byte
  | some d ↦
      let rest = parse_from (i + 1) (bit_or (shl64 n 4) d) v in
      if i == 16 then err too_large else rest
]

unfoldable pub parse_hex_uint : Bytes → SizeResult
parse_hex_uint v = parse_from 0 0 v
