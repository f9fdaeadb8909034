-- ===== src/Http2/DataBuffer.antt =====
-- The chunked buffer of DATA frames (http2/databuffer.go). Positions and sizes are numbers; `expected`
-- is an int64. The chunks that the pools give hold any bytes: `pool k i` is what the `k`-th `Get` of
-- a call takes from pool `i`.
pub mod Contents
pub mod Read
pub mod Write
pub mod Append
use Prim.Native.Nat.{min}
use fhttp.Base.{
  ℕ, zero, suc, ◌+◌, ◌-◌, Bool, true, false, ◌&&◌, ◌||◌, Option, none, some, List, [], ◌∷◌, ◌++◌,
  Bytes, length, take, drop, ltb, leb, ◌==◌, if◌then◌else◌,
}
use fhttp.Base.Options.{◌>>=◌}
use fhttp.Base.Word.{sub64}
use fhttp.Base.Int64.{signed_ltb64, signed_leb64}

abbrev pub data_chunk_size_classes : List ℕ
data_chunk_size_classes = 1024 ∷ 2048 ∷ 4096 ∷ 8192 ∷ 16384 ∷ []

-- The loop of `getDataBufferChunk`: the pool's number.
unfoldable pub class_for : ℕ → ℕ → List ℕ → ℕ
class_for size i [] = i
class_for size i (n ∷ []) = i
class_for size i (n ∷ m ∷ ns) = if signed_leb64 size n then i else class_for size (i + 1) (m ∷ ns)

unfoldable pub get_data_buffer_chunk : (ℕ → Bytes) → ℕ → Bytes
get_data_buffer_chunk pool size = pool (class_for size 0 data_chunk_size_classes)

unfoldable pub has_length : List ℕ → ℕ → Bool
has_length [] n = false
has_length (m ∷ ms) n = n == m || has_length ms n

pub record DataBuffer : Type 0 where
  pub chunks : List Bytes
  pub r : ℕ
  pub w : ℕ
  pub size : ℕ
  pub expected : ℕ

-- `none` is a panic, here and below.
unfoldable pub bytes_from_first_chunk : List Bytes → ℕ → ℕ → Option Bytes
bytes_from_first_chunk [] r w = none
bytes_from_first_chunk (c ∷ []) r w =
    if leb r w && leb w (length c) then some (drop r (take w c)) else none
bytes_from_first_chunk (c ∷ d ∷ cs) r w = if leb r (length c) then some (drop r c) else none

-- `putDataBufferChunk` of the first chunk once it is consumed, and the advance to the next.
unfoldable pub advance : List Bytes → ℕ → Option (List Bytes × ℕ)
advance [] r = none
advance (c ∷ cs) r =
    if r == length c
    then if has_length data_chunk_size_classes (length c) then some (cs, 0) else none
    else some (c ∷ cs, r)

-- One round of the loop of `Read` into a slice of `n` bytes: the bytes copied and the buffer after.
unfoldable pub read_round : DataBuffer → ℕ → Option (Bytes × DataBuffer)
read_round b n = bytes_from_first_chunk b.chunks b.r b.w >>= λ src.
    advance b.chunks (b.r + min n (length src)) >>= λ t.
    some (take n src, record b { chunks = t.0; r = t.1; size = b.size - min n (length src) })

-- The loop of `Read`, with the bytes copied so far, in `fuel` rounds at most.
unfoldable pub read_loop : ℕ → DataBuffer → ℕ → Bytes → Option (Bytes × DataBuffer)
read_loop zero b n out = if n == 0 || b.size == 0 then some (out, b) else none
read_loop (suc fuel) b n out =
    let round = read_round b n >>= λ t. read_loop fuel t.1 (n - length t.0) (out ++ t.0) in
    if n == 0 || b.size == 0 then some (out, b) else round

pub data ReadResult : Type 0 where
  read_empty : ReadResult
  read_bytes : Bytes → ReadResult

-- `Read` into a slice of `n` bytes: every round but the last copies one byte or more.
unfoldable pub read : DataBuffer → ℕ → Option (ReadResult × DataBuffer)
read b n =
    if b.size == 0
    then some (read_empty, b)
    else read_loop n b n [] >>= λ t. some (read_bytes t.0, t.1)

unfoldable pub has_room : List Bytes → ℕ → Bool
has_room [] w = false
has_room (c ∷ []) w = ltb w (length c)
has_room (c ∷ d ∷ cs) w = has_room (d ∷ cs) w

unfoldable pub last_chunk_or_alloc : (ℕ → Bytes) → DataBuffer → ℕ → DataBuffer
last_chunk_or_alloc pool b want =
    if has_room b.chunks b.w
    then b
    else record b { chunks = b.chunks ++ get_data_buffer_chunk pool want ∷ []; w = 0 }

-- `copy(chunk[w:], p)` into the last chunk, and the number of bytes copied.
unfoldable pub copy_last : List Bytes → ℕ → Bytes → List Bytes × ℕ
copy_last [] w p = ([], 0)
copy_last (c ∷ []) w p =
    let n = min (length c - w) (length p) in ((take w c ++ (take n p ++ drop (w + n) c)) ∷ [], n)
copy_last (c ∷ d ∷ cs) w p = let t = copy_last (d ∷ cs) w p in (c ∷ t.0, t.1)

-- `int64(len(p))`, or what is expected where that is more.
unfoldable pub wanted : DataBuffer → Bytes → ℕ
wanted b p = if signed_ltb64 (length p) b.expected then b.expected else length p

unfoldable pub write_round : (ℕ → Bytes) → DataBuffer → Bytes → ℕ × DataBuffer
write_round pool b p =
    let b' = last_chunk_or_alloc pool b (wanted b p) in
    let t = copy_last b'.chunks b'.w p in
    (
      t.1,
      record {
        chunks = t.0;
        r = b'.r;
        w = b'.w + t.1;
        size = b'.size + t.1;
        expected = sub64 b'.expected t.1;
      },
    )

-- The loop of `Write` in `fuel` rounds at most; `k` counts the rounds.
unfoldable pub write_loop : (ℕ → ℕ → Bytes) → ℕ → ℕ → DataBuffer → Bytes → Option DataBuffer
write_loop pool fuel k b [] = some b
write_loop pool zero k b (x ∷ p) = none
write_loop pool (suc fuel) k b (x ∷ p) =
    let t = write_round (pool k) b (x ∷ p) in write_loop pool fuel (k + 1) t.1 (drop t.0 (x ∷ p))

-- `Write`, which copies one byte or more in each round.
unfoldable pub write : (ℕ → ℕ → Bytes) → DataBuffer → Bytes → Option DataBuffer
write pool b p = write_loop pool (length p) 0 b p
