-- ===== src/Http2/Frame/Octets.antt =====
-- Numbers in network byte order (http2/frame.go): what the parsers read and the writers append.
use fhttp.Base.{ℕ, ◌+◌, ◌*◌, ◌/◌, ◌%◌, ◌^◌, ◌<◌, ◌≡◌, [], ◌∷◌, Bytes, arith}
use fhttp.Http2.Frame.{FrameResult, ok, err, unexpected_eof}

-- `binary.BigEndian.Uint32` and `Uint16` of octets; `|` of shifted octets adds them.
abbrev pub uint32 : ℕ → ℕ → ℕ → ℕ → ℕ
uint32 a b c d = a * 2 ^ 24 + b * 2 ^ 16 + c * 2 ^ 8 + d

abbrev pub uint16 : ℕ → ℕ → ℕ
uint16 a b = a * 2 ^ 8 + b

-- `writeUint32` and `writeUint16`, behind the octets of `f.wbuf`.
abbrev pub octets32 : ℕ → Bytes
octets32 v = (v / 2 ^ 24 % 256) ∷ (v / 2 ^ 16 % 256) ∷ (v / 2 ^ 8 % 256) ∷ (v % 256) ∷ []

abbrev pub octets16 : ℕ → Bytes
octets16 v = (v / 2 ^ 8 % 256) ∷ (v % 256) ∷ []

-- `v & (1<<31 - 1)` on a uint32
abbrev pub low31 : ℕ → ℕ
low31 v = v % 2 ^ 31

unfoldable pub read_byte : Bytes → FrameResult (Bytes × ℕ)
read_byte [] = err unexpected_eof
read_byte (b ∷ p) = ok (p, b)

unfoldable pub read_uint32 : Bytes → FrameResult (Bytes × ℕ)
read_uint32 (a ∷ b ∷ c ∷ d ∷ p) = ok (p, uint32 a b c d)
read_uint32 _ = err unexpected_eof

pub uint32-octets32 :
    (v : ℕ)
    → v < 2 ^ 32
    → uint32 (v / 2 ^ 24 % 256) (v / 2 ^ 16 % 256) (v / 2 ^ 8 % 256) (v % 256) ≡ v
uint32-octets32 v h = omega arith
