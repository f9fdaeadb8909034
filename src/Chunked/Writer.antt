-- ===== src/Chunked/Writer.antt =====
-- The writer of chunks (internal/chunked.go). `Wire` is any `io.Writer`: `wire w p` is its state after
-- a write of `p`, the count that it returns and its error; `flush` is there for a FlushAfterChunkWriter.
use fhttp.Base.{
  ℕ, zero, suc, ◌+◌, ◌/◌, ◌%◌, not, Option, none, some, [], ◌∷◌, ◌++◌, Bytes, length, ltb, ◌==◌,
  if◌then◌else◌,
}
use mathlib.Core.Option

-- `%x` of fmt, for a number below 2^64: at most 16 digits.
unfoldable pub hex_digit : ℕ → ℕ
hex_digit d = if ltb d 10 then d + 48 else d + 87

unfoldable pub hex_digits : ℕ → ℕ → Bytes
unfolding hex_digit
hex_digits zero n = []
hex_digits (suc k) n =
    let front = hex_digits k (n / 16) in
    if ltb n 16 then hex_digit n ∷ [] else front ++ hex_digit (n % 16) ∷ []

unfoldable pub to_hex : ℕ → Bytes
to_hex n = hex_digits 16 n

abbrev pub crlf : Bytes
crlf = 0x0d ∷ 0x0a ∷ []

pub data WriteError : Type 0 where
  wire_error : ℕ → WriteError
  short_write : WriteError

module _ {W : Type 0} (wire : W → Bytes → W × ℕ × Option ℕ)
    (flush : Option (W → W × Option ℕ)) where
  -- What a write of the wire is followed by, unless it failed.
  abbrev pub then_write :
      W × ℕ × Option ℕ → (W → ℕ → W × ℕ × Option WriteError) → ℕ → W × ℕ × Option WriteError
  then_write (w, n, some e) k count = (w, count, some (wire_error e))
  then_write (w, n, none) k count = k w n

  unfoldable pub flushed : Option (W → W × Option ℕ) → W → ℕ → W × ℕ × Option WriteError
  flushed none w n = (w, n, none)
  flushed (some f) w n = ((f w).0, n, Option.map wire_error (f w).1)

  -- The CRLF behind the data; its own count is dropped.
  unfoldable pub write_footer : W → ℕ → W × ℕ × Option WriteError
  unfolding flushed
  write_footer w n = then_write (wire w crlf) (λ w' _. flushed flush w' n) n

  unfoldable pub write_body : W → Bytes → W × ℕ × Option WriteError
  unfolding write_footer
  write_body w p =
      let t = wire w p in
      then_write t
        (λ w' n. if not (n == length p) then (w', n, some short_write) else write_footer w' n) t.1

  -- `Write`: the wire after it, the count and the error.
  unfoldable pub chunked_write : W → Bytes → W × ℕ × Option WriteError
  unfolding write_body
  chunked_write w [] = (w, 0, none)
  chunked_write w (c ∷ p) =
      then_write (wire w (to_hex (length (c ∷ p)) ++ crlf)) (λ w' _. write_body w' (c ∷ p)) 0

  -- `Close`
  unfoldable pub chunked_close : W → W × Option ℕ
  chunked_close w = let t = wire w (0x30 ∷ crlf) in (t.0, t.2)
