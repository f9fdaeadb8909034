-- ===== src/Chunked/Delivery.antt =====
-- What the reader makes of a list of chunks on the wire (internal/chunked.go).
mod Steps
mod Rounds
use Prim.Native.Nat.{min}
use fhttp.Base.{
  ℕ, zero, suc, ◌+◌, ◌-◌, ◌^◌, ◌<◌, ◌≤◌, ◌≡◌, ◌⊎◌, inl, inr, refl, sym, ap, subst, ◌∙◌, Bool, true,
  false, not, ◌&&◌, Option, none, some, List, [], ◌∷◌, ◌++◌, append_assoc, append-nil, Bytes,
  length, length-append, length-take, length-drop, take, drop, drop-append, drop-append_le,
  take-append_le, take-append-drop, ltb, leb, ◌==◌, if◌then◌else◌, Bool-cases, All, arith,
}
use fhttp.Chunked.{ok}
use fhttp.Chunked.Writer.{hex_digit, hex_digits, to_hex, crlf, chunked_write, chunked_close}
use fhttp.Chunked.Reader.{
  BufReader, ReadError, eof, ChunkedReader, buffered, with_size, header_available, after,
  read_count, begin_chunk, Step, goes_on, stops, read_footer, check_footer, read_data, after_footer,
  round, read_loop, read,
}
use fhttp.Chunked.Reader.Ends.{bytes-after, check_footer-cases}
use fhttp.Chunked.Line.{begin_chunk-to_hex}
use fhttp.Chunked.Wire.{
  IsChunk, IsAt, Place, at_line, in_data, wire, payload, joined, encoded, Delivers, Returns,
  left_of, is_footer, stay, behind,
}
use fhttp.Chunked.Delivery.Rounds.{place_round}

module _ (more : ℕ → ℕ) (t : Bytes) where
  read_loop_over :
      (fuel : ℕ) (cr : ChunkedReader) (room : ℕ) (out : Bytes)
      → 0 < fuel
      → cr.err ≡ some eof
      → read_loop more fuel cr room out ≡ some (out, cr)
  unfolding read_loop round
  read_loop_over zero cr room out h e = absurd (omega arith)
  read_loop_over (suc fuel) cr room out h e =
      ap (λ x. round more (λ c m o. read_loop more fuel c m o) x cr room out) e

  read_loop-Returns :
      (fuel : ℕ) (cr : ChunkedReader) (place : Place) (ds : List Bytes) (room : ℕ) (out : Bytes)
      → IsAt cr place ds t
      → length cr.r.bytes + 2 ≤ fuel
      → Returns (payload place ds) t room out (read_loop more fuel cr room out)
  unfolding read_loop round
  read_loop-Returns zero cr place ds room out v h = absurd (omega arith)
  read_loop-Returns (suc zero) cr place ds room out v h = absurd (omega arith)
  read_loop-Returns (suc (suc fuel)) cr place ds room out v h =
      subst (Returns (payload place ds) t room out)
        (ap (λ x. round more (λ c m o. read_loop more (suc fuel) c m o) x cr room out)
          (sym v.err_at))
        (place_round more t (suc fuel) (λ c m o. read_loop more (suc fuel) c m o)
          (λ c m o e. read_loop_over (suc fuel) c m o (omega arith) e)
          (λ c m o p es w le. read_loop-Returns (suc fuel) c p es m o w le) cr place ds room out v
          (omega arith))

  -- `Read` on a stream of chunks, at any place of it and however the bytes of the connection arrive,
  -- does not fail: it returns the next bytes of the chunks' data, at least one where there is room
  -- and one is left, and the reader stands behind them; or it returns all that are left with io.EOF,
  -- and leaves what follows the line of the last chunk.
  pub read-Returns :
      (cr : ChunkedReader) (place : Place) (ds : List Bytes) (room : ℕ)
      → IsAt cr place ds t
      → Returns (payload place ds) t room [] (read more cr room)
  unfolding read
  read-Returns cr place ds room v =
      read_loop-Returns (length cr.r.bytes + 2) cr place ds room [] v (omega arith)
