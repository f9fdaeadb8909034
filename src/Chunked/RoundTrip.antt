-- ===== src/Chunked/RoundTrip.antt =====
-- What the writer wrote, and what the reader makes of it (internal/chunked.go).
use fhttp.Base.{
  ℕ, ◌≡◌, refl, ap, ◌∙◌, ◌++◌, append_assoc, length, none, false, List, [], ◌∷◌, Bytes, Option, All,
  ◌<◌, ◌==◌, not, arith,
}
use fhttp.Chunked.Writer.{
  to_hex, crlf, flushed, write_footer, write_body, chunked_write, chunked_close, WriteError,
}
use fhttp.Chunked.Reader.{ChunkedReader, read}
use fhttp.Chunked.Wire.{encoded, joined, IsChunk, at_line, IsAt, Returns}
use fhttp.Chunked.Delivery.{read-Returns}

-- A wire that takes all that it is given.
abbrev pub appended : Bytes → Bytes → Bytes × ℕ × Option ℕ
appended w p = (w ++ p, length p, none)

-- The wire after a `Write` of each chunk and `Close`.
unfoldable pub sent : Bytes → List Bytes → Bytes
sent w [] = (chunked_close appended none w).0
sent w (d ∷ ds) = let t = chunked_write appended none w d in sent t.0 ds

whole : (n : ℕ) → not (n == n) ≡ false
whole n = ground arith

write_body-appended :
    (w p : Bytes) → write_body appended none w p ≡ ((w ++ p) ++ crlf, length p, none)
unfolding write_body write_footer flushed
write_body-appended w p = rw (whole (length p)) refl

chunked_write-appended :
    (w d : Bytes)
    → 0 < length d
    → chunked_write appended none w d
      ≡ (((w ++ (to_hex (length d) ++ crlf)) ++ d) ++ crlf, length d, none)
unfolding chunked_write
chunked_write-appended w [] h = absurd (omega arith)
chunked_write-appended w (c ∷ d) h =
    write_body-appended (w ++ (to_hex (length (c ∷ d)) ++ crlf)) (c ∷ d)

chunk_assoc :
    (w h d x : Bytes)
    → (((w ++ (h ++ crlf)) ++ d) ++ crlf) ++ x ≡ w ++ (h ++ 0x0d ∷ 0x0a ∷ (d ++ 0x0d ∷ 0x0a ∷ x))
chunk_assoc w h d x =
    append_assoc ((w ++ (h ++ crlf)) ++ d) crlf x
    ∙ append_assoc (w ++ (h ++ crlf)) d (crlf ++ x)
    ∙ append_assoc w (h ++ crlf) (d ++ (crlf ++ x))
    ∙ ap (λ y. w ++ y) (append_assoc h crlf (d ++ (crlf ++ x)))

sent-encoded : (ds : List Bytes) (w t : Bytes) → All IsChunk ds → sent w ds ++ t ≡ w ++ encoded ds t
unfolding sent chunked_close
sent-encoded [] w t a = append_assoc w (0x30 ∷ crlf) t
sent-encoded (d ∷ ds) w t a =
    ap (λ (r : Bytes × ℕ × Option WriteError). sent r.0 ds ++ t) (chunked_write-appended w d a.0.0)
    ∙ sent-encoded ds (((w ++ (to_hex (length d) ++ crlf)) ++ d) ++ crlf) t a.1
    ∙ chunk_assoc w (to_hex (length d)) d (encoded ds t)

-- A reader in front of what `Write` of each chunk and `Close` put on the wire, with anything behind
-- it, where no chunk is empty and each length is below 2^64: `Read` does not fail, however the bytes
-- of the connection arrive. It returns the next bytes of the chunks' data, at least one where there
-- is room and one is left, and the reader stands behind them; or it returns all of them with io.EOF,
-- and leaves what is behind the line of the last chunk.
pub read-sent :
    (more : ℕ → ℕ) (cr : ChunkedReader) (ds : List Bytes) (room : ℕ) (t : Bytes)
    → All IsChunk ds
    → cr.r.bytes ≡ sent [] ds ++ t
    → cr.n ≡ 0
    → cr.err ≡ none
    → cr.check_end ≡ false
    → Returns (joined ds) t room [] (read more cr room)
read-sent more cr ds room t a bytes n e end =
    let stands : IsAt cr at_line ds t = record {
      bytes_at = bytes ∙ sent-encoded ds [] t a;
      n_at = n;
      err_at = e;
      end_at = end;
      chunks_at = a;
    } in
    read-Returns more t cr at_line ds room stands
