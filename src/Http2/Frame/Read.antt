-- ===== src/Http2/Frame/Read.antt =====
-- `ReadFrame` and `checkFrameOrder` of http2/frame.go, with ReadMetaHeaders nil. The reader is the
-- list of the octets that it still holds before its end.
use fhttp.Base.{
  ℕ, ◌+◌, ◌*◌, ◌^◌, Bool, not, ◌&&◌, ◌||◌, ◌∷◌, Bytes, length, take, drop, ltb, leb, ◌==◌,
  if◌then◌else◌,
}
use fhttp.Http2.Frame.{
  FrameHeader, FrameResult, ok, err, ◌>>=◌, connection_error, frame_too_large, eof, unexpected_eof,
  err_code_protocol, Frame, header, has, flag_end_headers, frame_headers, frame_push_promise,
  frame_continuation,
}
use fhttp.Http2.Frame.Octets.{uint32, low31}
use fhttp.Http2.Frame.Parse.{parse_frame}

pub record Framer : Type 0 where
  pub last_header_stream : ℕ
  pub max_read_size : ℕ
  pub allow_illegal_reads : Bool

-- `io.ReadFull(r, buf)` with a buffer of `n` octets.
unfoldable pub read_full : ℕ → Bytes → FrameResult (Bytes × Bytes)
read_full n r =
    if leb n (length r)
    then ok (take n r, drop n r)
    else if length r == 0
    then err eof
    else err unexpected_eof

unfoldable pub header_of : Bytes → FrameResult FrameHeader
header_of (a ∷ b ∷ c ∷ t ∷ f ∷ s ∷ u ∷ v ∷ w ∷ _) = ok (record {
  type = t;
  flags = f;
  length = a * 2 ^ 16 + b * 2 ^ 8 + c;
  stream_id = low31 (uint32 s u v w);
})
header_of _ = err unexpected_eof

unfoldable pub read_frame_header : Bytes → FrameResult (FrameHeader × Bytes)
unfolding header_of
read_frame_header r = read_full 9 r >>= λ b. header_of b.0 >>= λ h. ok (h, b.1)

-- The state that `checkFrameOrder` leaves, or its error.
unfoldable pub check_frame_order : Framer → FrameHeader → FrameResult Framer
check_frame_order fr fh =
    if fr.allow_illegal_reads
    then ok fr
    else if not (fr.last_header_stream == 0) && not (fh.type == frame_continuation)
    then err (connection_error err_code_protocol)
    else if not (fr.last_header_stream == 0) && not (fh.stream_id == fr.last_header_stream)
    then err (connection_error err_code_protocol)
    else if fr.last_header_stream == 0 && fh.type == frame_continuation
    then err (connection_error err_code_protocol)
    else if fh.type == frame_headers
        || fh.type == frame_push_promise
        || fh.type == frame_continuation
    then ok (record fr {
      last_header_stream = (if has fh.flags flag_end_headers then 0 else fh.stream_id);
    })
    else ok fr

-- The frame, the framer after it and the octets that are left.
unfoldable pub read_frame : Framer → Bytes → FrameResult (Frame × Framer × Bytes)
read_frame fr r = read_frame_header r >>= λ h.
    if ltb fr.max_read_size h.0.length
    then err frame_too_large
    else (read_full h.0.length h.1 >>= λ p.
        parse_frame h.0 p.0 >>= λ f. check_frame_order fr (header f) >>= λ fr'. ok (f, fr', p.1))
