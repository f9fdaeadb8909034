-- ===== src/Http2/Frame/Framing.antt =====
-- `startWrite`, `endWrite` and `readFrameHeader` of http2/frame.go: what frames a payload.
use fhttp.Base.{
  ℕ, ◌+◌, ◌*◌, ◌/◌, ◌%◌, ◌^◌, ◌<◌, ◌≤◌, ◌≡◌, ◌∙◌, ap, ◌∷◌, ◌++◌, Bytes, length, arith, take-append,
  drop-append, le→ltb, length-append,
}
use fhttp.Http2.Frame.{FrameHeader, FrameResult, ok, ◌>>=◌, Frame, header}
use fhttp.Http2.Frame.Octets.{uint32, octets32, low31}
use fhttp.Http2.Frame.Write.{start_write, end_write}
use fhttp.Http2.Frame.Read.{
  Framer, read_full, header_of, read_frame_header, read_frame, check_frame_order,
}
use fhttp.Http2.Frame.Parse.{parse_frame}

abbrev pub header_octets : ℕ → ℕ → ℕ → ℕ → Bytes
header_octets n t f s =
    (n / 2 ^ 16 % 256) ∷ (n / 2 ^ 8 % 256) ∷ (n % 256) ∷ (t % 256) ∷ (f % 256) ∷ octets32 s

pub end_write-start_write :
    (t f s : ℕ) (p : Bytes)
    → length p < 2 ^ 24
    → end_write (start_write t f s ++ p) ≡ ok (header_octets (length p) t f s ++ p)
unfolding end_write start_write
end_write-start_write t f s p h = ground arith

pub read_full-append : (p rest : Bytes) → read_full (length p) (p ++ rest) ≡ ok (p, rest)
unfolding read_full
read_full-append p rest =
    rw (take-append p rest, drop-append p rest) (ground (arith, length-append p rest))

pub read_frame_header-octets :
    (n t f s : ℕ) (rest : Bytes)
    → n < 2 ^ 24
    → t < 256
    → f < 256
    → s < 2 ^ 31
    → read_frame_header (header_octets n t f s ++ rest)
      ≡ ok (record { type = t; flags = f; length = n; stream_id = s }, rest)
unfolding read_frame_header header_of
read_frame_header-octets n t f s rest hn ht hf hs =
    ap (λ b. b >>= then_header) (read_full-append (header_octets n t f s) rest)
    ∙ ap (λ h. ok (h, rest)) fields
  where
    then_header : Bytes × Bytes → FrameResult (FrameHeader × Bytes)
    then_header b = header_of b.0 >>= λ h. ok (h, b.1)

    wanted : FrameHeader
    wanted = record { type = t; flags = f; length = n; stream_id = s }

    found : FrameHeader
    found = record {
      type = t % 256;
      flags = f % 256;
      length = n / 2 ^ 16 % 256 * 2 ^ 16 + n / 2 ^ 8 % 256 * 2 ^ 8 + n % 256;
      stream_id = low31 (uint32 (s / 2 ^ 24 % 256) (s / 2 ^ 16 % 256) (s / 2 ^ 8 % 256) (s % 256));
    }

    fields : found ≡ wanted
    fields = grind arith

-- A frame of a legal size is its header, its payload and what follows.
pub read_frame-octets :
    (fr : Framer) (t f s : ℕ) (p rest : Bytes) (g : Frame)
    → length p < 2 ^ 24
    → length p ≤ fr.max_read_size
    → t < 256
    → f < 256
    → s < 2 ^ 31
    → parse_frame (record { type = t; flags = f; length = length p; stream_id = s }) p ≡ ok g
    → read_frame fr ((header_octets (length p) t f s ++ p) ++ rest)
      ≡ (check_frame_order fr (header g) >>= λ fr'. ok (g, fr', rest))
unfolding read_frame
read_frame-octets fr t f s p rest g hn hm ht hf hs e = simp (
  read_frame_header-octets (length p) t f s (p ++ rest) hn ht hf hs,
  le→ltb fr.max_read_size (length p) hm,
  read_full-append p rest,
  e,
)
