-- ===== src/Http2/Frame/RoundTrip.antt =====
-- What `ReadFrame` makes of the octets of the writers without padding (http2/frame.go).
use fhttp.Base.{
  ℕ, ◌+◌, ◌^◌, ◌<◌, ◌≤◌, ◌≡◌, ◌≢◌, refl, subst, Bool, true, ◌++◌, Bytes, length, arith,
  if◌then◌else◌,
}
use fhttp.Http2.Frame.{
  FrameHeader, FrameResult, ok, ◌>>=◌, Frame, header, ping_frame, go_away_frame,
  window_update_frame, rst_stream_frame, frame_window_update, flag_ack,
}
use fhttp.Http2.Frame.Octets.{octets32, low31, uint32-octets32}
use fhttp.Http2.Frame.Write.{
  start_write, end_write, write_ping, write_go_away, write_window_update, write_rst_stream,
  valid_stream_id,
}
use fhttp.Http2.Frame.Read.{Framer, read_frame, check_frame_order}
use fhttp.Http2.Frame.Parse.{
  parse_frame, parse_ping_frame, parse_go_away_frame, go_away_parts, parse_window_update_frame,
  only_uint32, parse_rst_stream_frame,
}
use fhttp.Http2.Frame.Framing.{header_octets, end_write-start_write, read_frame-octets}

abbrev pub header_for : ℕ → ℕ → ℕ → Bytes → FrameHeader
header_for t f s p = record { type = t; flags = f; length = length p; stream_id = s }

-- A writer succeeds, and `ReadFrame` takes just its octets from the front and returns the frame, if
-- `checkFrameOrder` agrees.
abbrev pub ReadsBack : Framer → Bytes → FrameResult Bytes → Frame → Type 0
ReadsBack fr rest written g =
    (w : Bytes) × (written ≡ ok w)
    × (read_frame fr (w ++ rest) ≡ (check_frame_order fr (header g) >>= λ fr'. ok (g, fr', rest)))

pub framed-ReadsBack :
    (fr : Framer) (rest : Bytes) (t f s : ℕ) (p : Bytes) (g : Frame)
    → length p < 2 ^ 24
    → length p ≤ fr.max_read_size
    → t < 256
    → f < 256
    → s < 2 ^ 31
    → parse_frame (header_for t f s p) p ≡ ok g
    → ReadsBack fr rest (end_write (start_write t f s ++ p)) g
framed-ReadsBack fr rest t f s p g hn hm ht hf hs e = (
  header_octets (length p) t f s ++ p,
  end_write-start_write t f s p hn,
  read_frame-octets fr t f s p rest g hn hm ht hf hs e,
)

pub valid_stream_id-bounds :
    (s : ℕ) → s < 2 ^ 32 → valid_stream_id s ≡ true → (s ≢ 0) × (s < 2 ^ 31)
unfolding valid_stream_id
valid_stream_id-bounds s hs v = ground arith

parse_frame-ping :
    (f : ℕ) (d : Bytes)
    → length d ≡ 8
    → parse_frame (header_for 6 f 0 d) d ≡ ok (ping_frame (header_for 6 f 0 d) d)
unfolding parse_frame parse_ping_frame
parse_frame-ping f d h8 = ground (arith, h8)

-- The octets of a PING are read as that PING, whatever follows them.
pub write_ping-ReadsBack :
    (fr : Framer) (rest : Bytes) (ack : Bool) (d : Bytes)
    → length d ≡ 8
    → 8 ≤ fr.max_read_size
    → ReadsBack fr rest
        (write_ping ack d)
        (ping_frame (header_for 6 (if ack then flag_ack else 0) 0 d) d)
unfolding write_ping
write_ping-ReadsBack fr rest ack d h8 hm =
    framed-ReadsBack fr rest 6 (if ack then flag_ack else 0) 0 d _ (omega (arith, h8))
      (omega (arith, h8)) (omega arith) (ground arith) (omega arith) (parse_frame-ping _ d h8)

parse_frame-window_update :
    (s incr : ℕ)
    → 1 ≤ incr
    → incr < 2 ^ 31
    → parse_frame (header_for 8 0 s (octets32 incr)) (octets32 incr)
      ≡ ok (window_update_frame (header_for 8 0 s (octets32 incr)) incr)
unfolding parse_frame parse_window_update_frame only_uint32
parse_frame-window_update s incr h1 hi = ground (arith, uint32-octets32 incr (omega arith))

-- The octets of a WINDOW_UPDATE with a legal increment are read as that WINDOW_UPDATE.
pub write_window_update-ReadsBack :
    (fr : Framer) (rest : Bytes) (s incr : ℕ)
    → s < 2 ^ 31
    → 1 ≤ incr
    → incr < 2 ^ 31
    → 4 ≤ fr.max_read_size
    → ReadsBack fr rest
        (write_window_update s incr)
        (window_update_frame (header_for 8 0 s (octets32 incr)) incr)
unfolding write_window_update
write_window_update-ReadsBack fr rest s incr hs h1 hi hm =
    subst (λ r. ReadsBack fr rest r (window_update_frame (header_for 8 0 s (octets32 incr)) incr))
      legal
      (framed-ReadsBack fr rest 8 0 s (octets32 incr) _ (omega arith) hm (omega arith) (omega arith)
        hs (parse_frame-window_update s incr h1 hi))
  where
    legal :
        end_write (start_write frame_window_update 0 s ++ octets32 incr)
        ≡ write_window_update s incr
    legal = ground arith

abbrev pub go_away_payload : ℕ → ℕ → Bytes → Bytes
go_away_payload last code d = octets32 (low31 last) ++ (octets32 code ++ d)

parse_frame-go_away :
    (last code : ℕ) (d : Bytes) (h : FrameHeader)
    → h.type ≡ 7
    → h.stream_id ≡ 0
    → code < 2 ^ 32
    → parse_frame h (go_away_payload last code d) ≡ ok (go_away_frame h (low31 last) code d)
unfolding parse_frame parse_go_away_frame go_away_parts
parse_frame-go_away last code d h ht h0 hc =
    let low : low31 (low31 last) ≡ low31 last = omega arith in
    simp (ht, h0, uint32-octets32 (low31 last) (omega arith), low, uint32-octets32 code hc)

-- The octets of a GOAWAY are read as a GOAWAY with the low 31 bits of the stream id, the code and
-- the debug data.
pub write_go_away-ReadsBack :
    (fr : Framer) (rest : Bytes) (last code : ℕ) (d : Bytes)
    → code < 2 ^ 32
    → length d + 8 < 2 ^ 24
    → length d + 8 ≤ fr.max_read_size
    → ReadsBack fr rest
        (write_go_away last code d)
        (go_away_frame (header_for 7 0 0 (go_away_payload last code d)) (low31 last) code d)
unfolding write_go_away
write_go_away-ReadsBack fr rest last code d hc hd hm =
    framed-ReadsBack fr rest 7 0 0 (go_away_payload last code d) _ (omega arith) (omega arith)
      (omega arith) (omega arith) (omega arith) (parse_frame-go_away last code d _ refl refl hc)

parse_frame-rst_stream :
    (s code : ℕ)
    → s ≢ 0
    → code < 2 ^ 32
    → parse_frame (header_for 3 0 s (octets32 code)) (octets32 code)
      ≡ ok (rst_stream_frame (header_for 3 0 s (octets32 code)) code)
unfolding parse_frame parse_rst_stream_frame only_uint32
parse_frame-rst_stream s code h0 hc = ground (arith, uint32-octets32 code hc)

-- The octets of a RST_STREAM on a valid stream id are read as that RST_STREAM.
pub write_rst_stream-ReadsBack :
    (fr : Framer) (rest : Bytes) (s code : ℕ)
    → s < 2 ^ 32
    → valid_stream_id s ≡ true
    → code < 2 ^ 32
    → 4 ≤ fr.max_read_size
    → ReadsBack fr rest
        (write_rst_stream s code)
        (rst_stream_frame (header_for 3 0 s (octets32 code)) code)
unfolding write_rst_stream
write_rst_stream-ReadsBack fr rest s code hs v hc hm =
    let b = valid_stream_id-bounds s hs v in
    rw v (
      framed-ReadsBack fr rest 3 0 s (octets32 code) _ (omega arith) hm (omega arith) (omega arith)
        b.1 (parse_frame-rst_stream s code b.0 hc))
