-- ===== src/Http2/Frame.antt =====
-- The frames of HTTP/2 (http2/frame.go): headers, flags, and the data of each frame type.
pub mod Octets
pub mod Parse
pub mod Write
pub mod Read
pub mod Framing
pub mod RoundTrip
pub mod Padded
pub mod Blocks
pub mod Settings
pub mod Control
pub mod Order
use Prim.Native.Nat.{bit_and}
use fhttp.Base.{ℕ, ◌+◌, ◌*◌, Bool, true, false, List, [], ◌∷◌, Bytes, ◌==◌, ltb}

-- The registered frame types.
abbrev pub frame_data : ℕ
frame_data = 0x0

abbrev pub frame_headers : ℕ
frame_headers = 0x1

abbrev pub frame_priority : ℕ
frame_priority = 0x2

abbrev pub frame_rst_stream : ℕ
frame_rst_stream = 0x3

abbrev pub frame_settings : ℕ
frame_settings = 0x4

abbrev pub frame_push_promise : ℕ
frame_push_promise = 0x5

abbrev pub frame_ping : ℕ
frame_ping = 0x6

abbrev pub frame_go_away : ℕ
frame_go_away = 0x7

abbrev pub frame_window_update : ℕ
frame_window_update = 0x8

abbrev pub frame_continuation : ℕ
frame_continuation = 0x9

-- END_STREAM, and ACK of SETTINGS and PING
abbrev pub flag_end_stream : ℕ
flag_end_stream = 0x1

abbrev pub flag_ack : ℕ
flag_ack = 0x1

abbrev pub flag_end_headers : ℕ
flag_end_headers = 0x4

abbrev pub flag_padded : ℕ
flag_padded = 0x8

abbrev pub flag_priority : ℕ
flag_priority = 0x20

-- `f.Has(v)`
unfoldable pub has : ℕ → ℕ → Bool
has f v = bit_and f v == v

-- `FrameHeader`; its field `valid`, which guards the reuse of buffers, is left out.
pub record FrameHeader : Type 0 where
  pub type : ℕ
  pub flags : ℕ
  pub length : ℕ
  pub stream_id : ℕ

-- The error codes that the parsers use.
abbrev pub err_code_protocol : ℕ
err_code_protocol = 0x1

abbrev pub err_code_flow_control : ℕ
err_code_flow_control = 0x3

abbrev pub err_code_frame_size : ℕ
err_code_frame_size = 0x6

-- `ConnectionError`, with which `ReadFrame` also answers a `connError`; `StreamError`; the errors
-- of the writers; `io.EOF` and `io.ErrUnexpectedEOF`.
pub data FrameError : Type 0 where
  connection_error : ℕ → FrameError
  stream_error : ℕ → ℕ → FrameError
  frame_too_large stream_id_error dep_stream_id_error pad_length_error pad_bytes_error : FrameError
  window_increment_error eof unexpected_eof : FrameError

pub data FrameResult {ℓ} (A : Type ℓ) : Type ℓ where
  ok : A → FrameResult A
  err : FrameError → FrameResult A

infixl 5 ◌>>=◌
abbrev pub ◌>>=◌ {ℓ κ} :
    {A : Type ℓ} {B : Type κ} → FrameResult A → (A → FrameResult B) → FrameResult B
ok a >>= f = f a
err e >>= f = err e

pub record PriorityParam : Type 0 where
  pub stream_dep : ℕ
  pub exclusive : Bool
  pub weight : ℕ

abbrev pub zero_priority : PriorityParam
zero_priority = record { stream_dep = 0; exclusive = false; weight = 0 }

-- An id and a value.
abbrev pub Setting : Type 0
Setting = ℕ × ℕ

-- The frames that `ReadFrame` returns, each with its header.
pub data Frame : Type 0 where
  data_frame : FrameHeader → Bytes → Frame
  headers_frame : FrameHeader → PriorityParam → Bytes → Frame
  priority_frame : FrameHeader → PriorityParam → Frame
  rst_stream_frame : FrameHeader → ℕ → Frame
  settings_frame : FrameHeader → Bytes → Frame
  push_promise_frame : FrameHeader → ℕ → Bytes → Frame
  ping_frame : FrameHeader → Bytes → Frame
  go_away_frame : FrameHeader → ℕ → ℕ → Bytes → Frame
  window_update_frame : FrameHeader → ℕ → Frame
  continuation_frame : FrameHeader → Bytes → Frame
  unknown_frame : FrameHeader → Bytes → Frame

-- `f.Header()`
unfoldable pub header : Frame → FrameHeader
header (data_frame h _) = h
header (headers_frame h _ _) = h
header (priority_frame h _) = h
header (rst_stream_frame h _) = h
header (settings_frame h _) = h
header (push_promise_frame h _ _) = h
header (ping_frame h _) = h
header (go_away_frame h _ _ _) = h
header (window_update_frame h _) = h
header (continuation_frame h _) = h
header (unknown_frame h _) = h
