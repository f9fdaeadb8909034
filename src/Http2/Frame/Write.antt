-- ===== src/Http2/Frame/Write.antt =====
-- The writers of `Framer` (http2/frame.go): the octets that each hands to its io.Writer, with
-- AllowIllegalWrites false.
use Prim.Native.Nat.{bit_or}
use fhttp.Base.{
  ℕ, ◌+◌, ◌-◌, ◌/◌, ◌%◌, ◌^◌, Bool, true, false, not, ◌&&◌, ◌||◌, Option, none, some, List, [], ◌∷◌,
  ◌++◌, Bytes, length, replicate, ltb, leb, ◌==◌, if◌then◌else◌,
}
use fhttp.Http2.Frame.{
  FrameResult, ok, err, frame_too_large, stream_id_error, dep_stream_id_error, pad_length_error,
  pad_bytes_error, window_increment_error, PriorityParam, Setting, frame_data, frame_headers,
  frame_priority, frame_rst_stream, frame_settings, frame_push_promise, frame_ping, frame_go_away,
  frame_window_update, frame_continuation, flag_end_stream, flag_ack, flag_end_headers, flag_padded,
  flag_priority,
}
use fhttp.Http2.Frame.Octets.{octets32, octets16, low31}

-- `f.wbuf` after `startWrite`; the length is filled in by `endWrite`.
unfoldable pub start_write : ℕ → ℕ → ℕ → Bytes
start_write ftype flags stream_id = 0 ∷ 0 ∷ 0 ∷ (ftype % 256) ∷ (flags % 256) ∷ octets32 stream_id

unfoldable pub fill_length : ℕ → Bytes → Bytes
fill_length n (a ∷ b ∷ c ∷ rest) = (n / 2 ^ 16 % 256) ∷ (n / 2 ^ 8 % 256) ∷ (n % 256) ∷ rest
fill_length n wbuf = wbuf

unfoldable pub end_write : Bytes → FrameResult Bytes
unfolding fill_length
end_write wbuf =
    let n = length wbuf - 9 in
    if leb (2 ^ 24) n then err frame_too_large else ok (fill_length n wbuf)

unfoldable pub valid_stream_id_or_zero : ℕ → Bool
valid_stream_id_or_zero stream_id = stream_id / 2 ^ 31 % 2 == 0

unfoldable pub valid_stream_id : ℕ → Bool
unfolding valid_stream_id_or_zero
valid_stream_id stream_id = not (stream_id == 0) && stream_id / 2 ^ 31 % 2 == 0

unfoldable pub all_zero : Bytes → Bool
all_zero [] = true
all_zero (b ∷ bs) = b == 0 && all_zero bs

abbrev pub set_flag : Bool → ℕ → ℕ → ℕ
set_flag on v flags = if on then bit_or flags v else flags

-- The pad of `WriteDataPadded`: `none` is nil.
unfoldable pub pad_octets : Option Bytes → Bytes
pad_octets none = []
pad_octets (some pad) = (length pad % 256) ∷ []

unfoldable pub padding : Option Bytes → Bytes
padding none = []
padding (some pad) = pad

unfoldable pub is_padded : Option Bytes → Bool
is_padded none = false
is_padded (some pad) = true

unfoldable pub write_data_padded : ℕ → Bool → Bytes → Option Bytes → FrameResult Bytes
unfolding all_zero pad_octets padding is_padded
write_data_padded stream_id end_stream d pad =
    if not (valid_stream_id stream_id)
    then err stream_id_error
    else if ltb 255 (length (padding pad))
    then err pad_length_error
    else if not (all_zero (padding pad))
    then err pad_bytes_error
    else end_write (
        start_write frame_data
          (set_flag (is_padded pad) flag_padded (set_flag end_stream flag_end_stream 0)) stream_id
        ++ (pad_octets pad ++ (d ++ padding pad)))

unfoldable pub settings_octets : List Setting → Bytes
settings_octets [] = []
settings_octets (s ∷ ss) = octets16 s.0 ++ (octets32 s.1 ++ settings_octets ss)

unfoldable pub write_settings : List Setting → FrameResult Bytes
write_settings ss = end_write (start_write frame_settings 0 0 ++ settings_octets ss)

unfoldable pub write_settings_ack : FrameResult Bytes
write_settings_ack = end_write (start_write frame_settings flag_ack 0)

-- The data are 8 octets.
unfoldable pub write_ping : Bool → Bytes → FrameResult Bytes
write_ping ack d = end_write (start_write frame_ping (if ack then flag_ack else 0) 0 ++ d)

unfoldable pub write_go_away : ℕ → ℕ → Bytes → FrameResult Bytes
write_go_away max_stream_id code debug_data = end_write (
    start_write frame_go_away 0 0
    ++ (octets32 (low31 max_stream_id) ++ (octets32 code ++ debug_data)))

unfoldable pub write_window_update : ℕ → ℕ → FrameResult Bytes
write_window_update stream_id incr =
    if ltb incr 1 || ltb 2147483647 incr
    then err window_increment_error
    else end_write (start_write frame_window_update 0 stream_id ++ octets32 incr)

unfoldable pub is_zero : PriorityParam → Bool
is_zero p = p.stream_dep == 0 && not p.exclusive && p.weight == 0

-- `v |= 1 << 31` on a number below 2 ^ 31
unfoldable pub priority_octets : PriorityParam → Bytes
priority_octets p =
    octets32 (if p.exclusive then p.stream_dep + 2 ^ 31 else p.stream_dep) ++ p.weight ∷ []

pub record HeadersFrameParam : Type 0 where
  pub stream_id : ℕ
  pub block_fragment : Bytes
  pub end_stream : Bool
  pub end_headers : Bool
  pub pad_length : ℕ
  pub priority : PriorityParam

abbrev pub headers_flags : HeadersFrameParam → ℕ
headers_flags p = set_flag (not (is_zero p.priority)) flag_priority (
    set_flag p.end_headers flag_end_headers
      (set_flag p.end_stream flag_end_stream (set_flag (not (p.pad_length == 0)) flag_padded 0)))

unfoldable pub write_headers : HeadersFrameParam → FrameResult Bytes
write_headers p =
    if not (valid_stream_id p.stream_id)
    then err stream_id_error
    else if not (is_zero p.priority) && not (valid_stream_id_or_zero p.priority.stream_dep)
    then err dep_stream_id_error
    else end_write (
        start_write frame_headers (headers_flags p) p.stream_id
        ++ ((if p.pad_length == 0 then [] else p.pad_length ∷ [])
            ++ ((if is_zero p.priority then [] else priority_octets p.priority)
                ++ (p.block_fragment ++ replicate p.pad_length 0))))

unfoldable pub write_priority : ℕ → PriorityParam → FrameResult Bytes
write_priority stream_id p =
    if not (valid_stream_id stream_id)
    then err stream_id_error
    else if not (valid_stream_id_or_zero p.stream_dep)
    then err dep_stream_id_error
    else end_write (start_write frame_priority 0 stream_id ++ priority_octets p)

unfoldable pub write_rst_stream : ℕ → ℕ → FrameResult Bytes
write_rst_stream stream_id code =
    if not (valid_stream_id stream_id)
    then err stream_id_error
    else end_write (start_write frame_rst_stream 0 stream_id ++ octets32 code)

unfoldable pub write_continuation : ℕ → Bool → Bytes → FrameResult Bytes
write_continuation stream_id end_headers fragment =
    if not (valid_stream_id stream_id)
    then err stream_id_error
    else end_write (
        start_write frame_continuation (set_flag end_headers flag_end_headers 0) stream_id
        ++ fragment)

pub record PushPromiseParam : Type 0 where
  pub stream_id : ℕ
  pub promise_id : ℕ
  pub block_fragment : Bytes
  pub end_headers : Bool
  pub pad_length : ℕ

unfoldable pub write_push_promise : PushPromiseParam → FrameResult Bytes
write_push_promise p =
    if not (valid_stream_id p.stream_id)
    then err stream_id_error
    else if not (valid_stream_id p.promise_id)
    then err stream_id_error
    else end_write (
        start_write frame_push_promise
          (set_flag p.end_headers flag_end_headers
            (set_flag (not (p.pad_length == 0)) flag_padded 0))
          p.stream_id
        ++ ((if p.pad_length == 0 then [] else p.pad_length ∷ [])
            ++ (octets32 p.promise_id ++ (p.block_fragment ++ replicate p.pad_length 0))))
