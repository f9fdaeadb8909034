-- ===== src/Http2/Frame/Control.antt =====
-- The frames that have one shape, whatever the connection does (http2/frame.go): all writers without a
-- pad and without a list of settings.
use fhttp.Base.{
  ℕ, ◌+◌, ◌^◌, ◌<◌, ◌≤◌, ◌≡◌, refl, Bool, true, [], Bytes, length, if◌then◌else◌, arith,
}
use fhttp.Http2.Frame.{
  PriorityParam, FrameResult, ok, Frame, settings_frame, ping_frame, go_away_frame,
  window_update_frame, rst_stream_frame, priority_frame, continuation_frame, flag_ack,
  flag_end_headers, has,
}
use fhttp.Http2.Frame.Octets.{octets32, low31}
use fhttp.Http2.Frame.Write.{
  start_write, set_flag, write_settings_ack, write_ping, write_go_away, write_window_update,
  write_rst_stream, write_priority, write_continuation, priority_octets, valid_stream_id,
}
use fhttp.Http2.Frame.Parse.{parse_frame, parse_settings_frame, settings, value_in}
use fhttp.Http2.Frame.Read.{Framer}
use fhttp.Http2.Frame.RoundTrip.{
  header_for, ReadsBack, framed-ReadsBack, go_away_payload, write_ping-ReadsBack,
  write_go_away-ReadsBack, write_window_update-ReadsBack, write_rst_stream-ReadsBack,
}
use fhttp.Http2.Frame.Padded.{write_priority-ReadsBack}
use fhttp.Http2.Frame.Blocks.{write_continuation-ReadsBack}

pub data Message : Type 0 where
  settings_ack : Message
  ping : Bool → Bytes → Message
  go_away : ℕ → ℕ → Bytes → Message
  window_update : ℕ → ℕ → Message
  rst_stream : ℕ → ℕ → Message
  priority : ℕ → PriorityParam → Message
  continuation : ℕ → Bool → Bytes → Message

abbrev pub write_message : Message → FrameResult Bytes
write_message settings_ack = write_settings_ack
write_message (ping ack d) = write_ping ack d
write_message (go_away last code d) = write_go_away last code d
write_message (window_update s incr) = write_window_update s incr
write_message (rst_stream s code) = write_rst_stream s code
write_message (priority s p) = write_priority s p
write_message (continuation s end_headers d) = write_continuation s end_headers d

-- The frame that a message stands for.
abbrev pub frame_of : Message → Frame
frame_of settings_ack = settings_frame (header_for 4 flag_ack 0 []) []
frame_of (ping ack d) = ping_frame (header_for 6 (if ack then flag_ack else 0) 0 d) d
frame_of (go_away last code d) =
    go_away_frame (header_for 7 0 0 (go_away_payload last code d)) (low31 last) code d
frame_of (window_update s incr) = window_update_frame (header_for 8 0 s (octets32 incr)) incr
frame_of (rst_stream s code) = rst_stream_frame (header_for 3 0 s (octets32 code)) code
frame_of (priority s p) = priority_frame (header_for 2 0 s (priority_octets p)) p
frame_of (continuation s end_headers d) =
    continuation_frame (header_for 9 (set_flag end_headers flag_end_headers 0) s d) d

abbrev pub IsStream : ℕ → Type 0
IsStream s = (s < 2 ^ 32) × (valid_stream_id s ≡ true)

-- What the fields of a message must be, where frames have at most `most` octets.
abbrev pub IsLegal : ℕ → Message → Type 0
IsLegal most settings_ack = Unit
IsLegal most (ping ack d) = (length d ≡ 8) × (8 ≤ most)
IsLegal most (go_away last code d) =
    (code < 2 ^ 32) × (length d + 8 < 2 ^ 24) × (length d + 8 ≤ most)
IsLegal most (window_update s incr) = (s < 2 ^ 31) × (1 ≤ incr) × (incr < 2 ^ 31) × (4 ≤ most)
IsLegal most (rst_stream s code) = IsStream s × (code < 2 ^ 32) × (4 ≤ most)
IsLegal most (priority s p) = IsStream s × (p.stream_dep < 2 ^ 31) × (5 ≤ most)
IsLegal most (continuation s end_headers d) = IsStream s × (length d < 2 ^ 24) × (length d ≤ most)

parse_frame-settings_ack :
    parse_frame (header_for 4 flag_ack 0 []) []
    ≡ ok (settings_frame (header_for 4 flag_ack 0 []) [])
unfolding parse_frame parse_settings_frame has value_in settings
parse_frame-settings_ack = refl

write_settings_ack-ReadsBack :
    (fr : Framer) (rest : Bytes)
    → ReadsBack fr rest write_settings_ack (settings_frame (header_for 4 flag_ack 0 []) [])
unfolding write_settings_ack start_write
write_settings_ack-ReadsBack fr rest =
    framed-ReadsBack fr rest 4 flag_ack 0 [] _ (omega arith) (omega arith) (omega arith)
      (omega arith) (omega arith) parse_frame-settings_ack

-- Whatever follows them, the octets of a legal message are taken from the front and are read as the
-- frame that the message stands for, if `checkFrameOrder` lets it through.
pub write_message-ReadsBack :
    (fr : Framer) (rest : Bytes) (m : Message)
    → IsLegal fr.max_read_size m
    → ReadsBack fr rest (write_message m) (frame_of m)
write_message-ReadsBack fr rest settings_ack h = write_settings_ack-ReadsBack fr rest
write_message-ReadsBack fr rest (ping ack d) h = write_ping-ReadsBack fr rest ack d h.0 h.1
write_message-ReadsBack fr rest (go_away last code d) h =
    write_go_away-ReadsBack fr rest last code d h.0 h.1 h.2
write_message-ReadsBack fr rest (window_update s incr) h =
    write_window_update-ReadsBack fr rest s incr h.0 h.1 h.2 h.3
write_message-ReadsBack fr rest (rst_stream s code) h =
    write_rst_stream-ReadsBack fr rest s code h.0.0 h.0.1 h.1 h.2
write_message-ReadsBack fr rest (priority s p) h =
    write_priority-ReadsBack fr rest s p h.0.0 h.0.1 h.1 h.2
write_message-ReadsBack fr rest (continuation s end_headers d) h =
    write_continuation-ReadsBack fr rest s end_headers d h.0.0 h.0.1 h.1 h.2
