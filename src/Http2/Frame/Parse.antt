-- ===== src/Http2/Frame/Parse.antt =====
-- The parsers of http2/frame.go, from a header and a payload of the announced length.
use fhttp.Base.{
  ℕ, ◌-◌, ◌%◌, ◌^◌, Bool, false, not, ◌&&◌, Option, none, some, List, [], ◌∷◌, Bytes, length, take,
  ltb, leb, ◌==◌, if◌then◌else◌,
}
use fhttp.Http2.Frame.{
  FrameHeader, FrameResult, ok, err, ◌>>=◌, connection_error, stream_error, err_code_protocol,
  err_code_flow_control, err_code_frame_size, PriorityParam, zero_priority, Setting, Frame,
  data_frame, headers_frame, priority_frame, rst_stream_frame, settings_frame, push_promise_frame,
  ping_frame, go_away_frame, window_update_frame, continuation_frame, unknown_frame, has,
  flag_padded, flag_priority, flag_ack,
}
use fhttp.Http2.Frame.Octets.{uint32, uint16, low31, read_byte, read_uint32}

-- A pad length read from the payload where the flag says so.
unfoldable pub pad_size : FrameHeader → Bytes → FrameResult (Bytes × ℕ)
pad_size fh p = if has fh.flags flag_padded then read_byte p else ok (p, 0)

unfoldable pub parse_data_frame : FrameHeader → Bytes → FrameResult Frame
parse_data_frame fh payload =
    if fh.stream_id == 0
    then err (connection_error err_code_protocol)
    else (pad_size fh payload >>= λ r.
        if ltb (length r.0) r.1
        then err (connection_error err_code_protocol)
        else ok (data_frame fh (take (length r.0 - r.1) r.0)))

-- The settings of a payload whose length is a multiple of 6, in order.
unfoldable pub settings : Bytes → List Setting
settings (a ∷ b ∷ c ∷ d ∷ e ∷ f ∷ p) = (uint16 a b, uint32 c d e f) ∷ settings p
settings _ = []

-- `f.Value(id)`: the first one with the id.
unfoldable pub value_in : ℕ → List Setting → Option ℕ
value_in id [] = none
value_in id (s ∷ ss) = if s.0 == id then some s.1 else value_in id ss

abbrev pub setting_initial_window_size : ℕ
setting_initial_window_size = 0x4

abbrev pub too_wide : Option ℕ → Bool
too_wide none = false
too_wide (some v) = ltb (2 ^ 31 - 1) v

unfoldable pub parse_settings_frame : FrameHeader → Bytes → FrameResult Frame
parse_settings_frame fh p =
    if has fh.flags flag_ack && ltb 0 fh.length
    then err (connection_error err_code_frame_size)
    else if not (fh.stream_id == 0)
    then err (connection_error err_code_protocol)
    else if not (length p % 6 == 0)
    then err (connection_error err_code_frame_size)
    else if too_wide (value_in setting_initial_window_size (settings p))
    then err (connection_error err_code_flow_control)
    else ok (settings_frame fh p)

unfoldable pub parse_ping_frame : FrameHeader → Bytes → FrameResult Frame
parse_ping_frame fh payload =
    if not (length payload == 8)
    then err (connection_error err_code_frame_size)
    else if not (fh.stream_id == 0)
    then err (connection_error err_code_protocol)
    else ok (ping_frame fh payload)

unfoldable pub go_away_parts : FrameHeader → Bytes → FrameResult Frame
go_away_parts fh (a ∷ b ∷ c ∷ d ∷ e ∷ f ∷ g ∷ h ∷ p) =
    ok (go_away_frame fh (low31 (uint32 a b c d)) (uint32 e f g h) p)
go_away_parts fh _ = err (connection_error err_code_frame_size)

unfoldable pub parse_go_away_frame : FrameHeader → Bytes → FrameResult Frame
unfolding go_away_parts
parse_go_away_frame fh p =
    if not (fh.stream_id == 0) then err (connection_error err_code_protocol) else go_away_parts fh p

-- The four octets of a payload of just that length.
unfoldable pub only_uint32 : Bytes → FrameResult ℕ
only_uint32 (a ∷ b ∷ c ∷ d ∷ []) = ok (uint32 a b c d)
only_uint32 _ = err (connection_error err_code_frame_size)

unfoldable pub parse_window_update_frame : FrameHeader → Bytes → FrameResult Frame
parse_window_update_frame fh p = only_uint32 p >>= λ v.
    if low31 v == 0
    then (if fh.stream_id == 0
        then err (connection_error err_code_protocol)
        else err (stream_error fh.stream_id err_code_protocol))
    else ok (window_update_frame fh (low31 v))

-- The stream dependency: 31 bits, and the exclusive bit above them.
abbrev pub priority_of : ℕ → ℕ → PriorityParam
priority_of v w = record { stream_dep = low31 v; exclusive = not (v == low31 v); weight = w }

unfoldable pub read_priority : FrameHeader → Bytes → FrameResult (Bytes × PriorityParam)
read_priority fh p =
    if has fh.flags flag_priority
    then (read_uint32 p >>= λ v. read_byte v.0 >>= λ w. ok (w.0, priority_of v.1 w.1))
    else ok (p, zero_priority)

unfoldable pub parse_headers_frame : FrameHeader → Bytes → FrameResult Frame
parse_headers_frame fh p =
    if fh.stream_id == 0
    then err (connection_error err_code_protocol)
    else (pad_size fh p >>= λ pad. read_priority fh pad.0 >>= λ prio.
        if leb (length prio.0) pad.1
        then err (stream_error fh.stream_id err_code_protocol)
        else ok (headers_frame fh prio.1 (take (length prio.0 - pad.1) prio.0)))

unfoldable pub five_octets : FrameHeader → Bytes → FrameResult Frame
five_octets fh (a ∷ b ∷ c ∷ d ∷ w ∷ []) = ok (priority_frame fh (priority_of (uint32 a b c d) w))
five_octets fh _ = err (connection_error err_code_frame_size)

unfoldable pub parse_priority_frame : FrameHeader → Bytes → FrameResult Frame
unfolding five_octets
parse_priority_frame fh p =
    if fh.stream_id == 0 then err (connection_error err_code_protocol) else five_octets fh p

unfoldable pub parse_rst_stream_frame : FrameHeader → Bytes → FrameResult Frame
parse_rst_stream_frame fh p = only_uint32 p >>= λ code.
    if fh.stream_id == 0
    then err (connection_error err_code_protocol)
    else ok (rst_stream_frame fh code)

unfoldable pub parse_continuation_frame : FrameHeader → Bytes → FrameResult Frame
parse_continuation_frame fh p =
    if fh.stream_id == 0
    then err (connection_error err_code_protocol)
    else ok (continuation_frame fh p)

unfoldable pub parse_push_promise : FrameHeader → Bytes → FrameResult Frame
parse_push_promise fh p =
    if fh.stream_id == 0
    then err (connection_error err_code_protocol)
    else (pad_size fh p >>= λ pad. read_uint32 pad.0 >>= λ v.
        if ltb (length v.0) pad.1
        then err (connection_error err_code_protocol)
        else ok (push_promise_frame fh (low31 v.1) (take (length v.0 - pad.1) v.0)))

-- `typeFrameParser(fh.Type)(fh, payload)`
unfoldable pub parse_frame : FrameHeader → Bytes → FrameResult Frame
parse_frame fh p =
    if fh.type == 0
    then parse_data_frame fh p
    else if fh.type == 1
    then parse_headers_frame fh p
    else if fh.type == 2
    then parse_priority_frame fh p
    else if fh.type == 3
    then parse_rst_stream_frame fh p
    else if fh.type == 4
    then parse_settings_frame fh p
    else if fh.type == 5
    then parse_push_promise fh p
    else if fh.type == 6
    then parse_ping_frame fh p
    else if fh.type == 7
    then parse_go_away_frame fh p
    else if fh.type == 8
    then parse_window_update_frame fh p
    else if fh.type == 9
    then parse_continuation_frame fh p
    else ok (unknown_frame fh p)
