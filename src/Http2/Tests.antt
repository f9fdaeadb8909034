-- ===== src/Http2/Tests.antt =====
-- Runs of package http2, and its theorems at concrete inputs.
use fhttp.Base.{◌≡◌, refl, true, false, some, List, [], ◌∷◌, ◌++◌, Bytes, arith}
use fhttp.Http2.Frame.{
  FrameHeader, ok, err, connection_error, Frame, header, has, PriorityParam, zero_priority, Setting,
  data_frame, headers_frame, ping_frame, settings_frame, push_promise_frame, continuation_frame,
}
use fhttp.Http2.Frame.Write.{
  write_data_padded, write_headers, HeadersFrameParam, write_push_promise, PushPromiseParam,
  write_ping, write_settings, settings_octets, valid_stream_id, all_zero, padding, is_padded,
  start_write, end_write, fill_length, headers_flags,
}
use fhttp.Http2.Frame.Read.{
  Framer, read_full, header_of, read_frame_header, read_frame, check_frame_order,
}
use fhttp.Http2.Frame.Parse.{
  parse_frame, parse_headers_frame, parse_continuation_frame, parse_ping_frame, pad_size,
  read_priority, settings, value_in,
}
use fhttp.Http2.Frame.RoundTrip.{header_for, ReadsBack}
use fhttp.Http2.Frame.Padded.{data_payload, write_data_padded-ReadsBack}
use fhttp.Http2.Frame.Blocks.{
  headers_payload, write_headers-ReadsBack, push_promise_flags, push_promise_payload,
  write_push_promise-ReadsBack,
}
use fhttp.Http2.Frame.Control.{continuation, write_message, frame_of, write_message-ReadsBack}
use fhttp.Http2.Frame.Settings.{write_settings-ReadsBack}
use fhttp.Http2.Frame.Order.{
  ReadsAll, none_read, one_more, Ordered, ReadsAll-Ordered, Uninterrupted, ReadsAll-Uninterrupted,
}

abbrev framer : Framer
framer = record { last_header_stream = 0; max_read_size = 16384; allow_illegal_reads = false }

-- The framer after a HEADERS frame on stream 1 without END_HEADERS.
abbrev in_block : Framer
in_block = record { last_header_stream = 1; max_read_size = 16384; allow_illegal_reads = false }

abbrev eight : Bytes
eight = 1 ∷ 2 ∷ 3 ∷ 4 ∷ 5 ∷ 6 ∷ 7 ∷ 8 ∷ []

abbrev some_priority : PriorityParam
some_priority = record { stream_dep = 3; exclusive = true; weight = 15 }

abbrev some_headers : HeadersFrameParam
some_headers = record {
  stream_id = 5;
  block_fragment = 0x82 ∷ 0x84 ∷ [];
  end_stream = true;
  end_headers = false;
  pad_length = 3;
  priority = some_priority;
}

abbrev some_promise : PushPromiseParam
some_promise = record {
  stream_id = 5;
  promise_id = 8;
  block_fragment = 0x82 ∷ [];
  end_headers = true;
  pad_length = 2;
}

abbrev some_settings : List Setting
some_settings = (3, 100) ∷ (4, 65536) ∷ []

ping_octets : write_ping true eight ≡ ok (0 ∷ 0 ∷ 8 ∷ 6 ∷ 1 ∷ 0 ∷ 0 ∷ 0 ∷ 0 ∷ eight)
unfolding write_ping end_write start_write fill_length
ping_octets = refl

write_data_padded-ReadsBack_example :
    ReadsBack framer []
      (write_data_padded 5 true eight (some (0 ∷ 0 ∷ [])))
      (data_frame (header_for 0 9 5 (data_payload eight (some (0 ∷ 0 ∷ [])))) eight)
unfolding valid_stream_id all_zero padding is_padded
write_data_padded-ReadsBack_example =
    write_data_padded-ReadsBack framer [] 5 true eight (some (0 ∷ 0 ∷ [])) (omega arith) refl
      (omega arith) refl (omega arith) (omega arith)

write_headers-ReadsBack_example : ReadsBack framer [] (write_headers some_headers) (
    headers_frame
      (header_for 1 (headers_flags some_headers) 5 (headers_payload some_headers))
      some_priority
      (0x82 ∷ 0x84 ∷ []))
unfolding valid_stream_id
write_headers-ReadsBack_example =
    write_headers-ReadsBack framer [] some_headers (omega arith) refl (omega arith) (omega arith)
      (omega arith) (omega arith) (omega arith)

write_push_promise-ReadsBack_example : ReadsBack framer [] (write_push_promise some_promise) (
    push_promise_frame
      (header_for 5 (push_promise_flags some_promise) 5 (push_promise_payload some_promise))
      8
      (0x82 ∷ []))
unfolding valid_stream_id
write_push_promise-ReadsBack_example =
    write_push_promise-ReadsBack framer [] some_promise (omega arith) refl (omega arith) refl
      (omega arith) (omega arith) (omega arith)

write_message-ReadsBack_example :
    ReadsBack in_block
      (7 ∷ [])
      (write_message (continuation 1 true eight))
      (frame_of (continuation 1 true eight))
unfolding valid_stream_id
write_message-ReadsBack_example =
    write_message-ReadsBack in_block (7 ∷ []) (continuation 1 true eight)
      ((omega arith, refl), omega arith, omega arith)

write_settings-ReadsBack_example :
    ReadsBack framer [] (write_settings some_settings) (
      settings_frame
        (header_for 4 0 0 (settings_octets some_settings))
        (settings_octets some_settings))
    × (settings (settings_octets some_settings) ≡ some_settings)
unfolding value_in
write_settings-ReadsBack_example =
    write_settings-ReadsBack framer [] some_settings
      ((omega arith, omega arith), ((omega arith, omega arith), tt)) refl (omega arith)
      (omega arith)

abbrev open_headers : FrameHeader
open_headers = record { type = 1; flags = 0; length = 2; stream_id = 1 }

abbrev last_continuation : FrameHeader
last_continuation = record { type = 9; flags = 4; length = 1; stream_id = 1 }

-- A HEADERS frame without END_HEADERS, the CONTINUATION that ends its block, and a PING.
abbrev headers_octets : Bytes
headers_octets = 0 ∷ 0 ∷ 2 ∷ 1 ∷ 0 ∷ 0 ∷ 0 ∷ 0 ∷ 1 ∷ 0x82 ∷ 0x84 ∷ []

abbrev ending_octets : Bytes
ending_octets = (0 ∷ 0 ∷ 1 ∷ 9 ∷ 4 ∷ 0 ∷ 0 ∷ 0 ∷ 1 ∷ 0x86 ∷ []) ++ ping_header ++ eight
  where
    ping_header : Bytes
    ping_header = 0 ∷ 0 ∷ 8 ∷ 6 ∷ 0 ∷ 0 ∷ 0 ∷ 0 ∷ 0 ∷ []

abbrev ending_frames : List Frame
ending_frames =
    continuation_frame last_continuation (0x86 ∷ [])
    ∷ ping_frame (header_for 6 0 0 eight) eight
    ∷ []

-- A PING within the block is refused.
ping_in_block :
    read_frame in_block (0 ∷ 0 ∷ 8 ∷ 6 ∷ 0 ∷ 0 ∷ 0 ∷ 0 ∷ 0 ∷ eight) ≡ err (connection_error 1)
unfolding read_frame read_frame_header header_of read_full parse_frame parse_ping_frame
    check_frame_order header
ping_in_block = refl

ends_block : ReadsAll in_block ending_octets ending_frames framer []
unfolding read_frame read_frame_header header_of read_full parse_frame parse_continuation_frame
    parse_ping_frame check_frame_order has header
ends_block = one_more {fr' = framer} refl (one_more {fr' = framer} refl none_read)

whole_block :
    ReadsAll framer
      (headers_octets ++ ending_octets)
      (headers_frame open_headers zero_priority (0x82 ∷ 0x84 ∷ []) ∷ ending_frames)
      framer
      []
unfolding read_frame read_frame_header header_of read_full parse_frame parse_headers_frame pad_size
    read_priority check_frame_order has header
whole_block = one_more {fr' = in_block} refl ends_block

ReadsAll-Ordered_example :
    Ordered 0 (headers_frame open_headers zero_priority (0x82 ∷ 0x84 ∷ []) ∷ ending_frames) 0
ReadsAll-Ordered_example = ReadsAll-Ordered whole_block refl

ReadsAll-Uninterrupted_example : Uninterrupted 1 ending_frames 0
ReadsAll-Uninterrupted_example = ReadsAll-Uninterrupted ends_block refl (λ q. ground arith)
