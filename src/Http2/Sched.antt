-- ===== src/Http2/Sched.antt =====
-- What a stream may write under flow control (http2/writesched.go). A FrameWriteRequest refers to its
-- stream by id; the stream's flow and the connection's maxFrameSize are passed beside it.
pub mod Splits
pub mod Queue
use mathlib.Core.Option
use fhttp.Base.{
  ℕ, ◌+◌, ◌%◌, ◌^◌, Bool, true, false, not, Option, none, some, List, [], ◌∷◌, ◌++◌, Bytes, length,
  drop, ltb, ◌==◌, if◌then◌else◌,
}
use fhttp.Base.Int32.{signed_ltb, signed_min}
use fhttp.Http2.Flow.{Flow, available}

pub record WriteData : Type 0 where
  pub stream_id : ℕ
  pub p : Bytes
  pub end_stream : Bool

-- `writeFramer`: a writeData, or another, by a number.
pub data WriteFramer : Type 0 where
  write_data : WriteData → WriteFramer
  write_other : ℕ → WriteFramer

-- `done` is a channel, by a number; `none` is nil.
pub record FrameWriteRequest : Type 0 where
  pub write : WriteFramer
  pub stream : Option ℕ
  pub done : Option ℕ

-- The frames that `Consume` returns: none, one or two.
pub data Consumed : Type 0 where
  nothing : Consumed
  whole : FrameWriteRequest → Consumed
  parts : FrameWriteRequest → FrameWriteRequest → Consumed

unfoldable pub data_size : FrameWriteRequest → ℕ
data_size wr = elim wr.write [ write_data d ↦ length d.p | write_other _ ↦ 0 ]

-- The bytes that may go: three limits, as int32.
abbrev pub allowed : Flow → ℕ → ℕ → ℕ
allowed f max_frame_size n = signed_min (signed_min (available f) n) max_frame_size

unfoldable pub first_part : FrameWriteRequest → WriteData → ℕ → FrameWriteRequest
first_part wr d k = record {
  write = write_data (record d { p = fhttp.Base.take k d.p; end_stream = false });
  stream = wr.stream;
  done = none;
}

unfoldable pub second_part : FrameWriteRequest → WriteData → ℕ → FrameWriteRequest
second_part wr d k = record wr { write = write_data (record d { p = drop k d.p }) }

unfoldable pub with_flow : Consumed → Option Flow → Option (Consumed × Flow)
with_flow c none = none
with_flow c (some f) = some (c, f)

unfoldable pub consume_up_to : FrameWriteRequest → WriteData → Flow → ℕ → Option (Consumed × Flow)
unfolding first_part second_part with_flow
consume_up_to wr d f k =
    if not (signed_ltb 0 k)
    then some (nothing, f)
    else if ltb k (length d.p)
    then with_flow (parts (first_part wr d k) (second_part wr d k)) (fhttp.Http2.Flow.take f k)
    else with_flow (whole wr) (fhttp.Http2.Flow.take f (length d.p % 2 ^ 32))

-- `wr.stream.flow` where the stream is nil is a panic.
unfoldable pub on_stream :
    Option ℕ → FrameWriteRequest → WriteData → Flow → ℕ → ℕ → Option (Consumed × Flow)
on_stream none wr d f max_frame_size n = none
on_stream (some _) wr d f max_frame_size n = consume_up_to wr d f (allowed f max_frame_size n)

unfoldable pub consume_write :
    WriteFramer → FrameWriteRequest → Flow → ℕ → ℕ → Option (Consumed × Flow)
consume_write (write_other _) wr f max_frame_size n = some (whole wr, f)
consume_write (write_data d) wr f max_frame_size n =
    if length d.p == 0 then some (whole wr, f) else on_stream wr.stream wr d f max_frame_size n

-- `Consume`, with the flow it leaves; `none` is a panic.
unfoldable pub consume : FrameWriteRequest → Flow → ℕ → ℕ → Option (Consumed × Flow)
unfolding consume_write
consume wr f max_frame_size n = consume_write wr.write wr f max_frame_size n

-- `writeQueue`, its frames in order.
abbrev pub WriteQueue : Type 0
WriteQueue = List FrameWriteRequest

unfoldable pub push : WriteQueue → FrameWriteRequest → WriteQueue
push q wr = q ++ wr ∷ []

unfoldable pub after_consume :
    FrameWriteRequest → WriteQueue → Consumed × Flow → Option FrameWriteRequest × WriteQueue × Flow
after_consume wr q (nothing, f) = (none, wr ∷ q, f)
after_consume wr q (whole c, f) = (some c, q, f)
after_consume wr q (parts c rest, f) = (some c, rest ∷ q, f)

-- The queue's `consume`: what is consumed, if any, the queue and the flow of the first frame's
-- stream after it; the outer `none` is a panic.
unfoldable pub consume_first :
    WriteQueue → Flow → ℕ → ℕ → Option (Option FrameWriteRequest × WriteQueue × Flow)
unfolding after_consume
consume_first [] f max_frame_size n = some (none, [], f)
consume_first (wr ∷ q) f max_frame_size n =
    Option.map (after_consume wr q) (consume wr f max_frame_size n)
