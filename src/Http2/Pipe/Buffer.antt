-- ===== src/Http2/Pipe/Buffer.antt =====
-- The pipe over the chunked buffer, which is how the requests and responses use it.
use fhttp.Base.{
  ℕ, ◌<◌, ◌≡◌, ap, false, Option, none, some, List, Bytes, length, take, drop, ◌==◌, arith,
}
use fhttp.Http2.DataBuffer
use fhttp.Http2.DataBuffer.{DataBuffer, ReadResult, read_empty, read_bytes}
use fhttp.Http2.DataBuffer.Contents.{unread, IsBuffer}
use fhttp.Http2.DataBuffer.Read.{read-unread}
use fhttp.Http2.DataBuffer.Write.{ArePools}
use fhttp.Http2.DataBuffer.Append.{write-unread}
use fhttp.Http2.Pipe.{PipeBuffer, Pipe}
use fhttp.Http2.Pipe.Delivery.{QueueLaws, IsOpen}
use fhttp.Http2.Pipe.Trace.{Call, calls, Conserves, calls-Conserves}

abbrev copied : ReadResult → Option Bytes
copied read_empty = none
copied (read_bytes d) = some d

abbrev with_copied : Option (ReadResult × DataBuffer) → Option (Option Bytes × DataBuffer)
with_copied none = none
with_copied (some (r, b)) = some (copied r, b)

-- A `dataBuffer` behind a pipe.
abbrev pub data_buffer : (ℕ → ℕ → Bytes) → PipeBuffer
data_buffer pool = record {
  Buffer = DataBuffer;
  len = λ b. b.size;
  read = λ b n. with_copied (DataBuffer.read b n);
  write = λ b d. DataBuffer.write pool b d;
}

pub read-held :
    (b : DataBuffer) (n : ℕ)
    → IsBuffer b
    → 0 < length (unread b)
    → (b' : DataBuffer) × (with_copied (DataBuffer.read b n) ≡ some (some (take n (unread b)), b'))
      × (unread b' ≡ drop n (unread b))
      × IsBuffer b'
read-held b n v h =
    let (b', run, left, v', _) = read-unread b n v in
    let z : (length (unread b) == 0) ≡ false = ground arith in
    (b', ap with_copied (rw z at run), left, v')

-- The laws that a pipe relies on, from those of the buffer.
abbrev pub data_buffer-laws : (pool : ℕ → ℕ → Bytes) → ArePools pool → QueueLaws (data_buffer pool)
data_buffer-laws pool a = record {
  held = unread;
  IsGood = IsBuffer;
  len-held = λ b v. v.1;
  read-held = read-held;
  write-held = λ b d v. write-unread pool b d a v;
}

-- Writes, reads and closes in a row on an unbroken pipe over a sound `dataBuffer` do not panic: the
-- bytes that it held, followed by those written, are the bytes read, followed by those that it
-- holds after, in order; and its buffer is sound again.
pub calls_data_buffer-Conserves :
    (pool : ℕ → ℕ → Bytes) (a : ArePools pool) (p : Pipe DataBuffer) (cs : List Call)
    → IsOpen (data_buffer pool) (data_buffer-laws pool a) p
    → Conserves (data_buffer pool) (data_buffer-laws pool a) p (calls (data_buffer pool) p cs)
calls_data_buffer-Conserves pool a p cs h =
    calls-Conserves (data_buffer pool) (data_buffer-laws pool a) p cs h
