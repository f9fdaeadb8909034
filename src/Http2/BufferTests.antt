-- ===== src/Http2/BufferTests.antt =====
-- Runs of the chunked buffer and of the pipe of package http2, and their theorems at concrete inputs.
use fhttp.Base.{
  ℕ, ◌≡◌, refl, none, some, List, [], ◌∷◌, ◌++◌, Bytes, length, replicate, take, drop, ◌==◌,
  if◌then◌else◌, arith, length-replicate,
}
use fhttp.Http2.DataBuffer
use fhttp.Http2.DataBuffer.{
  DataBuffer, ReadResult, read_empty, read_bytes, data_chunk_size_classes, has_length,
}
use fhttp.Http2.DataBuffer.Contents.{unread, contents, IsBuffer}
use fhttp.Http2.DataBuffer.Read.{read-unread}
use fhttp.Http2.DataBuffer.Write.{ArePools, chunk_length}
use fhttp.Http2.DataBuffer.Append.{write-unread}
use fhttp.Http2.Pipe.{PipeBuffer, Pipe}
use fhttp.Http2.Pipe.Buffer.{data_buffer, data_buffer-laws, calls_data_buffer-Conserves}
use fhttp.Http2.Pipe.Delivery.{IsOpen, held_by, ReadPass, read_pass-ReadPass}
use fhttp.Http2.Pipe.Trace.{Call, writing, reading, closing, asking, calls, Conserves}
use fhttp.Http2.Pipe.Closed.{calls_drain}
use fhttp.Http2.Pipe

abbrev pools : ℕ → ℕ → Bytes
pools k i = replicate (chunk_length i) k

pools-ArePools : ArePools pools
pools-ArePools k i = length-replicate (chunk_length i) k

abbrev fresh : DataBuffer
fresh = record { chunks = []; r = 0; w = 0; size = 0; expected = 0 }

fresh-IsBuffer : IsBuffer fresh
unfolding unread contents
fresh-IsBuffer = (refl, refl)

-- Three bytes at the front of a chunk.
abbrev three : DataBuffer
three = record {
  chunks = (1 ∷ 2 ∷ 3 ∷ replicate 1021 0) ∷ [];
  r = 0;
  w = 3;
  size = 3;
  expected = 0;
}

three-IsBuffer : IsBuffer three
unfolding unread contents has_length
three-IsBuffer = ((omega arith, omega arith, omega arith, refl), refl)

read-unread_example :
    (b' : DataBuffer) × (DataBuffer.read three 2
      ≡ some (
        (if length (unread three) == 0 then read_empty else read_bytes (take 2 (unread three))),
        b',
      ))
    × (unread b' ≡ drop 2 (unread three))
    × IsBuffer b'
    × (length (unread three) ≡ 0 → b' ≡ three)
read-unread_example = read-unread three 2 three-IsBuffer

write-unread_example :
    (b' : DataBuffer) × (DataBuffer.write pools three (4 ∷ 5 ∷ []) ≡ some b')
    × (unread b' ≡ unread three ++ 4 ∷ 5 ∷ [])
    × IsBuffer b'
write-unread_example = write-unread pools three (4 ∷ 5 ∷ []) pools-ArePools three-IsBuffer

abbrev piped : Pipe DataBuffer
piped = record {
  b = some three;
  unread = 0;
  err = none;
  break_err = none;
  donec = none;
  read_fn = none;
}

abbrev closed_pipe : Pipe DataBuffer
closed_pipe = record piped { err = some 7 }

abbrev some_calls : List Call
some_calls = writing (4 ∷ 5 ∷ []) ∷ reading 4 ∷ asking ∷ closing 7 none ∷ reading 4 ∷ reading 4 ∷ []

calls_data_buffer-Conserves_example :
    Conserves
      (data_buffer pools)
      (data_buffer-laws pools pools-ArePools)
      piped
      (calls (data_buffer pools) piped some_calls)
calls_data_buffer-Conserves_example =
    calls_data_buffer-Conserves pools pools-ArePools piped some_calls (three-IsBuffer, refl)

read_pass-ReadPass_example :
    (p' : Pipe DataBuffer) × (r : Pipe.ReadResult) × (Pipe.read_pass
        (data_buffer pools)
        closed_pipe
        2
      ≡ some (p', r))
    × ReadPass (data_buffer pools) (data_buffer-laws pools pools-ArePools) closed_pipe 2 p' r
    × IsOpen (data_buffer pools) (data_buffer-laws pools pools-ArePools) p'
read_pass-ReadPass_example =
    read_pass-ReadPass (data_buffer pools) (data_buffer-laws pools pools-ArePools) closed_pipe 2
      (three-IsBuffer, refl)

calls_drain_example :
    (p' : Pipe DataBuffer) × (o : Bytes) × (calls (data_buffer pools) closed_pipe some_calls
      ≡ some (p', [], o))
    × (unread three ≡ o ++ held_by (data_buffer pools) (data_buffer-laws pools pools-ArePools) p'.b)
    × (p'.err ≡ some 7)
    × IsOpen (data_buffer pools) (data_buffer-laws pools pools-ArePools) p'
calls_drain_example =
    calls_drain (data_buffer pools) (data_buffer-laws pools pools-ArePools) closed_pipe some_calls 7
      (three-IsBuffer, refl) refl
