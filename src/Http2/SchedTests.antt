-- ===== src/Http2/SchedTests.antt =====
-- Runs of flow control and of the queues of package http2, and their theorems at concrete inputs.
use fhttp.Base.{
  ◌+◌, ◌-◌, ◌^◌, ◌<◌, ◌≤◌, ◌≡◌, ◌⊎◌, refl, true, false, none, some, Option, [], ◌∷◌, ◌++◌, length,
  arith,
}
use Prim.Native.Nat.{min}
use fhttp.Base.Int32.{ord}
use fhttp.Http2.Flow.{Flow, available, available_of, take, add}
use fhttp.Http2.Flow.Windows.{IsFlow, add-exact}
use fhttp.Http2.Sched.{
  WriteData, write_data, write_other, FrameWriteRequest, parts, allowed, consume, consume_write,
  on_stream, consume_up_to, first_part, second_part, with_flow, WriteQueue, consume_first,
}
use fhttp.Http2.Sched.Splits.{Splits, consume-Splits}
use fhttp.Http2.Sched.Queue.{queued, bytes_of, consume_first-queued}

-- Ten bytes on the stream and four on the connection.
abbrev window : Flow
window = record { n = 10; conn = some 4 }

-- 2^31 - 1 on the stream.
abbrev full_window : Flow
full_window = record { n = 2147483647; conn = none }

abbrev five_bytes : WriteData
five_bytes = record { stream_id = 3; p = 1 ∷ 2 ∷ 3 ∷ 4 ∷ 5 ∷ []; end_stream = true }

abbrev request : FrameWriteRequest
request = record { write = write_data five_bytes; stream = some 3; done = some 0 }

abbrev other_request : FrameWriteRequest
other_request = record { write = write_other 1; stream = some 3; done = none }

add_to_full : add full_window 1 ≡ (full_window, false)
unfolding add
add_to_full = refl

add-exact_example :
    ((f' : Flow) × (add full_window 4294967295 ≡ (f', true))
      × (ord f'.n + 2 ^ 31 ≡ ord 2147483647 + ord 4294967295)
      × (f'.n < 2 ^ 32)
      × (f'.conn ≡ none))
    ⊎ ((add full_window 4294967295 ≡ (full_window, false))
        × ((ord 2147483647 + ord 4294967295 < 2 ^ 31)
            ⊎ (2 ^ 31 + 2 ^ 32 ≤ ord 2147483647 + ord 4294967295)))
add-exact_example = add-exact full_window 4294967295 (omega arith) (omega arith)

split_request :
    consume request window 16384 100
    ≡ some (
      parts
          (record {
            write = write_data (record five_bytes { p = 1 ∷ 2 ∷ 3 ∷ 4 ∷ []; end_stream = false });
            stream = some 3;
            done = none;
          })
          (record request { write = write_data (record five_bytes { p = 5 ∷ [] }) }),
      record { n = 6; conn = some 0 },
    )
unfolding consume consume_write on_stream consume_up_to first_part second_part with_flow take
    available available_of
split_request = refl

consume-Splits_example :
    Splits request
      (1 ∷ 2 ∷ 3 ∷ 4 ∷ 5 ∷ [])
      window
      (ord (allowed window 16384 100) - 2 ^ 31)
      (consume request window 16384 100)
consume-Splits_example =
    consume-Splits request five_bytes 3 window 16384 100 refl refl (omega arith)
      (omega arith, omega arith) (omega arith) (omega arith)

consume_first-queued_example :
    (o : Option FrameWriteRequest) × (q' : WriteQueue) × (f' : Flow) × (consume_first
        (request ∷ other_request ∷ [])
        window
        16384
        100
      ≡ some (o, q', f'))
    × (bytes_of o ++ queued q' ≡ queued (request ∷ other_request ∷ []))
    × (length (bytes_of o) ≡ min 5 (ord (allowed window 16384 100) - 2 ^ 31))
    × (ord (available f') + length (bytes_of o) ≡ ord (available window))
    × IsFlow f'
consume_first-queued_example =
    consume_first-queued request (other_request ∷ []) five_bytes 3 window 16384 100 refl refl
      (omega arith) (omega arith, omega arith) (omega arith) (omega arith)
