-- ===== src/Http2/Sched/Queue.antt =====
-- The writeQueue of http2/writesched.go as a queue of bytes.
use fhttp.Base.{
  ℕ, ◌+◌, ◌-◌, ◌^◌, ◌<◌, ◌≡◌, refl, sym, ap, ◌∙◌, Option, none, some, [], ◌∷◌, ◌++◌, Bytes, length,
  append_assoc,
}
use Prim.Native.Nat.{min}
use fhttp.Base.Int32.{ord}
use fhttp.Http2.Flow.{Flow, available}
use fhttp.Http2.Flow.Windows.{IsFlow}
use fhttp.Http2.Sched.{
  WriteData, write_data, FrameWriteRequest, Consumed, nothing, whole, parts, allowed, WriteQueue,
  consume_first, after_consume,
}
use fhttp.Http2.Sched.Splits.{payload, payload_of, taken, kept, consume-Splits}

-- The bytes of the DATA frames of a queue, in order.
unfoldable pub queued : WriteQueue → Bytes
queued [] = []
queued (wr ∷ q) = payload wr ++ queued q

unfoldable pub bytes_of : Option FrameWriteRequest → Bytes
bytes_of none = []
bytes_of (some wr) = payload wr

after_consume-queued :
    (wr : FrameWriteRequest) (q : WriteQueue) (c : Consumed) (f : Flow)
    → (bytes_of (after_consume wr q (c, f)).0 ++ queued (after_consume wr q (c, f)).1
        ≡ (taken c ++ kept wr c) ++ queued q)
      × (bytes_of (after_consume wr q (c, f)).0 ≡ taken c)
      × ((after_consume wr q (c, f)).2 ≡ f)
unfolding after_consume queued bytes_of taken kept
after_consume-queued wr q nothing f = (refl, refl, refl)
after_consume-queued wr q (whole c) f = (sym (append_assoc (payload c) [] (queued q)), refl, refl)
after_consume-queued wr q (parts a b) f =
    (sym (append_assoc (payload a) (payload b) (queued q)), refl, refl)

-- The queue's `consume`, with a DATA frame of a stream in front, does not panic: it hands out as many
-- bytes of that frame as the three limits allow, off the front of the bytes of the queue, and takes
-- just as many from what is available.
pub consume_first-queued :
    (wr : FrameWriteRequest) (q : WriteQueue) (d : WriteData) (id : ℕ) (f : Flow) (m n : ℕ)
    → wr.write ≡ write_data d
    → wr.stream ≡ some id
    → length d.p < 2 ^ 31
    → IsFlow f
    → m < 2 ^ 32
    → n < 2 ^ 32
    → (o : Option FrameWriteRequest) × (q' : WriteQueue) × (f' : Flow) × (consume_first
          (wr ∷ q)
          f
          m
          n
        ≡ some (o, q', f'))
      × (bytes_of o ++ queued q' ≡ queued (wr ∷ q))
      × (length (bytes_of o) ≡ min (length d.p) (ord (allowed f m n) - 2 ^ 31))
      × (ord (available f') + length (bytes_of o) ≡ ord (available f))
      × IsFlow f'
unfolding consume_first queued payload payload_of
consume_first-queued wr q d id f m n e es hp w hm hn =
    let (c, f', run, cut, len, left, w') = consume-Splits wr d id f m n e es hp w hm hn in
    let a = after_consume-queued wr q c f' in
    (
      (after_consume wr q (c, f')).0,
      (after_consume wr q (c, f')).1,
      f',
      rw run
          (ap (λ g. some ((after_consume wr q (c, f')).0, (after_consume wr q (c, f')).1, g)) a.2),
      a.0 ∙ ap (λ b. b ++ queued q) (cut ∙ sym (ap payload_of e)),
      ap length a.1 ∙ len,
      ap (λ b. ord (available f') + length b) a.1 ∙ left,
      w',
    )
