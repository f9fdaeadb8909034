-- ===== src/Http2/DataBuffer/Append.antt =====
-- `Write` puts bytes behind what the buffer holds, whatever the chunks of the pools hold.
use fhttp.Base.{
  ℕ, zero, suc, ◌+◌, ◌≤◌, ◌<◌, ◌≡◌, refl, sym, ap, ◌∙◌, some, [], ◌∷◌, ◌++◌, Bytes, length, take,
  drop, arith, length-drop, length-take, length-append, take-append-drop, append-nil, append_assoc,
}
use fhttp.Http2.DataBuffer.{
  DataBuffer, last_chunk_or_alloc, copy_last, wanted, write_round, write_loop, write,
}
use fhttp.Http2.DataBuffer.Contents.{unread, IsBuffer}
use fhttp.Http2.DataBuffer.Write.{ArePools, last_chunk_or_alloc-unread, copy_last-contents}

-- One round copies the front of the bytes, one byte or more.
write_round-unread :
    (pool : ℕ → ℕ → Bytes) (k : ℕ) (b : DataBuffer) (p : Bytes)
    → ArePools pool
    → IsBuffer b
    → 0 < length p
    → let t = write_round (pool k) b p in
      IsBuffer t.1 × (unread t.1 ≡ unread b ++ take t.0 p) × (t.0 ≤ length p) × (0 < t.0)
unfolding write_round unread
write_round-unread pool k b p a v hp =
    let b' : DataBuffer = last_chunk_or_alloc (pool k) b (wanted b p) in
    let (placed, same, room, size) = last_chunk_or_alloc-unread pool k (wanted b p) b a v in
    let (placed', held, most, pos) = copy_last-contents b'.chunks b'.r b'.w p placed room hp in
    let n = (copy_last b'.chunks b'.w p).1 in
    let whole = held ∙ ap (λ q. q ++ take n p) same in
    (
      (
        placed',
        omega (
          arith,
          size,
          v.1,
          ap length whole,
          length-append (unread b) (take n p),
          length-take n p,
          most,
        ),
      ),
      whole,
      most,
      pos,
    )

write_loop-unread :
    (pool : ℕ → ℕ → Bytes) (fuel k : ℕ) (b : DataBuffer) (p : Bytes)
    → ArePools pool
    → IsBuffer b
    → length p ≤ fuel
    → (b' : DataBuffer) × (write_loop pool fuel k b p ≡ some b')
      × (unread b' ≡ unread b ++ p)
      × IsBuffer b'
unfolding write_loop
write_loop-unread pool fuel k b [] a v h = (b, refl, sym (append-nil _), v)
write_loop-unread pool zero k b (x ∷ p) a v h = absurd (omega arith)
write_loop-unread pool (suc fuel) k b (x ∷ p) a v h =
    let t = write_round (pool k) b (x ∷ p) in
    let (v', held, most, pos) = write_round-unread pool k b (x ∷ p) a v (omega arith) in
    let (b', run, all, v'') =
      write_loop-unread pool fuel (k + 1) t.1 (drop t.0 (x ∷ p)) a v'
        (omega (arith, length-drop t.0 (x ∷ p))) in
    (
      b',
      run,
      all
          ∙ ap (λ q. q ++ drop t.0 (x ∷ p)) held
          ∙ append_assoc (unread b) (take t.0 (x ∷ p)) (drop t.0 (x ∷ p))
          ∙ ap (λ q. unread b ++ q) (take-append-drop t.0 (x ∷ p)),
      v'',
    )

-- `Write` ends without a panic, and the bytes stand behind those that were unread, whatever the
-- chunks of the pools hold.
pub write-unread :
    (pool : ℕ → ℕ → Bytes) (b : DataBuffer) (p : Bytes)
    → ArePools pool
    → IsBuffer b
    → (b' : DataBuffer) × (write pool b p ≡ some b') × (unread b' ≡ unread b ++ p) × IsBuffer b'
unfolding write
write-unread pool b p a v = write_loop-unread pool (length p) 0 b p a v (omega arith)
