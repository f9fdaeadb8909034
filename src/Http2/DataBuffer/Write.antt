-- ===== src/Http2/DataBuffer/Write.antt =====
-- What a new chunk and a copy into the last chunk do to what the buffer holds.
use Prim.Native.Nat.{min}
use fhttp.Base.{
  ℕ, ◌+◌, ◌-◌, ◌≤◌, ◌<◌, ◌≡◌, refl, sym, ap, subst, ◌∙◌, true, false, List, [], ◌∷◌, ◌++◌, Bytes,
  length, take, drop, arith, length-drop, length-take, length-append, Bool-cases, lt→ltb, inl, inr,
  ◌==◌, if◌then◌else◌, take-append, drop_nil, drop-append_le, take-append_ge, take_all, append-nil,
  append_assoc,
}
use fhttp.Http2.DataBuffer.{
  DataBuffer, has_length, data_chunk_size_classes, class_for, get_data_buffer_chunk, has_room,
  last_chunk_or_alloc, copy_last,
}
use fhttp.Http2.DataBuffer.Contents.{contents, unread, IsChunk, IsPlaced, IsBuffer}

-- The chunks of pool `i` have its length; `getDataBufferChunk` asks for no pool after the fifth.
abbrev pub chunk_length : ℕ → ℕ
chunk_length i =
    if i == 0
    then 1024
    else if i == 1
    then 2048
    else if i == 2
    then 4096
    else if i == 3
    then 8192
    else 16384

abbrev pub ArePools : (ℕ → ℕ → Bytes) → Type 0
ArePools pool = (k i : ℕ) → length (pool k i) ≡ chunk_length i

chunk_length_lem : (i : ℕ) → has_length data_chunk_size_classes (chunk_length i) ≡ true
unfolding has_length
chunk_length_lem i = ground arith

chunk_length_pos : (i : ℕ) → 0 < chunk_length i
chunk_length_pos i = ground arith

-- A full last chunk, followed by an empty new one.
append-IsPlaced :
    (cs : List Bytes) (r w : ℕ) (c : Bytes)
    → IsPlaced cs r w
    → has_room cs w ≡ false
    → IsChunk c
    → 0 < length c
    → IsPlaced (cs ++ c ∷ []) r 0 × (contents (cs ++ c ∷ []) r 0 ≡ contents cs r w)
unfolding has_room contents
append-IsPlaced [] r w c v h hc pos = ((omega arith, omega arith, omega arith, hc), drop_nil r)
append-IsPlaced (d ∷ []) r w c v h hc pos =
    let full : length d ≤ w = ground arith in
    (
      (v.2, v.3, (omega arith, omega arith, pos, hc)),
      append-nil (drop r d) ∙ ap (drop r) (sym (take_all w d full)),
    )
append-IsPlaced (d ∷ e ∷ cs) r w c v h hc pos =
    let ih = append-IsPlaced (e ∷ cs) 0 w c v.2 h hc pos in
    ((v.0, v.1, ih.0), ap (λ t. drop r d ++ t) ih.1)

overwrite : Bytes → ℕ → Bytes → Bytes
overwrite c w q = take w c ++ (q ++ drop (w + length q) c)

length-overwrite :
    (c : Bytes) (w : ℕ) (q : Bytes) → w + length q ≤ length c → length (overwrite c w q) ≡ length c
unfolding overwrite
length-overwrite c w q h = omega (
  arith,
  length-append (take w c) (q ++ drop (w + length q) c),
  length-append q (drop (w + length q) c),
  length-take w c,
  length-drop (w + length q) c,
)

take-overwrite :
    (c : Bytes) (w : ℕ) (q : Bytes)
    → w + length q ≤ length c
    → take (w + length q) (overwrite c w q) ≡ take w c ++ q
unfolding overwrite
take-overwrite c w q h =
    let len : length (take w c) ≡ w = omega (arith, length-take w c) in
    let front : w + length q - length (take w c) ≡ length q = omega (arith, len) in
    take-append_ge (w + length q) (take w c) (q ++ drop (w + length q) c) (omega (arith, len))
    ∙ ap (λ k. take w c ++ take k (q ++ drop (w + length q) c)) front
    ∙ ap (λ t. take w c ++ t) (take-append q (drop (w + length q) c))

cons-IsPlaced :
    (c : Bytes) (t : List Bytes) (r w : ℕ)
    → 0 < length t
    → r < length c
    → IsChunk c
    → IsPlaced t 0 w
    → IsPlaced (c ∷ t) r w × (contents (c ∷ t) r w ≡ drop r c ++ contents t 0 w)
unfolding contents
cons-IsPlaced c [] r w h hr hc v = absurd (omega arith)
cons-IsPlaced c (d ∷ t) r w h hr hc v = ((hr, hc, v), refl)

length-copy_last : (cs : List Bytes) (w : ℕ) (p : Bytes) → length (copy_last cs w p).0 ≡ length cs
unfolding copy_last
length-copy_last [] w p = refl
length-copy_last (c ∷ []) w p = refl
length-copy_last (c ∷ d ∷ cs) w p = omega (arith, length-copy_last (d ∷ cs) w p)

copy_exact :
    (c : Bytes) (r w : ℕ) (q : Bytes)
    → w + length q ≤ length c
    → (r ≤ w) × (w ≤ length c) × (r < length c) × IsChunk c
    → IsPlaced (overwrite c w q ∷ []) r (w + length q)
      × (contents (overwrite c w q ∷ []) r (w + length q) ≡ drop r (take w c) ++ q)
unfolding contents
copy_exact c r w q h v =
    let len = length-overwrite c w q h in
    (
      (
        omega (arith, v.0),
        omega (arith, len),
        omega (arith, len, v.2),
        ap (has_length data_chunk_size_classes) len ∙ v.3,
      ),
      ap (drop r) (take-overwrite c w q h)
          ∙ drop-append_le r (take w c) q (omega (arith, length-take w c, v.0, v.1)),
    )

-- The copy into one chunk, of the bytes `q` that there is room for.
copy_one :
    (c : Bytes) (r w n : ℕ) (q : Bytes)
    → n ≡ length q
    → w + n ≤ length c
    → (r ≤ w) × (w ≤ length c) × (r < length c) × IsChunk c
    → let c' = take w c ++ (q ++ drop (w + n) c) in
      IsPlaced (c' ∷ []) r (w + n) × (contents (c' ∷ []) r (w + n) ≡ drop r (take w c) ++ q)
unfolding contents overwrite
copy_one c r w n q e h v =
    subst
      (λ k.
        IsPlaced ((take w c ++ (q ++ drop (w + k) c)) ∷ []) r (w + k)
        × (contents ((take w c ++ (q ++ drop (w + k) c)) ∷ []) r (w + k) ≡ drop r (take w c) ++ q))
      (sym e) (copy_exact c r w q (omega (arith, e)) v)

pub copy_last-contents :
    (cs : List Bytes) (r w : ℕ) (p : Bytes)
    → IsPlaced cs r w
    → has_room cs w ≡ true
    → 0 < length p
    → let t = copy_last cs w p in
      IsPlaced t.0 r (w + t.1)
      × (contents t.0 r (w + t.1) ≡ contents cs r w ++ take t.1 p)
      × (t.1 ≤ length p)
      × (0 < t.1)
unfolding has_room contents copy_last
copy_last-contents [] r w p v h hp = cc
copy_last-contents (c ∷ []) r w p v h hp =
    let n = min (length c - w) (length p) in
    let one = copy_one c r w n (take n p) (omega (arith, length-take n p)) (ground arith) v in
    (one.0, one.1, omega arith, ground arith)
copy_last-contents (c ∷ d ∷ cs) r w p v h hp =
    let (placed, held, most, pos) = copy_last-contents (d ∷ cs) 0 w p v.2 h hp in
    let t = copy_last (d ∷ cs) w p in
    let more =
      cons-IsPlaced c t.0 r (w + t.1) (omega (arith, length-copy_last (d ∷ cs) w p)) v.0 v.1
        placed in
    (
      more.0,
      more.1
          ∙ ap (λ q. drop r c ++ q) held
          ∙ sym (append_assoc (drop r c) (contents (d ∷ cs) 0 w) (take t.1 p)),
      most,
      pos,
    )

class_for_alloc :
    (pool : ℕ → ℕ → Bytes) (k want : ℕ)
    → ArePools pool
    → IsChunk (get_data_buffer_chunk (pool k) want)
      × (0 < length (get_data_buffer_chunk (pool k) want))
unfolding get_data_buffer_chunk
class_for_alloc pool k want a =
    let i = class_for want 0 data_chunk_size_classes in
    (
      ap (has_length data_chunk_size_classes) (a k i) ∙ chunk_length_lem i,
      omega (arith, a k i, chunk_length_pos i),
    )

has_room-append : (cs : List Bytes) (c : Bytes) → 0 < length c → has_room (cs ++ c ∷ []) 0 ≡ true
unfolding has_room
has_room-append [] c h = lt→ltb 0 (length c) h
has_room-append (d ∷ []) c h = lt→ltb 0 (length c) h
has_room-append (d ∷ e ∷ cs) c h = has_room-append (e ∷ cs) c h

pub last_chunk_or_alloc-unread :
    (pool : ℕ → ℕ → Bytes) (k want : ℕ) (b : DataBuffer)
    → ArePools pool
    → IsBuffer b
    → let b' = last_chunk_or_alloc (pool k) b want in
      IsPlaced b'.chunks b'.r b'.w
      × (unread b' ≡ unread b)
      × (has_room b'.chunks b'.w ≡ true)
      × (b'.size ≡ b.size)
unfolding last_chunk_or_alloc unread
last_chunk_or_alloc-unread pool k want b a v = elim (Bool-cases (has_room b.chunks b.w)) [
  | inl e ↦ rw e (v.0, refl, e, refl)
  | inr e ↦
      let g = class_for_alloc pool k want a in
      let t =
        append-IsPlaced b.chunks b.r b.w (get_data_buffer_chunk (pool k) want) v.0 e g.0 g.1 in
      rw e (t.0, t.1, has_room-append b.chunks _ g.1, refl)
]
