-- ===== src/Http2/DataBuffer/Read.antt =====
-- `Read` takes bytes off the front of what the buffer holds.
use Prim.Native.Nat.{min}
use fhttp.Base.{
  ℕ, zero, suc, ◌+◌, ◌-◌, ◌≤◌, ◌<◌, ◌≡◌, ◌⊎◌, inl, inr, refl, sym, ap, ◌∙◌, true, false, some, List,
  [], ◌∷◌, ◌++◌, Bytes, length, take, drop, arith, length-drop, length-take, Bool-cases, ◌==◌, ◌||◌,
  if◌then◌else◌, drop-drop, take-append-drop-min, drop-append_le, take-append_ge, drop-append_ge,
  take_none, drop_all, append-nil, append_assoc,
}
use fhttp.Http2.DataBuffer.{
  DataBuffer, bytes_from_first_chunk, advance, read_round, read_loop, read, read_empty, read_bytes,
}
use fhttp.Http2.DataBuffer.Contents.{contents, unread, IsPlaced, IsBuffer}

-- The first chunk's part of the unread bytes, and what follows.
unfoldable first_part : List Bytes → ℕ → ℕ → Bytes
first_part [] r w = []
first_part (c ∷ []) r w = drop r (take w c)
first_part (c ∷ d ∷ cs) r w = drop r c

unfoldable later_part : List Bytes → ℕ → Bytes
later_part [] w = []
later_part (c ∷ []) w = []
later_part (c ∷ d ∷ cs) w = contents (d ∷ cs) 0 w

contents_parts :
    (cs : List Bytes) (r w : ℕ) → contents cs r w ≡ first_part cs r w ++ later_part cs w
unfolding contents first_part later_part
contents_parts [] r w = refl
contents_parts (c ∷ []) r w = sym (append-nil _)
contents_parts (c ∷ d ∷ cs) r w = refl

bytes_from_first_chunk-first_part :
    (cs : List Bytes) (r w : ℕ)
    → IsPlaced cs r w
    → 0 < length (contents cs r w)
    → bytes_from_first_chunk cs r w ≡ some (first_part cs r w)
unfolding bytes_from_first_chunk first_part contents
bytes_from_first_chunk-first_part [] r w v h = absurd (omega arith)
bytes_from_first_chunk-first_part (c ∷ []) r w v h = ground arith
bytes_from_first_chunk-first_part (c ∷ d ∷ cs) r w v h = ground arith

first_part_pos :
    (cs : List Bytes) (r w : ℕ)
    → IsPlaced cs r w
    → 0 < length (contents cs r w)
    → 0 < length (first_part cs r w)
unfolding first_part contents
first_part_pos [] r w v h = h
first_part_pos (c ∷ []) r w v h = h
first_part_pos (c ∷ d ∷ cs) r w v h = omega (arith, length-drop r c)

-- Consuming `k` bytes of the first chunk.
advance-contents :
    (cs : List Bytes) (r w k : ℕ)
    → IsPlaced cs r w
    → 0 < length (contents cs r w)
    → k ≤ length (first_part cs r w)
    → (t : List Bytes × ℕ) × (advance cs (r + k) ≡ some t)
      × IsPlaced t.0 t.1 w
      × (contents t.0 t.1 w ≡ drop k (contents cs r w))
unfolding advance contents first_part
advance-contents [] r w k v h hk = absurd (omega arith)
advance-contents (c ∷ []) r w k v h hk =
    let len : r + k ≤ w = omega (arith, hk, length-drop r (take w c), length-take w c) in
    elim (Bool-cases (r + k == length c)) [
      | inl e ↦ (
        ([], 0),
        rw (e, v.3) refl,
        refl,
        sym (
            drop-drop k r (take w c)
            ∙ drop_all (r + k) (take w c) (ground (arith, length-take w c))),
      )
      | inr e ↦ (
        (c ∷ [], r + k),
        rw e refl,
        (len, v.1, ground arith, v.3),
        sym (drop-drop k r (take w c)),
      )
    ]
advance-contents (c ∷ d ∷ cs) r w k v h hk =
    let len : r + k ≤ length c = omega (arith, length-drop r c) in
    let rest : drop k (drop r c ++ contents (d ∷ cs) 0 w)
        ≡ drop (r + k) c ++ contents (d ∷ cs) 0 w =
      drop-append_le k (drop r c) (contents (d ∷ cs) 0 w) hk
      ∙ ap (λ t. t ++ contents (d ∷ cs) 0 w) (drop-drop k r c) in
    elim (Bool-cases (r + k == length c)) [
      | inl e ↦ (
        (d ∷ cs, 0),
        rw (e, v.1) refl,
        v.2,
        sym (rest ∙ ap (λ t. t ++ contents (d ∷ cs) 0 w) (drop_all (r + k) c (ground arith))),
      )
      | inr e ↦ ((c ∷ d ∷ cs, r + k), rw e refl, (ground arith, v.1, v.2), sym rest)
    ]

-- One round copies the front of what is unread, one byte or more.
read_round-contents :
    (b : DataBuffer) (n : ℕ)
    → IsBuffer b
    → 0 < length (unread b)
    → 0 < n
    → (src : Bytes) × (b' : DataBuffer) × (read_round b n ≡ some (src, b'))
      × (0 < length src)
      × (length src ≤ n)
      × (src ++ unread b' ≡ unread b)
      × IsBuffer b'
unfolding read_round unread
read_round-contents b n (v, sz) h hn =
    let f = first_part b.chunks b.r b.w in
    let pos = first_part_pos b.chunks b.r b.w v h in
    let (t, run, placed, held) =
      advance-contents b.chunks b.r b.w (min n (length f)) v h (omega arith) in
    (
      take n f,
      record b { chunks = t.0; r = t.1; size = b.size - min n (length f) },
      simp (bytes_from_first_chunk-first_part b.chunks b.r b.w v h, run),
      omega (arith, length-take n f),
      omega (arith, length-take n f),
      ap (λ t. take n f ++ t)
            (held ∙ ap (drop (min n (length f))) (contents_parts b.chunks b.r b.w))
          ∙ take-append-drop-min n f (later_part b.chunks b.w)
          ∙ sym (contents_parts b.chunks b.r b.w),
      (
        placed,
        omega
            (arith, sz, ap length held, length-drop (min n (length f)) (contents b.chunks b.r b.w)),
      ),
    )

stops : (n size len : ℕ) → (n == 0 || size == 0) ≡ true → size ≡ len → (n ≡ 0) ⊎ (len ≡ 0)
stops n size len h e = ground arith

read_loop-contents :
    (fuel : ℕ) (b : DataBuffer) (n : ℕ) (out : Bytes)
    → n ≤ fuel
    → IsBuffer b
    → (b' : DataBuffer) × (read_loop fuel b n out ≡ some (out ++ take n (unread b), b'))
      × (unread b' ≡ drop n (unread b))
      × IsBuffer b'
unfolding read_loop
read_loop-contents zero b n out hn v =
    let none_left : (n == 0 || b.size == 0) ≡ true = ground arith in
    let t = take_none n (unread b) (inl (omega arith)) in
    (
      b,
      rw none_left (ap (λ o. some (o, b)) (sym (ap (λ p. out ++ p) t.0 ∙ append-nil out))),
      sym t.1,
      v,
    )
read_loop-contents (suc fuel) b n out hn v = elim (Bool-cases (n == 0 || b.size == 0)) [
  | inl done ↦
      let t = take_none n (unread b) (stops n b.size _ done v.1) in
      (
        b,
        rw done (ap (λ o. some (o, b)) (sym (ap (λ p. out ++ p) t.0 ∙ append-nil out))),
        sym t.1,
        v,
      )
  | inr more ↦
      let (src, b1, run, pos, most, split, v1) =
        read_round-contents b n v (ground arith) (ground arith) in
      let (b2, rest, left, v2) =
        read_loop-contents fuel b1 (n - length src) (out ++ src) (omega arith) v1 in
      let taken : src ++ take (n - length src) (unread b1) ≡ take n (unread b) =
        sym (take-append_ge n src (unread b1) most) ∙ ap (take n) split in
      (
        b2,
        rw (more, run)
            (rest
              ∙ ap (λ o. some (o, b2))
                  (append_assoc out src (take (n - length src) (unread b1))
                    ∙ ap (λ p. out ++ p) taken)),
        left ∙ sym (drop-append_ge n src (unread b1) most) ∙ ap (drop n) split,
        v2,
      )
]

-- `Read` of a sound buffer into a slice of `n` bytes does not panic, and the buffer is sound again.
-- On an empty buffer it answers `errReadEmpty` and leaves the buffer as it is; else it copies the
-- first `n` unread bytes, or all where there are fewer, and those that stood behind them are left.
pub read-unread :
    (b : DataBuffer) (n : ℕ)
    → IsBuffer b
    → (b' : DataBuffer) × (read b n
        ≡ some
            ((if length (unread b) == 0 then read_empty else read_bytes (take n (unread b))), b'))
      × (unread b' ≡ drop n (unread b))
      × IsBuffer b'
      × (length (unread b) ≡ 0 → b' ≡ b)
unfolding read
read-unread b n v = elim (Bool-cases (length (unread b) == 0)) [
  | inl e ↦
      let z : (b.size == 0) ≡ true = ground (arith, v.1) in
      (b, rw (z, e) refl, sym (take_none n (unread b) (inr (ground arith))).1, v, λ _. refl)
  | inr e ↦
      let (b', run, left, v') = read_loop-contents n b n [] (omega arith) v in
      let z : (b.size == 0) ≡ false = ground (arith, v.1) in
      (b', rw (z, e, run) refl, left, v', λ gone. absurd (ground (arith, e, gone)))
]
