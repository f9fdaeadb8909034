-- ===== src/Http2/Frame/Order.antt =====
-- The order that `checkFrameOrder` enforces on the frames of `ReadFrame` (http2/frame.go): a header
-- block is one frame or a run of CONTINUATIONs on its stream, and nothing comes in between.
use fhttp.Base.{
  ℕ, ◌≡◌, ◌≢◌, ◌⊎◌, refl, sym, ap, subst, ◌∙◌, true, false, ◌||◌, List, [], ◌∷◌, ◌++◌, Bytes, arith,
  if◌then◌else◌, Bool-cases, inl, inr, ◌==◌, All,
}
use fhttp.Http2.Frame.{
  FrameHeader, ok, Frame, header, has, flag_end_headers, frame_headers, frame_push_promise,
  frame_continuation,
}
use fhttp.Http2.Frame.Read.{Framer, read_frame, check_frame_order}

-- The stream whose header block a frame of the block leaves open, 0 for none.
abbrev pub open_after : FrameHeader → ℕ
open_after h = if has h.flags flag_end_headers then 0 else h.stream_id

abbrev pub StartsBlock : FrameHeader → Type 0
StartsBlock h = (h.type ≡ frame_headers) ⊎ (h.type ≡ frame_push_promise)

-- A frame `h` may come where the block of stream `n` is open, 0 for none, and leaves `m` open.
pub data Follows (n : ℕ) (h : FrameHeader) (m : ℕ) : Type 0 where
  between : n ≡ 0 → ¬ StartsBlock h → h.type ≢ frame_continuation → m ≡ 0 → Follows n h m
  starts : n ≡ 0 → StartsBlock h → m ≡ open_after h → Follows n h m
  continues :
      n ≢ 0 → h.type ≡ frame_continuation → h.stream_id ≡ n → m ≡ open_after h → Follows n h m

-- `checkFrameOrder` accepts only a frame that may follow, and keeps the stream of the open block.
pub check_frame_order-Follows :
    (fr : Framer) (h : FrameHeader) (fr' : Framer)
    → fr.allow_illegal_reads ≡ false
    → check_frame_order fr h ≡ ok fr'
    → Follows fr.last_header_stream h fr'.last_header_stream × (fr'.allow_illegal_reads ≡ false)
unfolding check_frame_order
check_frame_order-Follows fr h fr' legal e = elim (Bool-cases (fr.last_header_stream == 0)) [
  | inl z ↦ elim (Bool-cases (h.type == frame_headers || h.type == frame_push_promise)) [
    | inl s ↦ (starts (ground arith) (ground arith) (ground arith), ground arith)
    | inr s ↦ (
      between (ground arith) (λ q. ground arith) (λ q. ground arith) (ground arith),
      ground arith,
    )
  ]
  | inr z ↦ (continues (ground arith) (ground arith) (ground arith) (ground arith), ground arith)
]

-- `checkFrameOrder` accepts every frame that may follow.
pub Follows-check_frame_order :
    (fr : Framer) (h : FrameHeader) (m : ℕ)
    → fr.allow_illegal_reads ≡ false
    → Follows fr.last_header_stream h m
    → check_frame_order fr h ≡ ok (record fr { last_header_stream = m })
unfolding check_frame_order
Follows-check_frame_order fr h m legal (between z s c e) =
    let not_headers : h.type ≢ 1 = λ q. s (inl q) in
    let not_promise : h.type ≢ 5 = λ q. s (inr q) in ground arith
Follows-check_frame_order fr h m legal (starts z s e) = ground arith
Follows-check_frame_order fr h m legal (continues z c i e) = ground arith

-- The frames of calls of `ReadFrame` in a row, each of which returned one.
pub data ReadsAll : Framer → Bytes → List Frame → Framer → Bytes → Type 0 where
  none_read : {fr : Framer} {r : Bytes} → ReadsAll fr r [] fr r
  one_more :
      {fr fr' fr'' : Framer} {r r' r'' : Bytes} {f : Frame} {fs : List Frame}
      → read_frame fr r ≡ ok (f, fr', r')
      → ReadsAll fr' r' fs fr'' r''
      → ReadsAll fr r (f ∷ fs) fr'' r''

-- Frames whose headers follow each other, from an open block to an open block.
pub data Ordered : ℕ → List Frame → ℕ → Type 0 where
  no_frames : {n : ℕ} → Ordered n [] n
  then_frame :
      {n m k : ℕ} {f : Frame} {fs : List Frame}
      → Follows n (header f) m
      → Ordered m fs k
      → Ordered n (f ∷ fs) k

read_frame-Follows :
    (fr : Framer) (r : Bytes) (f : Frame) (fr' : Framer) (r' : Bytes)
    → fr.allow_illegal_reads ≡ false
    → read_frame fr r ≡ ok (f, fr', r')
    → Follows fr.last_header_stream (header f) fr'.last_header_stream
      × (fr'.allow_illegal_reads ≡ false)
unfolding read_frame
read_frame-Follows fr r f fr' r' legal e =
    ground (arith, check_frame_order-Follows fr (header f) fr' legal)

-- Whatever the peer sends, the frames that `ReadFrame` returns one after another are in order: a
-- header block is never interrupted.
pub ReadsAll-Ordered :
    {fr fr' : Framer} {r r' : Bytes} {fs : List Frame}
    → ReadsAll fr r fs fr' r'
    → fr.allow_illegal_reads ≡ false
    → Ordered fr.last_header_stream fs fr'.last_header_stream
ReadsAll-Ordered none_read legal = no_frames
ReadsAll-Ordered (one_more e more) legal =
    let h = read_frame-Follows _ _ _ _ _ legal e in then_frame h.0 (ReadsAll-Ordered more h.1)

-- A CONTINUATION on stream `s` that leaves its block open, and one that ends it.
abbrev pub ContinuesOn : ℕ → Frame → Type 0
ContinuesOn s f =
    ((header f).type ≡ frame_continuation)
    × ((header f).stream_id ≡ s)
    × (has (header f).flags flag_end_headers ≡ false)

abbrev pub EndsOn : ℕ → Frame → Type 0
EndsOn s f =
    ((header f).type ≡ frame_continuation)
    × ((header f).stream_id ≡ s)
    × (has (header f).flags flag_end_headers ≡ true)

-- The block of stream `s` goes on to the end of the frames, or to the frame that ends it.
abbrev pub Uninterrupted : ℕ → List Frame → ℕ → Type 0
Uninterrupted s fs m =
    (All (ContinuesOn s) fs × (m ≡ s))
    ⊎ ((xs : List Frame) × (f : Frame) × (ys : List Frame) × (fs ≡ xs ++ f ∷ ys)
        × All (ContinuesOn s) xs
        × EndsOn s f
        × Ordered 0 ys m)

one_longer :
    (s : ℕ) (f : Frame) (fs : List Frame) (m : ℕ)
    → ContinuesOn s f
    → Uninterrupted s fs m
    → Uninterrupted s (f ∷ fs) m
one_longer s f fs m c (inl u) = inl ((c, u.0), u.1)
one_longer s f fs m c (inr (xs, g, ys, e, a, last, o)) =
    inr (f ∷ xs, g, ys, ap (λ t. f ∷ t) e, (c, a), last, o)

open_after-ended : (h : FrameHeader) → has h.flags flag_end_headers ≡ true → open_after h ≡ 0
open_after-ended h e = rw e

open_after-unended :
    (h : FrameHeader) → has h.flags flag_end_headers ≡ false → open_after h ≡ h.stream_id
open_after-unended h e = rw e

Ordered-Uninterrupted :
    {s n m : ℕ} {fs : List Frame} → Ordered n fs m → n ≡ s → s ≢ 0 → Uninterrupted s fs m
Ordered-Uninterrupted no_frames e s0 = inl (tt, e)
Ordered-Uninterrupted (then_frame (between z _ _ _) more) e s0 = absurd (s0 (sym e ∙ z))
Ordered-Uninterrupted (then_frame (starts z _ _) more) e s0 = absurd (s0 (sym e ∙ z))
Ordered-Uninterrupted {s} {m = m} {fs = f ∷ fs} (then_frame (continues _ c i a) more) e s0 =
    elim (Bool-cases (has (header f).flags flag_end_headers)) [
      | inl ends ↦ inr (
        [],
        f,
        fs,
        refl,
        tt,
        (c, i ∙ e, ends),
        subst (λ k. Ordered k fs m) (a ∙ open_after-ended (header f) ends) more,
      )
      | inr unended ↦
          one_longer s f fs m (c, i ∙ e, unended)
            (Ordered-Uninterrupted more (a ∙ open_after-unended (header f) unended ∙ i ∙ e) s0)
    ]

-- While the header block of a stream is open, `ReadFrame` returns nothing but CONTINUATIONs on that
-- stream up to the one with END_HEADERS, whatever the peer sends.
pub ReadsAll-Uninterrupted :
    {fr fr' : Framer} {r r' : Bytes} {fs : List Frame}
    → ReadsAll fr r fs fr' r'
    → fr.allow_illegal_reads ≡ false
    → fr.last_header_stream ≢ 0
    → Uninterrupted fr.last_header_stream fs fr'.last_header_stream
ReadsAll-Uninterrupted run legal s0 = Ordered-Uninterrupted (ReadsAll-Ordered run legal) refl s0
