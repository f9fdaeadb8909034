-- ===== src/Http2/Frame/Blocks.antt =====
-- What `ReadFrame` makes of the octets of the writers of HEADERS, PUSH_PROMISE and CONTINUATION
-- frames (http2/frame.go).
use native.Mathlib.Nat.{mod-eq_of_lt}
use fhttp.Base.{
  ℕ, ◌+◌, ◌-◌, ◌/◌, ◌%◌, ◌^◌, ◌<◌, ◌≤◌, ◌≡◌, ◌≢◌, ap, subst, Bool, true, false, not, ◌&&◌, [], ◌∷◌,
  ◌++◌, Bytes, length, take, replicate, arith, if◌then◌else◌, length-append, length-replicate,
  Bool-cases, inl, inr, ltb, leb, ◌==◌,
}
use fhttp.Http2.Frame.{
  FrameHeader, ok, has, PriorityParam, zero_priority, headers_frame, push_promise_frame,
  continuation_frame, flag_end_headers, flag_end_stream, flag_padded, flag_priority,
}
use fhttp.Http2.Frame.Octets.{octets32, low31, uint32-octets32, read_byte, read_uint32}
use fhttp.Http2.Frame.Write.{
  write_continuation, write_headers, write_push_promise, HeadersFrameParam, PushPromiseParam,
  priority_octets, valid_stream_id, valid_stream_id_or_zero, set_flag, headers_flags, is_zero,
}
use fhttp.Http2.Frame.Read.{Framer}
use fhttp.Http2.Frame.Parse.{
  parse_frame, parse_continuation_frame, pad_size, read_priority, parse_headers_frame,
  parse_push_promise,
}
use fhttp.Http2.Frame.RoundTrip.{header_for, ReadsBack, framed-ReadsBack, valid_stream_id-bounds}
use fhttp.Http2.Frame.Padded.{priority_of-bits, ==-false, take-padding}

abbrev pub pad_byte : ℕ → Bytes
pad_byte n = if n == 0 then [] else n ∷ []

pad_size-byte :
    (h : FrameHeader) (n : ℕ) (rest : Bytes)
    → has h.flags flag_padded ≡ not (n == 0)
    → pad_size h (pad_byte n ++ rest) ≡ ok (rest, n)
unfolding pad_size read_byte
pad_size-byte h n rest e = elim (Bool-cases (n == 0)) [
  | inl z ↦ let z0 : 0 ≡ n = ground arith in rw (e, z) (ap (λ k. ok (rest, k)) z0)
  | inr z ↦ rw (e, z)
]

is_zero→ : (p : PriorityParam) → is_zero p ≡ true → zero_priority ≡ p
unfolding is_zero
is_zero→ p e = ground arith

abbrev pub prio_octets : PriorityParam → Bytes
prio_octets p = if is_zero p then [] else priority_octets p

read_priority-octets :
    (h : FrameHeader) (p : PriorityParam) (rest : Bytes)
    → has h.flags flag_priority ≡ not (is_zero p)
    → p.stream_dep < 2 ^ 31
    → read_priority h (prio_octets p ++ rest) ≡ ok (rest, p)
unfolding read_priority priority_octets read_uint32 read_byte
read_priority-octets h p rest e hp = elim (Bool-cases (is_zero p)) [
  | inl z ↦ rw (e, z) (ap (λ q. ok (rest, q)) (is_zero→ p z))
  | inr z ↦ simp (
    e,
    z,
    uint32-octets32 (if p.exclusive then p.stream_dep + 2 ^ 31 else p.stream_dep) (ground arith),
    priority_of-bits p.stream_dep p.weight p.exclusive hp,
  )
]

cut : (d : Bytes) (n : ℕ) → take (length (d ++ replicate n 0) - n) (d ++ replicate n 0) ≡ d
cut d n =
    subst (λ k. take (length (d ++ replicate n 0) - k) (d ++ replicate n 0) ≡ d)
      (length-replicate {A = ℕ} n 0) (take-padding d (replicate n 0))

parse_headers_frame-octets :
    (h : FrameHeader) (n : ℕ) (p : PriorityParam) (d : Bytes)
    → has h.flags flag_padded ≡ not (n == 0)
    → has h.flags flag_priority ≡ not (is_zero p)
    → h.stream_id ≢ 0
    → p.stream_dep < 2 ^ 31
    → 0 < length d
    → parse_headers_frame h (pad_byte n ++ (prio_octets p ++ (d ++ replicate n 0)))
      ≡ ok (headers_frame h p d)
unfolding parse_headers_frame
parse_headers_frame-octets h n p d ep eq h0 hp hd =
    let long : leb (length (d ++ replicate n 0)) n ≡ false =
      ground (arith, length-append d (replicate n 0), length-replicate {A = ℕ} n 0) in
    simp (
      ==-false h.stream_id h0,
      pad_size-byte h n (prio_octets p ++ (d ++ replicate n 0)) ep,
      read_priority-octets h p (d ++ replicate n 0) eq hp,
      long,
      cut d n,
    )

parse_push_promise-octets :
    (h : FrameHeader) (n promise : ℕ) (d : Bytes)
    → has h.flags flag_padded ≡ not (n == 0)
    → h.stream_id ≢ 0
    → promise < 2 ^ 31
    → parse_push_promise h (pad_byte n ++ (octets32 promise ++ (d ++ replicate n 0)))
      ≡ ok (push_promise_frame h promise d)
unfolding parse_push_promise read_uint32
parse_push_promise-octets h n promise d ep h0 hp =
    let fits : ltb (length (d ++ replicate n 0)) n ≡ false =
      ground (arith, length-append d (replicate n 0), length-replicate {A = ℕ} n 0) in
    let low : low31 promise ≡ promise = mod-eq_of_lt hp in
    simp (
      ==-false h.stream_id h0,
      pad_size-byte h n (octets32 promise ++ (d ++ replicate n 0)) ep,
      uint32-octets32 promise (omega arith),
      low,
      fits,
      cut d n,
    )

-- The flags of `WriteHeaders`, as far as its parser and the octet of the header are concerned.
four_flags :
    (a b c d : Bool)
    → let f : ℕ =
        set_flag a flag_priority
          (set_flag b flag_end_headers (set_flag c flag_end_stream (set_flag d flag_padded 0))) in
      (has f flag_padded ≡ d) × (has f flag_priority ≡ a) × (f < 256)
unfolding has
four_flags a b c d = ground arith

two_flags :
    (a b : Bool)
    → let f : ℕ = set_flag a flag_end_headers (set_flag b flag_padded 0) in
      (has f flag_padded ≡ b) × (f < 256)
unfolding has
two_flags a b = ground arith

abbrev pub headers_payload : HeadersFrameParam → Bytes
headers_payload p =
    pad_byte p.pad_length
    ++ (prio_octets p.priority ++ (p.block_fragment ++ replicate p.pad_length 0))

length-pad_byte : (n : ℕ) → length (pad_byte n) ≤ 1
length-pad_byte n = ground arith

length-prio_octets : (p : PriorityParam) → length (prio_octets p) ≤ 5
unfolding priority_octets
length-prio_octets p = ground arith

length-headers_payload :
    (p : HeadersFrameParam)
    → length (headers_payload p) ≤ length p.block_fragment + p.pad_length + 6
length-headers_payload p = grind (
  arith,
  length-append (pad_byte p.pad_length)
      (prio_octets p.priority ++ (p.block_fragment ++ replicate p.pad_length 0)),
  length-append (prio_octets p.priority) (p.block_fragment ++ replicate p.pad_length 0),
  length-append p.block_fragment (replicate p.pad_length 0),
  length-replicate {A = ℕ} p.pad_length 0,
  length-pad_byte p.pad_length,
  length-prio_octets p.priority,
)

-- The octets of a HEADERS frame with a fragment that is not empty are read as a HEADERS frame with
-- that priority and that fragment, without the padding.
pub write_headers-ReadsBack :
    (fr : Framer) (rest : Bytes) (p : HeadersFrameParam)
    → p.stream_id < 2 ^ 32
    → valid_stream_id p.stream_id ≡ true
    → p.priority.stream_dep < 2 ^ 31
    → p.pad_length < 256
    → 0 < length p.block_fragment
    → length p.block_fragment + 261 < 2 ^ 24
    → length p.block_fragment + 261 ≤ fr.max_read_size
    → ReadsBack fr rest (write_headers p) (
        headers_frame
          (header_for 1 (headers_flags p) p.stream_id (headers_payload p))
          p.priority
          p.block_fragment)
unfolding write_headers parse_frame valid_stream_id_or_zero
write_headers-ReadsBack fr rest p hs v hp hl hd hn hm =
    let b = valid_stream_id-bounds p.stream_id hs v in
    let f =
      four_flags (not (is_zero p.priority)) p.end_headers p.end_stream (not (p.pad_length == 0)) in
    let dep : (not (is_zero p.priority) && not (p.priority.stream_dep / 2 ^ 31 % 2 == 0)) ≡ false =
      ground arith in
    simp (v, dep)
      (framed-ReadsBack fr rest 1 (headers_flags p) p.stream_id (headers_payload p) _
        (omega (arith, length-headers_payload p)) (omega (arith, length-headers_payload p))
        (omega arith) f.2 b.1
        (parse_headers_frame-octets _ p.pad_length p.priority p.block_fragment f.0 f.1 b.0 hp hd))

abbrev pub push_promise_payload : PushPromiseParam → Bytes
push_promise_payload p =
    pad_byte p.pad_length
    ++ (octets32 p.promise_id ++ (p.block_fragment ++ replicate p.pad_length 0))

abbrev pub push_promise_flags : PushPromiseParam → ℕ
push_promise_flags p =
    set_flag p.end_headers flag_end_headers (set_flag (not (p.pad_length == 0)) flag_padded 0)

length-push_promise_payload :
    (p : PushPromiseParam)
    → length (push_promise_payload p) ≤ length p.block_fragment + p.pad_length + 5
length-push_promise_payload p = grind (
  arith,
  length-append (pad_byte p.pad_length)
      (octets32 p.promise_id ++ (p.block_fragment ++ replicate p.pad_length 0)),
  length-append p.block_fragment (replicate p.pad_length 0),
  length-replicate {A = ℕ} p.pad_length 0,
  length-pad_byte p.pad_length,
)

-- The octets of a PUSH_PROMISE frame are read as a PUSH_PROMISE frame with that promised stream
-- and that fragment, without the padding.
pub write_push_promise-ReadsBack :
    (fr : Framer) (rest : Bytes) (p : PushPromiseParam)
    → p.stream_id < 2 ^ 32
    → valid_stream_id p.stream_id ≡ true
    → p.promise_id < 2 ^ 32
    → valid_stream_id p.promise_id ≡ true
    → p.pad_length < 256
    → length p.block_fragment + 260 < 2 ^ 24
    → length p.block_fragment + 260 ≤ fr.max_read_size
    → ReadsBack fr rest (write_push_promise p) (
        push_promise_frame
          (header_for 5 (push_promise_flags p) p.stream_id (push_promise_payload p))
          p.promise_id
          p.block_fragment)
unfolding write_push_promise parse_frame
write_push_promise-ReadsBack fr rest p hs v hp vp hl hn hm =
    let b = valid_stream_id-bounds p.stream_id hs v in
    let c = valid_stream_id-bounds p.promise_id hp vp in
    let f = two_flags p.end_headers (not (p.pad_length == 0)) in
    simp (v, vp)
      (framed-ReadsBack fr rest 5 (push_promise_flags p) p.stream_id (push_promise_payload p) _
        (omega (arith, length-push_promise_payload p))
        (omega (arith, length-push_promise_payload p)) (omega arith) f.1 b.1
        (parse_push_promise-octets _ p.pad_length p.promise_id p.block_fragment f.0 b.0 c.1))

parse_continuation_frame-octets :
    (h : FrameHeader) (d : Bytes)
    → h.stream_id ≢ 0
    → parse_continuation_frame h d ≡ ok (continuation_frame h d)
unfolding parse_continuation_frame
parse_continuation_frame-octets h d h0 = simp (==-false h.stream_id h0)

-- The octets of a CONTINUATION frame are read as that CONTINUATION frame.
pub write_continuation-ReadsBack :
    (fr : Framer) (rest : Bytes) (s : ℕ) (end_headers : Bool) (d : Bytes)
    → s < 2 ^ 32
    → valid_stream_id s ≡ true
    → length d < 2 ^ 24
    → length d ≤ fr.max_read_size
    → ReadsBack fr rest
        (write_continuation s end_headers d)
        (continuation_frame (header_for 9 (set_flag end_headers flag_end_headers 0) s d) d)
unfolding write_continuation parse_frame
write_continuation-ReadsBack fr rest s end_headers d hs v hn hm =
    let b = valid_stream_id-bounds s hs v in
    rw v (
      framed-ReadsBack fr rest 9 (set_flag end_headers flag_end_headers 0) s d _ hn hm (omega arith)
        (ground arith) b.1 (parse_continuation_frame-octets _ d b.0))
