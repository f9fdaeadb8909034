-- ===== src/Http2/Frame/Padded.antt =====
-- What `ReadFrame` makes of the octets of the writers of DATA, HEADERS, PUSH_PROMISE, PRIORITY and
-- CONTINUATION frames (http2/frame.go), padding included.
use native.Mathlib.Nat.{mod-eq_of_lt}
use fhttp.Base.{
  ℕ, ◌+◌, ◌-◌, ◌/◌, ◌%◌, ◌^◌, ◌<◌, ◌≤◌, ◌≡◌, ◌≢◌, refl, ap, subst, Bool, true, false, [], ◌++◌,
  Bytes, length, take, arith, if◌then◌else◌, length-append, take-append, Option, none, some, ltb,
  le→ltb, ◌==◌,
}
use fhttp.Http2.Frame.{
  FrameHeader, ok, has, PriorityParam, data_frame, priority_frame, flag_end_stream, flag_padded,
}
use fhttp.Http2.Frame.Octets.{uint32-octets32, read_byte}
use fhttp.Http2.Frame.Write.{
  write_priority, write_data_padded, priority_octets, valid_stream_id, valid_stream_id_or_zero,
  all_zero, padding, is_padded, pad_octets, set_flag,
}
use fhttp.Http2.Frame.Read.{Framer}
use fhttp.Http2.Frame.Parse.{
  priority_of, parse_frame, parse_priority_frame, five_octets, parse_data_frame, pad_size,
}
use fhttp.Http2.Frame.RoundTrip.{header_for, ReadsBack, framed-ReadsBack, valid_stream_id-bounds}

-- What `parsePriorityFrame` and `parseHeadersFrame` make of four written octets and a weight.
pub priority_of-bits :
    (d w : ℕ) (e : Bool)
    → d < 2 ^ 31
    → priority_of (if e then d + 2 ^ 31 else d) w
      ≡ record { stream_dep = d; exclusive = e; weight = w }
priority_of-bits d w true h = grind arith
priority_of-bits d w false h = grind arith

pub ==-false : (a : ℕ) → a ≢ 0 → (a == 0) ≡ false
==-false a h = ground arith

parse_frame-priority :
    (s : ℕ) (p : PriorityParam)
    → s ≢ 0
    → p.stream_dep < 2 ^ 31
    → parse_frame (header_for 2 0 s (priority_octets p)) (priority_octets p)
      ≡ ok (priority_frame (header_for 2 0 s (priority_octets p)) p)
unfolding parse_frame parse_priority_frame five_octets priority_octets
parse_frame-priority s p h0 hp =
    let fits : (if p.exclusive then p.stream_dep + 2 ^ 31 else p.stream_dep) < 2 ^ 32 =
      ground arith in
    simp (
      ==-false s h0,
      uint32-octets32 (if p.exclusive then p.stream_dep + 2 ^ 31 else p.stream_dep) fits,
      priority_of-bits p.stream_dep p.weight p.exclusive hp,
    )

pub take-padding : (d pad : Bytes) → take (length (d ++ pad) - length pad) (d ++ pad) ≡ d
take-padding d pad =
    subst (λ n. take n (d ++ pad) ≡ d) (omega (arith, length-append d pad)) (take-append d pad)

pub enough : (d pad : Bytes) → ltb (length (d ++ pad)) (length pad) ≡ false
enough d pad = ground (arith, length-append d pad)

pad_size-octets :
    (h : FrameHeader) (pad : Option Bytes) (rest : Bytes)
    → has h.flags flag_padded ≡ is_padded pad
    → length (padding pad) ≤ 255
    → pad_size h (pad_octets pad ++ rest) ≡ ok (rest, length (padding pad))
unfolding pad_size pad_octets padding is_padded read_byte
pad_size-octets h none rest e hp = rw e
pad_size-octets h (some pad) rest e hp =
    let small : length pad < 256 = omega arith in rw e (ap (λ n. ok (rest, n)) (mod-eq_of_lt small))

has_padded :
    (es padded : Bool)
    → has (set_flag padded flag_padded (set_flag es flag_end_stream 0)) flag_padded ≡ padded
unfolding has
has_padded true true = refl
has_padded true false = refl
has_padded false true = refl
has_padded false false = refl

parse_data_frame-octets :
    (d : Bytes) (pad : Option Bytes) (h : FrameHeader)
    → has h.flags flag_padded ≡ is_padded pad
    → h.stream_id ≢ 0
    → length (padding pad) ≤ 255
    → parse_data_frame h (pad_octets pad ++ (d ++ padding pad)) ≡ ok (data_frame h d)
unfolding parse_data_frame
parse_data_frame-octets d pad h e h0 hp = simp (
  ==-false h.stream_id h0,
  pad_size-octets h pad (d ++ padding pad) e hp,
  enough d (padding pad),
  take-padding d (padding pad),
)

length-padded :
    (d : Bytes) (pad : Option Bytes)
    → length (pad_octets pad ++ (d ++ padding pad)) ≤ length d + 1 + length (padding pad)
unfolding pad_octets padding
length-padded d none = ground (arith, length-append d [])
length-padded d (some pad) = ground (arith, length-append d pad)

abbrev pub data_payload : Bytes → Option Bytes → Bytes
data_payload d pad = pad_octets pad ++ (d ++ padding pad)

abbrev pub data_flags : Bool → Option Bytes → ℕ
data_flags es pad = set_flag (is_padded pad) flag_padded (set_flag es flag_end_stream 0)

flags_small : (es padded : Bool) → set_flag padded flag_padded (set_flag es flag_end_stream 0) < 256
flags_small true true = omega arith
flags_small true false = omega arith
flags_small false true = omega arith
flags_small false false = omega arith

-- The octets of a DATA frame, with a pad of at most 255 zero octets or none, are read as a DATA
-- frame of just the data.
pub write_data_padded-ReadsBack :
    (fr : Framer) (rest : Bytes) (s : ℕ) (es : Bool) (d : Bytes) (pad : Option Bytes)
    → s < 2 ^ 32
    → valid_stream_id s ≡ true
    → length (padding pad) ≤ 255
    → all_zero (padding pad) ≡ true
    → length d + 256 < 2 ^ 24
    → length d + 256 ≤ fr.max_read_size
    → ReadsBack fr rest
        (write_data_padded s es d pad)
        (data_frame (header_for 0 (data_flags es pad) s (data_payload d pad)) d)
unfolding write_data_padded parse_frame
write_data_padded-ReadsBack fr rest s es d pad hs v hp hz hn hm =
    let b = valid_stream_id-bounds s hs v in
    rw (v, le→ltb 255 (length (padding pad)) hp, hz)
      (framed-ReadsBack fr rest 0 (data_flags es pad) s (data_payload d pad) _
        (omega (arith, length-padded d pad)) (omega (arith, length-padded d pad)) (omega arith)
        (flags_small es (is_padded pad)) b.1
        (parse_data_frame-octets d pad _ (has_padded es (is_padded pad)) b.0 hp))

-- The octets of a PRIORITY frame are read as that PRIORITY frame.
pub write_priority-ReadsBack :
    (fr : Framer) (rest : Bytes) (s : ℕ) (p : PriorityParam)
    → s < 2 ^ 32
    → valid_stream_id s ≡ true
    → p.stream_dep < 2 ^ 31
    → 5 ≤ fr.max_read_size
    → ReadsBack fr rest
        (write_priority s p)
        (priority_frame (header_for 2 0 s (priority_octets p)) p)
unfolding write_priority priority_octets valid_stream_id_or_zero
write_priority-ReadsBack fr rest s p hs v hp hm =
    let b = valid_stream_id-bounds s hs v in
    let dep : (p.stream_dep / 2 ^ 31 % 2 == 0) ≡ true = ground arith in
    simp (v, dep)
      (framed-ReadsBack fr rest 2 0 s (priority_octets p) _ (omega arith) hm (omega arith)
        (omega arith) b.1 (parse_frame-priority s p b.0 hp))
