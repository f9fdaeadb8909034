-- ===== src/Hpack/Huffman/RoundTrip.antt =====
-- `huffmanDecode` reads back what `AppendHuffmanString` wrote.
use Prim.Native.Nat.{bit_and}
use native.Mathlib.Nat.{mod-eq_of_lt, mul-div_left}
use fhttp.Base.{
  ℕ, zero, suc, ◌+◌, ◌-◌, ◌*◌, ◌/◌, ◌%◌, ◌^◌, ◌≤◌, ◌<◌, ◌≡◌, inl, inr, refl, sym, ap, ap₂, ◌∙◌,
  Bool, true, false, not, [], ◌∷◌, ◌++◌, append_assoc, append-nil, Bytes, length, length-append,
  ltb, ◌==◌, Bool-cases, arith,
}
use fhttp.Base.Word.{add64}
use fhttp.Base.Mask.{pow_pos, bit_and_mask}
use fhttp.Hpack.Errors.{Result, ok, ◌>>=◌}
use fhttp.Hpack.Huffman.{
  Decoding, code_of, code_len_of, take_rest, take_rests, check_padding, huffman_decode,
  append_huffman_string, sum_code_len, huffman_encode_length,
}
use fhttp.Hpack.Huffman.Tree.{Node, missing, leaf, internal, child, root_huffman_node}
use fhttp.Hpack.Huffman.Bits.{
  bits, bits_of, length-bits, length-bits_of, bits_split, bits-mod, bits_equal,
}
use fhttp.Hpack.Huffman.Spelled.{spells_here, octet-IsCode, waits, padding_waits}
use fhttp.Hpack.Huffman.Octets.{AreOctets, append_huffman_string-AreOctets}
use fhttp.Hpack.Huffman.Encoded.{code_bits, ones, append_huffman_string-Padded}
use fhttp.Hpack.Huffman.Fronts.{octet_front}
use fhttp.Hpack.Huffman.Decoded.{
  AtEnd, Inside, Good, symbol_written, between, written-Good, feed-Good,
}

shifted_rest : (n x : ℕ) → n < 8 → x * 2 ^ (8 - n) % 256 ≡ x % 2 ^ n * 2 ^ (8 - n)
shifted_rest zero x h = omega arith
shifted_rest (suc zero) x h = omega arith
shifted_rest (suc (suc zero)) x h = omega arith
shifted_rest (suc (suc (suc zero))) x h = omega arith
shifted_rest (suc (suc (suc (suc zero)))) x h = omega arith
shifted_rest (suc (suc (suc (suc (suc zero))))) x h = omega arith
shifted_rest (suc (suc (suc (suc (suc (suc zero)))))) x h = omega arith
shifted_rest (suc (suc (suc (suc (suc (suc (suc zero))))))) x h = omega arith
shifted_rest (suc (suc (suc (suc (suc (suc (suc (suc n)))))))) x h = absurd (omega arith)

-- The bits that are left, at the front of an octet.
rest_octet :
    (n cur : ℕ) → n < 8 → let i = cur * 2 ^ (8 - n) % 256 in bits 8 i ≡ bits n cur ++ bits (8 - n) i
rest_octet n cur h =
    let i = cur * 2 ^ (8 - n) % 256 in
    bits_split n (8 - n) 8 i (omega arith)
    ∙ ap (λ t. bits n t ++ bits (8 - n) i)
        (ap (λ t. t / 2 ^ (8 - n)) (shifted_rest n cur h)
          ∙ mul-div_left (cur % 2 ^ n) (pow_pos (8 - n)))
    ∙ ap (λ t. t ++ bits (8 - n) i) (bits-mod n n cur (omega arith))

ones_small : (p : ℕ) → 2 ^ p - 1 < 2 ^ p
ones_small p = omega (arith, pow_pos p)

module _ (target : Bytes) (p : ℕ) (p_lt : p < 8) where
  rests_step :
      (rounds : ℕ) (d e : Decoding) (more : Bool)
      → ltb 0 d.cbits ≡ true
      → take_rest 0 (child d.node (d.cur * 2 ^ (8 - d.cbits) % 256)) d ≡ ok (more, e)
      → take_rests (suc rounds) 0 d ≡ elim more [ true ↦ take_rests rounds 0 e | false ↦ ok e ]
  unfolding take_rests
  rests_step rounds d e more some_left taken =
      ap
        (λ b. elim b [
          | true ↦ take_rest 0 (child d.node (d.cur * 2 ^ (8 - d.cbits) % 256)) d >>= λ r.
              elim r.0 [ true ↦ take_rests rounds 0 r.1 | false ↦ ok r.1 ]
          | false ↦ ok d
        ])
        some_left
      ∙ ap
          (λ (x : Result (Bool × Decoding)).
            x >>= λ r. elim r.0 [ true ↦ take_rests rounds 0 r.1 | false ↦ ok r.1 ])
          taken

  rests_stop : (rounds : ℕ) (d : Decoding) → ltb 0 d.cbits ≡ false → take_rests rounds 0 d ≡ ok d
  unfolding take_rests
  rests_stop zero d none_left = refl
  rests_stop (suc rounds) d none_left =
      ap
        (λ b. elim b [
          | true ↦ take_rest 0 (child d.node (d.cur * 2 ^ (8 - d.cbits) % 256)) d >>= λ r.
              elim r.0 [ true ↦ take_rests rounds 0 r.1 | false ↦ ok r.1 ]
          | false ↦ ok d
        ])
        none_left

  end_width : (d : Decoding) → AtEnd target p p_lt d [] → d.cbits ≡ p
  end_width d (_, _, _, e) = omega (
    arith,
    ap length e,
    length-append (bits d.cbits d.cur) [],
    length-bits d.cbits d.cur,
    length-bits p (2 ^ p - 1),
  )

  end_ones : (d : Decoding) → AtEnd target p p_lt d [] → d.cur % 2 ^ p ≡ 2 ^ p - 1
  end_ones d g =
      bits_equal p d.cur (2 ^ p - 1)
        (ap (λ k. bits k d.cur) (sym (end_width d g)) ∙ sym (append-nil (bits d.cbits d.cur)) ∙ g.3)
      ∙ mod-eq_of_lt (ones_small p)

  padding_checked : (d : Decoding) → AtEnd target p p_lt d [] → check_padding d ≡ ok target
  unfolding check_padding
  padding_checked d g =
      let width = end_width d g in
      let few : ltb 7 d.sbits ≡ false = ground (arith, g.2, width, p_lt) in
      let mask : bit_and d.cur (2 ^ d.cbits - 1) ≡ 2 ^ d.cbits - 1 =
        bit_and_mask d.cbits d.cur
        ∙ ap (λ k. d.cur % 2 ^ k) width
        ∙ end_ones d g
        ∙ ap (λ k. 2 ^ k - 1) (sym width) in
      let same : not (bit_and d.cur (2 ^ d.cbits - 1) == 2 ^ d.cbits - 1) ≡ false =
        ground (arith, mask) in
      rw (few, same) (ap ok g.1)

  take_waits : (n : Node) (d : Decoding) → waits n d.cbits ≡ true → take_rest 0 n d ≡ ok (false, d)
  unfolding take_rest waits
  take_waits missing d e = cc
  take_waits (leaf l s) d e = rw e refl
  take_waits (internal cs) d e = refl

  -- The padding stays in the bit buffer.
  end_stops : (rounds : ℕ) (d : Decoding) → AtEnd target p p_lt d [] → take_rests rounds 0 d ≡ ok d
  unfolding take_rests
  end_stops zero d g = refl
  end_stops (suc rounds) d g = elim (Bool-cases (ltb 0 d.cbits)) [
    | inl some_left ↦
        let width = end_width d g in
        let place : d.cur * 2 ^ (8 - d.cbits) % 256 ≡ (2 ^ p - 1) * 2 ^ (8 - p) =
          ap (λ k. d.cur * 2 ^ (8 - k) % 256) width
          ∙ shifted_rest p d.cur p_lt
          ∙ ap (λ t. t * 2 ^ (8 - p)) (end_ones d g) in
        let waiting : waits (child d.node (d.cur * 2 ^ (8 - d.cbits) % 256)) d.cbits ≡ true =
          ap₂ (λ n i. waits (child n i) d.cbits) g.0 place
          ∙ ap (waits (child root_huffman_node ((2 ^ p - 1) * 2 ^ (8 - p)))) width
          ∙ padding_waits p (ground (arith, some_left, width)) p_lt in
        rests_step rounds d d false some_left (take_waits _ d waiting)
    | inr none_left ↦ rests_stop (suc rounds) d none_left
  ]

  take_symbol :
      (d : Decoding) (l s : ℕ)
      → l ≤ d.cbits
      → take_rest 0 (leaf l s) d ≡ ok (true, symbol_written target p p_lt d l s)
  unfolding take_rest
  take_symbol d l s h = let enough : ltb d.cbits l ≡ false = ground (arith, h) in rw enough refl

  short_code : (d : Decoding) (w : Inside target p p_lt d []) → w.l ≤ d.cbits
  short_code d w = omega (
    arith,
    ap length w.ahead,
    length-append (bits d.cbits d.cur) [],
    length-bits d.cbits d.cur,
    length-append (bits w.l (code_of w.s)) (code_bits w.rest ++ ones p),
    length-bits w.l (code_of w.s),
  )

  leaf_there :
      (d : Decoding) (w : Inside target p p_lt d [])
      → d.cbits < 8
      → (0 < w.l) × (child d.node (d.cur * 2 ^ (8 - d.cbits) % 256) ≡ leaf w.l w.s)
  leaf_there d w h =
      let i = d.cur * 2 ^ (8 - d.cbits) % 256 in
      let short = short_code d w in
      let front : bits 8 i ++ []
          ≡ bits w.l (code_of w.s) ++ ((code_bits w.rest ++ ones p) ++ bits (8 - d.cbits) i) =
        append-nil (bits 8 i)
        ∙ rest_octet d.cbits d.cur h
        ∙ ap (λ t. t ++ bits (8 - d.cbits) i) (sym (append-nil (bits d.cbits d.cur)) ∙ w.ahead)
        ∙ append_assoc (bits w.l (code_of w.s)) (code_bits w.rest ++ ones p)
            (bits (8 - d.cbits) i) in
      spells_here w.k d.node (code_of w.s) w.l w.s w.spelled i (omega (arith, short))
        (octet_front i w.l (code_of w.s) [] _ (omega arith) (omega (arith, short)) front)

  rests-Good :
      (rounds : ℕ) (d : Decoding)
      → d.cbits < 8
      → d.cbits ≤ rounds
      → Good target p p_lt d []
      → (e : Decoding) × (take_rests rounds 0 d ≡ ok e) × AtEnd target p p_lt e []
  rests-Good rounds d few h (inl g) = (d, end_stops rounds d g, g)
  rests-Good zero d few h (inr w) = absurd (omega (arith, (leaf_there d w few).0, short_code d w))
  rests-Good (suc rounds) d few h (inr w) =
      let short = short_code d w in
      let (pos, there) = leaf_there d w few in
      let e : Decoding = symbol_written target p p_lt d w.l w.s in
      let (e', run, g) =
        rests-Good rounds e (omega (arith, few)) (omega (arith, pos, h, short))
          (written-Good target p p_lt d [] w short) in
      (
        e',
        rests_step rounds d e true (ground (arith, pos, short))
              (ap (λ n. take_rest 0 n d) there ∙ take_symbol d w.l w.s short)
            ∙ run,
        g,
      )

abbrev first_decoding : Decoding
first_decoding = record { node = root_huffman_node; cur = 0; cbits = 0; sbits = 0; buf = [] }

-- `huffmanDecode` reads back each string of octets that `AppendHuffmanString` wrote.
pub huffman_decode-append_huffman_string :
    (s : Bytes) → AreOctets s → huffman_decode 0 (append_huffman_string [] s) ≡ ok s
unfolding huffman_decode bits
huffman_decode-append_huffman_string s a =
    let (p, p_lt, e) = append_huffman_string-Padded s a in
    let (d, fed, few, g) =
      feed-Good s p p_lt (append_huffman_string [] s) first_decoding
        (append_huffman_string-AreOctets s) (omega arith)
        (between s p p_lt first_decoding (bits_of (append_huffman_string [] s)) s refl refl a refl
          e) in
    let (d', run, end) = rests-Good s p p_lt 8 d few (omega (arith, few)) g in
    rw (fed, run) (padding_checked s p p_lt d' end)

code_bits_few : (s : Bytes) → AreOctets s → length (code_bits s) ≤ 30 * length s
unfolding code_bits
code_bits_few [] a = omega arith
code_bits_few (c ∷ s) a = omega (
  arith,
  length-append (bits (code_len_of c) (code_of c)) (code_bits s),
  length-bits (code_len_of c) (code_of c),
  (octet-IsCode c a.0).len_le,
  code_bits_few s a.1,
)

sum_code_len-code_bits :
    (s : Bytes) (n : ℕ)
    → AreOctets s
    → n + 30 * length s < 2 ^ 64
    → sum_code_len n s ≡ n + length (code_bits s)
unfolding sum_code_len code_bits
sum_code_len-code_bits [] n a h = omega arith
sum_code_len-code_bits (c ∷ s) n a h =
    let few = (octet-IsCode c a.0).len_le in
    let exact : add64 n (code_len_of c) ≡ n + code_len_of c = omega (arith, few) in
    ap (λ k. sum_code_len k s) exact
    ∙ sum_code_len-code_bits s (n + code_len_of c) a.1 (omega (arith, few))
    ∙ omega (
      arith,
      length-append (bits (code_len_of c) (code_of c)) (code_bits s),
      length-bits (code_len_of c) (code_of c),
    )

-- `HuffmanEncodeLength` is the length of what `AppendHuffmanString` writes.
pub length-append_huffman_string :
    (s : Bytes)
    → AreOctets s
    → length s < 2 ^ 58
    → length (append_huffman_string [] s) ≡ huffman_encode_length s
unfolding huffman_encode_length
length-append_huffman_string s a h =
    let (p, p_lt, e) = append_huffman_string-Padded s a in
    omega (
      arith,
      ap length e,
      length-bits_of (append_huffman_string [] s),
      length-append (code_bits s) (ones p),
      length-bits p (2 ^ p - 1),
      sum_code_len-code_bits s 0 a (omega arith),
      code_bits_few s a,
    )
