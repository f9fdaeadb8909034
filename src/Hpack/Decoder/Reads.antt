-- ===== src/Hpack/Decoder/Reads.antt =====
-- The decoder's readers on the octets that the encoder writes.
use Prim.Native.Nat.{bit_and}
use fhttp.Base.{
  ℕ, ◌+◌, ◌*◌, ◌^◌, ◌≤◌, ◌<◌, ◌≡◌, refl, sym, subst, true, false, not, [], ◌∷◌, ◌++◌, append_assoc,
  Bytes, length, length-append, take-append, drop-append, ltb, ◌==◌, arith, Bool-cases, inl, inr,
  le→ltb,
}
use fhttp.Base.Bits.{bit_and_128, bit_and_192, bit_and_224, bit_and_240}
use fhttp.Hpack.Errors.{ok}
use fhttp.Hpack.VarInt.{read_var_int}
use fhttp.Hpack.VarInt.Encoding.{first_octet, first_octet-lt, more_octets}
use fhttp.Hpack.VarInt.RoundTrip.{read_var_int-octets}
use fhttp.Hpack.Huffman.{huffman_encode_length, append_huffman_string}
use fhttp.Hpack.Huffman.Octets.{AreOctets}
use fhttp.Hpack.Huffman.RoundTrip.{
  huffman_decode-append_huffman_string, length-append_huffman_string,
}
use fhttp.Hpack.Encoder.Octets.{tagged, hpack_string}
use fhttp.Hpack.Decoder.{
  Decoder, read_string, string_body, dispatch, parse_field_indexed, parse_field_literal,
  parse_dynamic_table_size_update, indexed_true, indexed_false, indexed_never,
}

pub read_tagged :
    (tag high n i : ℕ) (rest : Bytes)
    → tag ≡ high * 2 ^ n
    → 1 ≤ n
    → n ≤ 8
    → tag + first_octet n i < 256
    → i < 2 ^ 63
    → read_var_int n (tagged tag n i ++ rest) ≡ ok (i, rest)
read_tagged tag high n i rest e h1 h8 hb hi =
    subst (λ t. read_var_int n ((t + first_octet n i) ∷ (more_octets n i ++ rest)) ≡ ok (i, rest))
      (sym e)
      (read_var_int-octets n high i rest h1 h8 (subst (λ t. t + first_octet n i < 256) e hb)
        (omega arith))

plain_body :
    (d : Decoder) (s rest : Bytes)
    → d.max_str_len ≡ 0
    → string_body d true false (length s) (s ++ rest) ≡ ok (s, rest)
unfolding string_body
plain_body d s rest h = rw (
  h,
  le→ltb (length (s ++ rest)) (length s) (omega (arith, length-append s rest)),
  take-append s rest,
  drop-append s rest,
)

huffman_body :
    (d : Decoder) (s rest : Bytes)
    → d.max_str_len ≡ 0
    → length s < 2 ^ 58
    → AreOctets s
    → string_body d true true (huffman_encode_length s) (append_huffman_string [] s ++ rest)
      ≡ ok (s, rest)
unfolding string_body
huffman_body d s rest h len a = rw (
  h,
  ← length-append_huffman_string s a len,
  le→ltb (length (append_huffman_string [] s ++ rest)) (length (append_huffman_string [] s))
      (omega (arith, length-append (append_huffman_string [] s) rest)),
  take-append (append_huffman_string [] s) rest,
  drop-append (append_huffman_string [] s) rest,
  huffman_decode-append_huffman_string s a,
)

-- The flag of a string literal.
flag_set : (n : ℕ) → not (bit_and (128 + first_octet 7 n) 128 == 0) ≡ true
flag_set n = ground (arith, bit_and_128 (128 + first_octet 7 n), first_octet-lt 7 n (omega arith))

flag_clear : (n : ℕ) → not (bit_and (0 + first_octet 7 n) 128 == 0) ≡ false
flag_clear n = ground (arith, bit_and_128 (0 + first_octet 7 n), first_octet-lt 7 n (omega arith))

-- With no limit on strings, `readString` reads back what `appendHpackString` wrote.
pub read_string-hpack_string :
    (d : Decoder) (s rest : Bytes)
    → d.max_str_len ≡ 0
    → length s < 2 ^ 58
    → AreOctets s
    → read_string d (hpack_string s ++ rest) true ≡ ok (s, rest)
unfolding read_string hpack_string
read_string-hpack_string d s rest h len a =
    elim (Bool-cases (ltb (huffman_encode_length s) (length s))) [
      | inl e ↦
          rw (e, flag_set (huffman_encode_length s))
            (let n = huffman_encode_length s in
              let body = append_huffman_string [] s in
              rw
                (
                  append_assoc (more_octets 7 n) body rest,
                  read_tagged 128 1 7 n (body ++ rest) refl (omega arith) (omega arith)
                      (omega (arith, first_octet-lt 7 n (omega arith))) (ground arith),
                )
                (huffman_body d s rest h len a))
      | inr e ↦
          rw (e, flag_clear (length s))
            (rw
              (
                append_assoc (more_octets 7 (length s)) s rest,
                read_tagged 0 0 7 (length s) (s ++ rest) refl (omega arith) (omega arith)
                    (omega (arith, first_octet-lt 7 (length s) (omega arith))) (omega arith),
              )
              (plain_body d s rest h))
    ]

module _ (d : Decoder) (i : ℕ) where
  pub dispatch_indexed : dispatch d (128 + first_octet 7 i) ≡ parse_field_indexed d
  unfolding dispatch
  dispatch_indexed =
      ground (arith, bit_and_128 (128 + first_octet 7 i), first_octet-lt 7 i (omega arith))

  pub dispatch_incremental :
      dispatch d (64 + first_octet 6 i) ≡ parse_field_literal d 6 indexed_true
  unfolding dispatch
  dispatch_incremental = ground (
    arith,
    bit_and_128 (64 + first_octet 6 i),
    bit_and_192 (64 + first_octet 6 i),
    first_octet-lt 6 i (omega arith),
  )

  pub dispatch_plain : dispatch d (0 + first_octet 4 i) ≡ parse_field_literal d 4 indexed_false
  unfolding dispatch
  dispatch_plain = ground (
    arith,
    bit_and_128 (0 + first_octet 4 i),
    bit_and_192 (0 + first_octet 4 i),
    bit_and_240 (0 + first_octet 4 i),
    first_octet-lt 4 i (omega arith),
  )

  pub dispatch_never : dispatch d (16 + first_octet 4 i) ≡ parse_field_literal d 4 indexed_never
  unfolding dispatch
  dispatch_never = ground (
    arith,
    bit_and_128 (16 + first_octet 4 i),
    bit_and_192 (16 + first_octet 4 i),
    bit_and_240 (16 + first_octet 4 i),
    first_octet-lt 4 i (omega arith),
  )

  pub dispatch_update : dispatch d (32 + first_octet 5 i) ≡ parse_dynamic_table_size_update d
  unfolding dispatch
  dispatch_update = ground (
    arith,
    bit_and_128 (32 + first_octet 5 i),
    bit_and_192 (32 + first_octet 5 i),
    bit_and_240 (32 + first_octet 5 i),
    bit_and_224 (32 + first_octet 5 i),
    first_octet-lt 5 i (omega arith),
  )
