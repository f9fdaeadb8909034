-- ===== src/Hpack/Huffman.antt =====
-- The Huffman coding of strings: http2/hpack/huffman.go.
pub mod Codes
pub mod Tree
pub mod Append
pub mod Bits
pub mod Spelled
pub mod Octets
pub mod Written
pub mod Encoded
pub mod Fronts
pub mod Decoded
pub mod RoundTrip
mod Tests
use Prim.Native.Nat.{bit_and, bit_or}
use fhttp.Base.{
  ℕ, zero, suc, ◌+◌, ◌-◌, ◌*◌, ◌/◌, ◌%◌, ◌^◌, Bool, true, false, not, ◌&&◌, ◌||◌, List, [], ◌∷◌,
  ◌++◌, Bytes, length, get_or, ltb, leb, ◌==◌, if◌then◌else◌,
}
use fhttp.Base.Word.{u32, u64, add64}
use fhttp.Hpack.Errors.{Result, ok, err, panic, ◌>>=◌, string_length, invalid_huffman}
use fhttp.Hpack.Huffman.Codes.{huffman_codes, huffman_code_len}
use fhttp.Hpack.Huffman.Tree.{Node, missing, leaf, internal, child, root_huffman_node}

abbrev pub code_of : ℕ → ℕ
code_of c = get_or huffman_codes c 0

abbrev pub code_len_of : ℕ → ℕ
code_len_of c = get_or huffman_code_len c 0

-- `dst[len(dst)-1] |= t`; an octet has always been appended before.
unfoldable pub or_last : Bytes → ℕ → Bytes
or_last [] t = []
or_last (b ∷ []) t = bit_or b t ∷ []
or_last (b ∷ c ∷ bs) t = b ∷ or_last (c ∷ bs) t

-- The loop of `appendByteToHuffmanCode`. The first round writes at least one of at most 30 bits and
-- each later round 8, so five rounds are enough.
unfoldable pub append_code_loop : ℕ → Bytes → ℕ → ℕ → ℕ → Bytes × ℕ
append_code_loop zero dst rembits code nbits = (dst, rembits)
append_code_loop (suc rounds) dst rembits code nbits =
    let written = or_last dst (code / 2 ^ (nbits - rembits) % 256) in
    let more = append_code_loop rounds (written ++ 0 ∷ []) 8 code (nbits - rembits) in
    if ltb nbits rembits
    then (or_last dst (code * 2 ^ (rembits - nbits) % u32 % 256), rembits - nbits)
    else if nbits - rembits == 0
    then (written, 8)
    else more

unfoldable pub append_byte_to_huffman_code : Bytes → ℕ → ℕ → Bytes × ℕ
append_byte_to_huffman_code dst rembits c =
    append_code_loop 5 dst rembits (code_of c) (code_len_of c)

-- The loop of `AppendHuffmanString` and the padding with the first bits of EOS.
unfoldable pub append_huffman_loop : Bytes → ℕ → Bytes → Bytes
append_huffman_loop dst rembits [] =
    if ltb rembits 8 then or_last dst (0x3fffffff / 2 ^ (30 - rembits) % 256) else dst
append_huffman_loop dst rembits (c ∷ s) =
    let (dst', rembits') =
      append_byte_to_huffman_code (if rembits == 8 then dst ++ 0 ∷ [] else dst) rembits c in
    append_huffman_loop dst' rembits' s

unfoldable pub append_huffman_string : Bytes → Bytes → Bytes
append_huffman_string dst s = append_huffman_loop dst 8 s

unfoldable pub sum_code_len : ℕ → Bytes → ℕ
sum_code_len n [] = n
sum_code_len n (c ∷ s) = sum_code_len (add64 n (code_len_of c)) s

unfoldable pub huffman_encode_length : Bytes → ℕ
huffman_encode_length s = add64 (sum_code_len 0 s) 7 / 8

-- The variables of `huffmanDecode`: the node, the bit buffer, the numbers of its valid bits and of
-- the bits of the symbol being decoded, and what was written.
pub record Decoding : Type 0 where
  pub node : Node
  pub cur : ℕ
  pub cbits : ℕ
  pub sbits : ℕ
  pub buf : Bytes

write_symbol : ℕ → ℕ → ℕ → Decoding → Result Decoding
write_symbol max_len code_len sym d =
    if not (max_len == 0) && length d.buf == max_len
    then err string_length
    else ok (record d {
      node = root_huffman_node;
      cbits = d.cbits - code_len;
      sbits = d.cbits - code_len;
      buf = d.buf ++ sym ∷ [];
    })

-- One round of `for cbits >= 8`, on `n.children[idx]`.
unfoldable pub take_octet : ℕ → Node → Decoding → Result Decoding
unfolding write_symbol
take_octet max_len missing d = err invalid_huffman
take_octet max_len (internal cs) d = ok (record d { node = internal cs; cbits = d.cbits - 8 })
take_octet max_len (leaf code_len sym) d = write_symbol max_len code_len sym d

-- At most 15 bits are valid and each round takes one at least, so 16 rounds are enough.
unfoldable pub take_octets : ℕ → ℕ → Decoding → Result Decoding
take_octets zero max_len d = ok d
take_octets (suc rounds) max_len d = elim (leb 8 d.cbits) [
  | true ↦ take_octet max_len (child d.node (d.cur / 2 ^ (d.cbits - 8) % 256)) d >>= λ e.
      take_octets rounds max_len e
  | false ↦ ok d
]

unfoldable pub feed : ℕ → Decoding → Bytes → Result Decoding
feed max_len d [] = ok d
feed max_len d (b ∷ v) =
    take_octets 16 max_len (record d {
      cur = bit_or (d.cur * 256 % u64) b;
      cbits = (d.cbits + 8) % 256;
      sbits = (d.sbits + 8) % 256;
    })
    >>= λ e. feed max_len e v

-- One round of `for cbits > 0`; the flag says that the loop goes on.
unfoldable pub take_rest : ℕ → Node → Decoding → Result (Bool × Decoding)
unfolding write_symbol
take_rest max_len missing d = err invalid_huffman
take_rest max_len (internal cs) d = ok (false, d)
take_rest max_len (leaf code_len sym) d =
    if ltb d.cbits code_len
    then ok (false, d)
    else (write_symbol max_len code_len sym d >>= λ e. ok (true, e))

unfoldable pub take_rests : ℕ → ℕ → Decoding → Result Decoding
take_rests zero max_len d = ok d
take_rests (suc rounds) max_len d = elim (ltb 0 d.cbits) [
  | true ↦ take_rest max_len (child d.node (d.cur * 2 ^ (8 - d.cbits) % 256)) d >>= λ r. elim r.0 [
    | true ↦ take_rests rounds max_len r.1
    | false ↦ ok r.1
  ]
  | false ↦ ok d
]

unfoldable pub check_padding : Decoding → Result Bytes
check_padding d =
    let mask = 2 ^ d.cbits - 1 in
    if ltb 7 d.sbits
    then err invalid_huffman
    else if not (bit_and d.cur mask == mask)
    then err invalid_huffman
    else ok d.buf

-- `huffmanDecode` into an empty buffer. Below 8 valid bits the last loop makes 8 rounds at most.
unfoldable pub huffman_decode : ℕ → Bytes → Result Bytes
huffman_decode max_len v = do
  d ← feed max_len (record { node = root_huffman_node; cur = 0; cbits = 0; sbits = 0; buf = [] }) v
  e ← take_rests 8 max_len d
  check_padding e
