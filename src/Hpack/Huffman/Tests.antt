-- ===== src/Hpack/Huffman/Tests.antt =====
-- Runs of the Huffman coder on the strings of RFC 7541, appendix C.4.
use fhttp.Base.{◌≡◌, refl, [], ◌∷◌, Bytes}
use fhttp.Hpack.Errors.{ok}
use fhttp.Hpack.StaticTable.{codes}
use fhttp.Hpack.Huffman.{
  append_huffman_string, append_huffman_loop, append_byte_to_huffman_code, append_code_loop,
  or_last, huffman_decode, feed, take_octets, take_octet, take_rests, take_rest, check_padding,
}
use fhttp.Hpack.Huffman.Codes.{huffman_codes, huffman_code_len}
use fhttp.Hpack.Huffman.Tree.{root_huffman_node, child}

abbrev coded : Bytes
coded = 0xf1 ∷ 0xe3 ∷ 0xc2 ∷ 0xe5 ∷ 0xf2 ∷ 0x3a ∷ 0x6b ∷ 0xa0 ∷ 0xab ∷ 0x90 ∷ 0xf4 ∷ 0xff ∷ []

encode_example : append_huffman_string [] (codes "www.example.com") ≡ coded
unfolding append_huffman_string append_huffman_loop append_byte_to_huffman_code append_code_loop
    or_last huffman_codes huffman_code_len
encode_example = refl

decode_example : huffman_decode 0 coded ≡ ok (codes "www.example.com")
unfolding huffman_decode feed take_octets take_octet take_rests take_rest check_padding
    root_huffman_node child
decode_example = refl
