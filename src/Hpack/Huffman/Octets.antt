-- ===== src/Hpack/Huffman/Octets.antt =====
-- `AppendHuffmanString` writes octets.
use fhttp.Base.{
  ℕ, zero, suc, ◌-◌, ◌*◌, ◌/◌, ◌%◌, ◌^◌, ◌<◌, inl, inr, [], ◌∷◌, ◌++◌, Bytes, All, All-append, ltb,
  ◌==◌, if◌then◌else◌, Bool-cases, arith,
}
use fhttp.Base.Word.{u32}
use fhttp.Base.Join.{bit_or-lt}
use fhttp.Hpack.Huffman.{
  or_last, append_code_loop, append_byte_to_huffman_code, append_huffman_loop,
  append_huffman_string, code_of, code_len_of,
}

abbrev pub AreOctets : Bytes → Type 0
AreOctets s = All (λ b. b < 256) s

or_last-AreOctets : (dst : Bytes) (t : ℕ) → AreOctets dst → t < 256 → AreOctets (or_last dst t)
unfolding or_last
or_last-AreOctets [] t a h = tt
or_last-AreOctets (b ∷ []) t a h = (bit_or-lt 8 b t a.0 h, tt)
or_last-AreOctets (b ∷ c ∷ bs) t a h = (a.0, or_last-AreOctets (c ∷ bs) t a.1 h)

concat-AreOctets : (dst : Bytes) → AreOctets dst → AreOctets (dst ++ 0 ∷ [])
concat-AreOctets dst a = All-append (λ b. b < 256) dst (0 ∷ []) a (omega arith, tt)

loop-AreOctets :
    (rounds : ℕ) (dst : Bytes) (r code n : ℕ)
    → AreOctets dst
    → AreOctets (append_code_loop rounds dst r code n).0
unfolding append_code_loop
loop-AreOctets zero dst r code n a = a
loop-AreOctets (suc rounds) dst r code n a =
    let right = or_last-AreOctets dst (code / 2 ^ (n - r) % 256) a (omega arith) in
    elim (Bool-cases (ltb n r)) [
      | inl short ↦
          rw short (or_last-AreOctets dst (code * 2 ^ (r - n) % u32 % 256) a (omega arith))
      | inr long ↦ elim (Bool-cases (n - r == 0)) [
        | inl last ↦ rw (long, last) right
        | inr more ↦
            rw (long, more)
              (loop-AreOctets rounds (or_last dst (code / 2 ^ (n - r) % 256) ++ 0 ∷ []) 8 code
                (n - r) (concat-AreOctets _ right))
      ]
    ]

string-AreOctets : (s dst : Bytes) (r : ℕ) → AreOctets dst → AreOctets (append_huffman_loop dst r s)
unfolding append_huffman_loop append_byte_to_huffman_code
string-AreOctets [] dst r a = elim (Bool-cases (ltb r 8)) [
  | inl free ↦ rw free (or_last-AreOctets dst (0x3fffffff / 2 ^ (30 - r) % 256) a (omega arith))
  | inr full ↦ rw full a
]
string-AreOctets (c ∷ s) dst r a =
    let q = append_byte_to_huffman_code (if r == 8 then dst ++ 0 ∷ [] else dst) r c in
    string-AreOctets s q.0 q.1 (elim (Bool-cases (r == 8)) [
      | inl full ↦
          rw full (
            loop-AreOctets 5 (dst ++ 0 ∷ []) r (code_of c) (code_len_of c) (concat-AreOctets dst a))
      | inr free ↦ rw free (loop-AreOctets 5 dst r (code_of c) (code_len_of c) a)
    ])

pub append_huffman_string-AreOctets : (s : Bytes) → AreOctets (append_huffman_string [] s)
unfolding append_huffman_string
append_huffman_string-AreOctets s = string-AreOctets s [] 8 tt
