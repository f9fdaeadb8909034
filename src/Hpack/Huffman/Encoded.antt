-- ===== src/Hpack/Huffman/Encoded.antt =====
-- The bits that `AppendHuffmanString` writes: the codes, and at most seven ones.
use fhttp.Base.{
  ℕ, zero, suc, ◌-◌, ◌*◌, ◌/◌, ◌%◌, ◌^◌, ◌<◌, ◌≡◌, inl, inr, refl, sym, ap, subst, ◌∙◌, true, false,
  List, [], ◌∷◌, ◌++◌, append_assoc, append-nil, Bytes, ltb, ◌==◌, if◌then◌else◌, arith,
}
use fhttp.Base.Mask.{pow_pos}
use fhttp.Hpack.Huffman.{
  or_last, append_code_loop, append_byte_to_huffman_code, append_huffman_loop,
  append_huffman_string, code_of, code_len_of,
}
use fhttp.Hpack.Huffman.Spelled.{octet-IsCode, code_len-positive}
use fhttp.Hpack.Huffman.Bits.{bits, bits_of}
use fhttp.Hpack.Huffman.Octets.{AreOctets}
use fhttp.Hpack.Huffman.Written.{Written, filled, loop-Written}

unfoldable pub code_bits : Bytes → List ℕ
code_bits [] = []
code_bits (c ∷ s) = bits (code_len_of c) (code_of c) ++ code_bits s

abbrev pub ones : ℕ → List ℕ
ones p = bits p (2 ^ p - 1)

eos_bits : (r : ℕ) → r < 8 → 0x3fffffff / 2 ^ (30 - r) % 256 ≡ 2 ^ r - 1
eos_bits zero h = refl
eos_bits (suc zero) h = refl
eos_bits (suc (suc zero)) h = refl
eos_bits (suc (suc (suc zero))) h = refl
eos_bits (suc (suc (suc (suc zero)))) h = refl
eos_bits (suc (suc (suc (suc (suc zero))))) h = refl
eos_bits (suc (suc (suc (suc (suc (suc zero)))))) h = refl
eos_bits (suc (suc (suc (suc (suc (suc (suc zero))))))) h = refl
eos_bits (suc (suc (suc (suc (suc (suc (suc (suc r)))))))) h = absurd (omega arith)

-- The bits of the octets are `bs`, the codes of `s` and less than eight ones.
abbrev pub Padded : List ℕ → Bytes → Bytes → Type 0
Padded bs s dst = (p : ℕ) × (p < 8) × (bits_of dst ≡ bs ++ (code_bits s ++ ones p))

code-Written :
    (dst : Bytes) (r : ℕ) (bs : List ℕ) (c : ℕ)
    → c < 256
    → Written dst r bs
    → let q = append_byte_to_huffman_code (if r == 8 then dst ++ 0 ∷ [] else dst) r c in
      Written q.0 q.1 (bs ++ bits (code_len_of c) (code_of c))
unfolding append_byte_to_huffman_code bits
code-Written dst r bs c hc (inl (full, w)) =
    let v = octet-IsCode c hc in
    subst
      (λ k.
        let q =
          append_code_loop 5 (if k == 8 then dst ++ 0 ∷ [] else dst) k (code_of c)
            (code_len_of c) in
        Written q.0 q.1 (bs ++ bits (code_len_of c) (code_of c)))
      (sym full)
      (subst
        (λ l.
          let q = append_code_loop 5 (dst ++ 0 ∷ []) 8 (code_of c) (code_len_of c) in
          Written q.0 q.1 (l ++ bits (code_len_of c) (code_of c)))
        (sym w)
        (loop-Written 5 dst 0 8 (code_of c) (code_len_of c) (omega arith) (omega arith)
          (code_len-positive c v) (omega (arith, v.len_le)) (inl refl)))
code-Written dst r bs c hc (inr (pos, lt, o)) =
    let v = octet-IsCode c hc in
    let some_free : (r == 8) ≡ false = ground (arith, lt) in
    rw (some_free, o.octets)
      (subst
        (λ l.
          let q = append_code_loop 5 (o.xs ++ o.h * 2 ^ r ∷ []) r (code_of c) (code_len_of c) in
          Written q.0 q.1 l)
        (sym (
          ap (λ l. l ++ bits (code_len_of c) (code_of c)) o.written
          ∙ append_assoc (bits_of o.xs) (bits (8 - r) o.h) (bits (code_len_of c) (code_of c))))
        (loop-Written 5 o.xs o.h r (code_of c) (code_len_of c) pos (omega arith)
          (code_len-positive c v) (omega (arith, v.len_le)) (inr v.code_lt)))

string-Padded :
    (s dst : Bytes) (r : ℕ) (bs : List ℕ)
    → AreOctets s
    → Written dst r bs
    → Padded bs s (append_huffman_loop dst r s)
unfolding append_huffman_loop code_bits bits
string-Padded [] dst r bs a (inl (full, w)) =
    let whole : ltb r 8 ≡ false = ground (arith, full) in
    (0, omega arith, rw whole (sym w ∙ sym (append-nil bs)))
string-Padded [] dst r bs a (inr (pos, lt, o)) =
    let free : ltb r 8 ≡ true = ground (arith, lt) in
    let t_lt : 2 ^ r - 1 < 2 ^ r = omega (arith, pow_pos r) in
    (
      r,
      lt,
      rw (free, eos_bits r lt)
          (ap (λ d. bits_of (or_last d (2 ^ r - 1))) o.octets
            ∙ filled o.xs o.h r (2 ^ r - 1) (omega arith) t_lt
            ∙ sym (append_assoc (bits_of o.xs) (bits (8 - r) o.h) (ones r))
            ∙ ap (λ l. l ++ ones r) (sym o.written)),
    )
string-Padded (c ∷ s) dst r bs a w =
    let q = append_byte_to_huffman_code (if r == 8 then dst ++ 0 ∷ [] else dst) r c in
    let (p, lt, e) =
      string-Padded s q.0 q.1 (bs ++ bits (code_len_of c) (code_of c)) a.1
        (code-Written dst r bs c a.0 w) in
    (
      p,
      lt,
      e
          ∙ append_assoc bs (bits (code_len_of c) (code_of c)) (code_bits s ++ ones p)
          ∙ ap (λ l. bs ++ l)
              (sym (append_assoc (bits (code_len_of c) (code_of c)) (code_bits s) (ones p))),
    )

-- `AppendHuffmanString` writes the codes one behind the other and fills the last octet with ones.
pub append_huffman_string-Padded :
    (s : Bytes) → AreOctets s → Padded [] s (append_huffman_string [] s)
unfolding append_huffman_string bits_of
append_huffman_string-Padded s a = string-Padded s [] 8 [] a (inl (refl, refl))
