-- ===== src/Hpack/Huffman/Fronts.antt =====
-- The first bits of the input of `huffmanDecode`, as an octet and as those of a code.
use native.Mathlib.Nat.{mod-eq_of_lt, div-lt_iff_lt-mul}
use fhttp.Base.{
  ℕ, ◌-◌, ◌*◌, ◌/◌, ◌%◌, ◌^◌, ◌≤◌, ◌<◌, ◌≡◌, sym, ap, ◌∙◌, List, ◌++◌, append_assoc, length, take,
  drop, take-append, drop-append, arith,
}
use fhttp.Base.Mask.{pow_pos}
use fhttp.Hpack.Huffman.Bits.{bits, length-bits, bits_split, bits_equal}
use fhttp.Hpack.Huffman.Written.{pow_split}

cut_equal :
    (n u v : ℕ) (xs ys : List ℕ)
    → bits n u ++ xs ≡ bits n v ++ ys
    → (bits n u ≡ bits n v) × (xs ≡ ys)
cut_equal n u v xs ys e =
    let same : length (bits n v) ≡ length (bits n u) = length-bits n v ∙ sym (length-bits n u) in
    (
      sym (take-append (bits n u) xs)
          ∙ ap (take (length (bits n u))) e
          ∙ ap (λ k. take k (bits n v ++ ys)) (sym same)
          ∙ take-append (bits n v) ys,
      sym (drop-append (bits n u) xs)
          ∙ ap (drop (length (bits n u))) e
          ∙ ap (λ k. drop k (bits n v ++ ys)) (sym same)
          ∙ drop-append (bits n v) ys,
    )

-- An octet that begins with the `l` bits of `c`.
pub octet_front :
    (i l c : ℕ) (xs ys : List ℕ)
    → i < 256
    → l ≤ 8
    → bits 8 i ++ xs ≡ bits l c ++ ys
    → i / 2 ^ (8 - l) ≡ c % 2 ^ l
octet_front i l c xs ys hi hl e =
    let split : bits l (i / 2 ^ (8 - l)) ++ (bits (8 - l) i ++ xs) ≡ bits l c ++ ys =
      sym (append_assoc (bits l (i / 2 ^ (8 - l))) (bits (8 - l) i) xs)
      ∙ ap (λ t. t ++ xs) (sym (bits_split l (8 - l) 8 i (omega arith)))
      ∙ e in
    let whole : 2 ^ 8 ≡ 2 ^ l * 2 ^ (8 - l) = pow_split l (8 - l) 8 (omega arith) in
    let small : i / 2 ^ (8 - l) < 2 ^ l =
      (div-lt_iff_lt-mul {x = i} {y = 2 ^ l} (pow_pos (8 - l))).1 (omega (arith, whole)) in
    sym (mod-eq_of_lt small) ∙ bits_equal l (i / 2 ^ (8 - l)) c (cut_equal l _ c _ ys split).0

-- The octet at the front of a long code.
pub octet_inside :
    (i l c : ℕ) (xs ys : List ℕ)
    → i < 256
    → 8 < l
    → bits 8 i ++ xs ≡ bits l c ++ ys
    → (i ≡ c / 2 ^ (l - 8) % 256) × (xs ≡ bits (l - 8) c ++ ys)
octet_inside i l c xs ys hi hl e =
    let split : bits 8 i ++ xs ≡ bits 8 (c / 2 ^ (l - 8)) ++ (bits (l - 8) c ++ ys) =
      e
      ∙ ap (λ t. t ++ ys) (bits_split 8 (l - 8) l c (omega arith))
      ∙ append_assoc (bits 8 (c / 2 ^ (l - 8))) (bits (l - 8) c) ys in
    let (same, rest) = cut_equal 8 i (c / 2 ^ (l - 8)) xs _ split in
    (omega (arith, bits_equal 8 i (c / 2 ^ (l - 8)) same), rest)

-- What is left of the input when `l` bits of a code are taken from the bit buffer.
pub rest_bits :
    (n l cur c : ℕ) (xs ys : List ℕ)
    → l ≤ n
    → bits n cur ++ xs ≡ bits l c ++ ys
    → bits (n - l) cur ++ xs ≡ ys
rest_bits n l cur c xs ys h e =
    (cut_equal l (cur / 2 ^ (n - l)) c (bits (n - l) cur ++ xs) ys (
      sym (append_assoc (bits l (cur / 2 ^ (n - l))) (bits (n - l) cur) xs)
      ∙ ap (λ t. t ++ xs) (sym (bits_split l (n - l) n cur (omega arith)))
      ∙ e)).1
