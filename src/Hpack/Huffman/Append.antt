-- ===== src/Hpack/Huffman/Append.antt =====
-- `AppendHuffmanString` keeps the octets that it is given and writes behind them.
use fhttp.Base.{
  ℕ, zero, suc, ◌-◌, ◌*◌, ◌/◌, ◌%◌, ◌^◌, ◌≡◌, ◌≢◌, refl, ◌∙◌, ap, sym, [], ◌∷◌, ◌++◌, append_assoc,
  append-nil, Bytes, ltb, ◌==◌, if◌then◌else◌, arith, Bool-cases, inl, inr,
}
use fhttp.Base.Word.{u32}
use fhttp.Hpack.Huffman.{
  or_last, append_code_loop, append_byte_to_huffman_code, append_huffman_loop,
  append_huffman_string, code_of, code_len_of,
}

pub or_last-append :
    (dst xs : Bytes) (t : ℕ) → xs ≢ [] → or_last (dst ++ xs) t ≡ dst ++ or_last xs t
unfolding or_last
or_last-append dst [] t h = absurd (h refl)
or_last-append [] (b ∷ bs) t h = refl
or_last-append (x ∷ []) (b ∷ bs) t h = refl
or_last-append (x ∷ y ∷ dst) (b ∷ bs) t h = ap (◌∷◌ x) (or_last-append (y ∷ dst) (b ∷ bs) t h)

or_last-ne : (xs : Bytes) (t : ℕ) → xs ≢ [] → or_last xs t ≢ []
unfolding or_last
or_last-ne [] t h = absurd (h refl)
or_last-ne (b ∷ []) t h = λ e. cc
or_last-ne (b ∷ c ∷ bs) t h = λ e. cc

concat-ne : (xs : Bytes) (t : ℕ) → xs ++ t ∷ [] ≢ []
concat-ne [] t = λ e. cc
concat-ne (x ∷ xs) t = λ e. cc

-- A step that writes behind `dst`, on octets that are not empty.
record Keeps (dst xs : Bytes) (step : Bytes → Bytes × ℕ) : Type 0 where
  same : step (dst ++ xs) ≡ (dst ++ (step xs).0, (step xs).1)
  ne : (step xs).0 ≢ []

loop-Keeps :
    (rounds : ℕ) (dst xs : Bytes) (rembits code nbits : ℕ)
    → xs ≢ []
    → Keeps dst xs (λ ys. append_code_loop rounds ys rembits code nbits)
unfolding append_code_loop
loop-Keeps zero dst xs rembits code nbits h = record { same = refl; ne = h }
loop-Keeps (suc rounds) dst xs rembits code nbits h =
    let t = code / 2 ^ (nbits - rembits) % 256 in
    let u = code * 2 ^ (rembits - nbits) % u32 % 256 in
    let written = or_last xs t in
    let later =
      loop-Keeps rounds dst (written ++ 0 ∷ []) 8 code (nbits - rembits) (concat-ne written 0) in
    record {
      same =
          rw
            (
              or_last-append dst xs t h,
              or_last-append dst xs u h,
              append_assoc dst written (0 ∷ []),
              later.same,
            )
            (ground arith);
      ne = ground (arith, later.ne, or_last-ne xs t h, or_last-ne xs u h);
    }

-- The octets that a round of `AppendHuffmanString` works on.
abbrev opened : Bytes → ℕ → Bytes
opened xs rembits = if rembits == 8 then xs ++ 0 ∷ [] else xs

Ready : Bytes → ℕ → Type 0
Ready xs rembits = rembits ≢ 8 → xs ≢ []

opened-ne : (xs : Bytes) (rembits : ℕ) → Ready xs rembits → opened xs rembits ≢ []
unfolding Ready
opened-ne xs rembits h = elim (Bool-cases (rembits == 8)) [
  | inl e ↦ rw e (concat-ne xs 0)
  | inr e ↦ rw e (h (ground arith))
]

opened-append :
    (dst xs : Bytes) (rembits : ℕ) → opened (dst ++ xs) rembits ≡ dst ++ opened xs rembits
opened-append dst xs rembits = ground (arith, append_assoc dst xs (0 ∷ []))

loop-append :
    (s dst xs : Bytes) (rembits : ℕ)
    → Ready xs rembits
    → append_huffman_loop (dst ++ xs) rembits s ≡ dst ++ append_huffman_loop xs rembits s
unfolding append_huffman_loop append_byte_to_huffman_code
loop-append [] dst xs rembits h = elim (Bool-cases (ltb rembits 8)) [
  | inl e ↦ rw e (or_last-append dst xs _ (unfold Ready in h (ground arith)))
  | inr e ↦ rw e
]
loop-append (c ∷ s) dst xs rembits h =
    let step =
      loop-Keeps 5 dst (opened xs rembits) rembits (code_of c) (code_len_of c)
        (opened-ne xs rembits h) in
    let (ys, r) = append_code_loop 5 (opened xs rembits) rembits (code_of c) (code_len_of c) in
    rw (opened-append dst xs rembits, step.same)
      (loop-append s dst ys r (unfold Ready in λ _. step.ne))

-- `AppendHuffmanString` appends to `dst` just what it writes into an empty slice.
pub append_huffman_string-append :
    (dst s : Bytes) → append_huffman_string dst s ≡ dst ++ append_huffman_string [] s
unfolding append_huffman_string
append_huffman_string-append dst s =
    ap (λ xs. append_huffman_loop xs 8 s) (sym (append-nil dst))
    ∙ loop-append s dst [] 8 (unfold Ready in λ h. absurd (h refl))
