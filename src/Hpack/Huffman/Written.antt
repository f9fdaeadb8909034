-- ===== src/Hpack/Huffman/Written.antt =====
-- The bits of one code behind those that are written already.
use Prim.Native.Nat.{bit_or}
use native.Mathlib.Nat.{
  pow-suc, mul_assoc, add-mul, mod-lt, div-lt_iff_lt-mul, div-eq_of_lt, mul-lt-mul_of_pos_right,
  mod-eq_of_lt, mul-add-div_right, mul-add-mod_self_right,
}
use fhttp.Base.{
  ℕ, zero, suc, ◌+◌, ◌-◌, ◌*◌, ◌/◌, ◌%◌, ◌^◌, ◌≤◌, ◌<◌, ◌≡◌, ◌⊎◌, inl, inr, refl, sym, ap, ap₂,
  subst, ◌∙◌, List, [], ◌∷◌, ◌++◌, append_assoc, append-nil, Bytes, ltb, ◌==◌, Bool-cases, arith,
}
use fhttp.Base.Word.{u32}
use fhttp.Base.Mask.{pow_pos, pow_le_of_le}
use fhttp.Base.Join.{join_pow}
use fhttp.Hpack.Huffman.{or_last, append_code_loop}
use fhttp.Hpack.Huffman.Append.{or_last-append}
use fhttp.Hpack.Huffman.Bits.{bits, bits_of, bits_of-append, bits_same, bits_split, bits-mod}

pub pow_split : (a b c : ℕ) → c ≡ a + b → 2 ^ c ≡ 2 ^ a * 2 ^ b
pow_split a zero c e =
    ap (λ t. 2 ^ t) e ∙ ap (λ t. 2 ^ t) (let z : a + 0 ≡ a = omega arith in z) ∙ omega arith
pow_split a (suc b) zero e = absurd (omega arith)
pow_split a (suc b) (suc c) e =
    pow-suc 2 c
    ∙ ap (λ t. t * 2) (pow_split a b c (omega arith))
    ∙ mul_assoc (2 ^ a) (2 ^ b) 2
    ∙ ap (λ t. 2 ^ a * t) (sym (pow-suc 2 b))

shifted_octet : (n code : ℕ) → n < 8 → code * 2 ^ (8 - n) % u32 % 256 ≡ code % 2 ^ n * 2 ^ (8 - n)
shifted_octet zero code h = omega arith
shifted_octet (suc zero) code h = omega arith
shifted_octet (suc (suc zero)) code h = omega arith
shifted_octet (suc (suc (suc zero))) code h = omega arith
shifted_octet (suc (suc (suc (suc zero)))) code h = omega arith
shifted_octet (suc (suc (suc (suc (suc zero))))) code h = omega arith
shifted_octet (suc (suc (suc (suc (suc (suc zero)))))) code h = omega arith
shifted_octet (suc (suc (suc (suc (suc (suc (suc zero))))))) code h = omega arith
shifted_octet (suc (suc (suc (suc (suc (suc (suc (suc n)))))))) code h = absurd (omega arith)

-- A code is below `2 ^ n` until its first bits are written, and then a whole octet is free.
abbrev pub Fits : ℕ → ℕ → ℕ → Type 0
Fits r code n = (r ≡ 8) ⊎ (code < 2 ^ n)

shifted_left :
    (r code n : ℕ)
    → r ≤ 8
    → n < r
    → Fits r code n
    → code * 2 ^ (r - n) % u32 % 256 ≡ code % 2 ^ n * 2 ^ (r - n)
shifted_left r code n hr h (inl e) =
    ap (λ t. code * 2 ^ (t - n) % u32 % 256) e
    ∙ shifted_octet n code (omega arith)
    ∙ ap (λ t. code % 2 ^ n * 2 ^ (t - n)) (sym e)
shifted_left r code n hr h (inr lt) =
    let small : code * 2 ^ (r - n) < 256 = omega (
      arith,
      mul-lt-mul_of_pos_right {m = code} {n = 2 ^ n} lt (pow_pos (r - n)),
      pow_split n (r - n) r (omega arith),
      pow_le_of_le r 8 hr,
    ) in
    omega (arith, small) ∙ ap (λ t. t * 2 ^ (r - n)) (sym (mod-eq_of_lt lt))

shifted_right :
    (r code n : ℕ)
    → r ≤ 8
    → r ≤ n
    → Fits r code n
    → code / 2 ^ (n - r) % 256 ≡ code / 2 ^ (n - r) % 2 ^ r
shifted_right r code n hr h (inl e) = ap (λ t. code / 2 ^ (n - r) % t) (sym (ap (λ t. 2 ^ t) e))
shifted_right r code n hr h (inr lt) =
    let whole : 2 ^ n ≡ 2 ^ r * 2 ^ (n - r) = pow_split r (n - r) n (omega arith) in
    let small : code / 2 ^ (n - r) < 2 ^ r =
      (div-lt_iff_lt-mul {x = code} {y = 2 ^ r} (pow_pos (n - r))).1 (omega (arith, whole)) in
    mod-eq_of_lt (omega (arith, small, pow_le_of_le r 8 hr)) ∙ sym (mod-eq_of_lt small)

or_last_concat : (xs : Bytes) (b t : ℕ) → or_last (xs ++ b ∷ []) t ≡ xs ++ bit_or b t ∷ []
unfolding or_last
or_last_concat xs b t = or_last-append xs (b ∷ []) t (λ e. cc)

-- The last octet with `t` in its free bits.
pub filled :
    (xs : Bytes) (h r t : ℕ)
    → r ≤ 8
    → t < 2 ^ r
    → bits_of (or_last (xs ++ h * 2 ^ r ∷ []) t) ≡ bits_of xs ++ (bits (8 - r) h ++ bits r t)
unfolding bits_of
filled xs h r t hr ht =
    ap bits_of (or_last_concat xs (h * 2 ^ r) t ∙ ap (λ b. xs ++ b ∷ []) (join_pow r h t ht))
    ∙ bits_of-append xs ((h * 2 ^ r + t) ∷ [])
    ∙ ap (λ l. bits_of xs ++ l)
        (append-nil (bits 8 (h * 2 ^ r + t))
          ∙ bits_split (8 - r) r 8 (h * 2 ^ r + t) (omega arith)
          ∙ ap₂ (λ u v. bits (8 - r) u ++ v) high low)
  where
    high : (h * 2 ^ r + t) / 2 ^ r ≡ h
    high = mul-add-div_right (pow_pos r) h t ∙ ap (λ y. h + y) (div-eq_of_lt ht) ∙ omega arith

    low : bits r (h * 2 ^ r + t) ≡ bits r t
    low =
        sym (bits-mod r r (h * 2 ^ r + t) (omega arith))
        ∙ ap (bits r) (mul-add-mod_self_right h (2 ^ r) t)
        ∙ bits-mod r r t (omega arith)

-- What is written: whole octets, or octets of which the last has its `r` lowest bits free.
pub record Opened (dst : Bytes) (r : ℕ) (bs : List ℕ) : Type 0 where
  pub xs : Bytes
  pub h : ℕ
  pub octets : dst ≡ xs ++ h * 2 ^ r ∷ []
  pub written : bs ≡ bits_of xs ++ bits (8 - r) h

abbrev pub Written : Bytes → ℕ → List ℕ → Type 0
Written dst r bs = ((r ≡ 8) × (bs ≡ bits_of dst)) ⊎ ((0 < r) × (r < 8) × Opened dst r bs)

-- The low bits of a code, behind the bits of the last octet.
last_bits :
    (h r code n : ℕ)
    → r ≤ 8
    → n < r
    → bits (8 - (r - n)) (h * 2 ^ n + code % 2 ^ n) ≡ bits (8 - r) h ++ bits n code
last_bits h r code n hr lt =
    let m = code % 2 ^ n in
    let small : m < 2 ^ n = mod-lt code {m = 2 ^ n} (pow_pos n) in
    bits_split (8 - r) n (8 - (r - n)) (h * 2 ^ n + m) (omega arith)
    ∙ ap₂ (λ u v. bits (8 - r) u ++ v)
        (mul-add-div_right (pow_pos n) h m ∙ ap (λ y. h + y) (div-eq_of_lt small) ∙ omega arith)
        (sym (bits-mod n n (h * 2 ^ n + m) (omega arith))
          ∙ ap (bits n) (mul-add-mod_self_right h (2 ^ n) m)
          ∙ bits-mod n n m (omega arith)
          ∙ bits-mod n n code (omega arith))

last_octet :
    (xs : Bytes) (h r code n : ℕ)
    → r ≤ 8
    → n < r
    → Fits r code n
    → or_last (xs ++ h * 2 ^ r ∷ []) (code * 2 ^ (r - n) % u32 % 256)
      ≡ xs ++ (h * 2 ^ n + code % 2 ^ n) * 2 ^ (r - n) ∷ []
last_octet xs h r code n hr lt fits =
    let m = code % 2 ^ n in
    let small : m * 2 ^ (r - n) < 2 ^ r = omega (
      arith,
      mul-lt-mul_of_pos_right {m = m} {n = 2 ^ n} (mod-lt code {m = 2 ^ n} (pow_pos n))
          (pow_pos (r - n)),
      pow_split n (r - n) r (omega arith),
    ) in
    ap (or_last (xs ++ h * 2 ^ r ∷ [])) (shifted_left r code n hr lt fits)
    ∙ or_last_concat xs (h * 2 ^ r) (m * 2 ^ (r - n))
    ∙ ap (λ b. xs ++ b ∷ [])
        (join_pow r h (m * 2 ^ (r - n)) small
          ∙ ap (λ t. h * t + m * 2 ^ (r - n)) (pow_split n (r - n) r (omega arith))
          ∙ ap (λ t. t + m * 2 ^ (r - n)) (sym (mul_assoc h (2 ^ n) (2 ^ (r - n))))
          ∙ sym (add-mul (h * 2 ^ n) m (2 ^ (r - n))))

first_bits :
    (xs : Bytes) (h r code n : ℕ)
    → r ≤ 8
    → r ≤ n
    → Fits r code n
    → bits_of (or_last (xs ++ h * 2 ^ r ∷ []) (code / 2 ^ (n - r) % 256))
      ≡ bits_of xs ++ (bits (8 - r) h ++ bits r (code / 2 ^ (n - r)))
first_bits xs h r code n hr le fits =
    ap (λ t. bits_of (or_last (xs ++ h * 2 ^ r ∷ []) t)) (shifted_right r code n hr le fits)
    ∙ filled xs h r (code / 2 ^ (n - r) % 2 ^ r) hr
        (mod-lt (code / 2 ^ (n - r)) {m = 2 ^ r} (pow_pos r))
    ∙ ap (λ l. bits_of xs ++ (bits (8 - r) h ++ l))
        (bits-mod r r (code / 2 ^ (n - r)) (omega arith))

no_bits : (k v : ℕ) → k ≡ 0 → bits k v ≡ []
unfolding bits
no_bits k v e = bits_same k 0 v v e refl

pub loop-Written :
    (rounds : ℕ) (xs : Bytes) (h r code n : ℕ)
    → 0 < r
    → r ≤ 8
    → 0 < n
    → n + 8 ≤ r + 8 * rounds
    → Fits r code n
    → let q = append_code_loop rounds (xs ++ h * 2 ^ r ∷ []) r code n in
      Written q.0 q.1 (bits_of xs ++ (bits (8 - r) h ++ bits n code))
unfolding append_code_loop bits
loop-Written zero xs h r code n h0 hr hn fuel fits = absurd (omega arith)
loop-Written (suc rounds) xs h r code n h0 hr hn fuel fits = elim (Bool-cases (ltb n r)) [
  | inl short ↦
      let lt : n < r = ground (arith, short) in
      rw short (
        inr (
          omega arith,
          omega arith,
          record {
            xs = xs;
            h = h * 2 ^ n + code % 2 ^ n;
            octets = last_octet xs h r code n hr lt fits;
            written = ap (λ l. bits_of xs ++ l) (sym (last_bits h r code n hr lt));
          },
        ))
  | inr long ↦
      let le : r ≤ n = ground (arith, long) in
      let dst = or_last (xs ++ h * 2 ^ r ∷ []) (code / 2 ^ (n - r) % 256) in
      let all_bits : bits_of xs ++ (bits (8 - r) h ++ bits n code)
          ≡ bits_of dst ++ bits (n - r) code =
        ap (λ l. bits_of xs ++ (bits (8 - r) h ++ l)) (bits_split r (n - r) n code (omega arith))
        ∙ sym (
            ap (λ l. l ++ bits (n - r) code) (first_bits xs h r code n hr le fits)
            ∙ append_assoc (bits_of xs) (bits (8 - r) h ++ bits r (code / 2 ^ (n - r)))
                (bits (n - r) code)
            ∙ ap (λ l. bits_of xs ++ l)
                (append_assoc (bits (8 - r) h) (bits r (code / 2 ^ (n - r)))
                  (bits (n - r) code))) in
      elim (Bool-cases (n - r == 0)) [
        | inl last ↦
            rw (long, last)
              (inl (
                refl,
                all_bits
                    ∙ ap (λ l. bits_of dst ++ l) (no_bits (n - r) code (ground (arith, last)))
                    ∙ append-nil (bits_of dst),
              ))
        | inr more ↦
            rw (long, more)
              (subst
                (λ l.
                  let q = append_code_loop rounds (dst ++ 0 ∷ []) 8 code (n - r) in
                  Written q.0 q.1 l)
                (sym all_bits)
                (loop-Written rounds dst 0 8 code (n - r) (omega arith) (omega arith)
                  (ground (arith, more)) (omega arith) (inl refl)))
      ]
]
