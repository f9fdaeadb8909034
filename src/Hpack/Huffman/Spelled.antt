-- ===== src/Hpack/Huffman/Spelled.antt =====
-- Where the decoding tree has each symbol: checked by evaluation, once for the whole table.
use native.Mathlib.Nat.{div-add-mod', mod-lt, mul-div_left}
use fhttp.Base.Mask.{pow_pos}
use fhttp.Base.{
  ℕ, zero, suc, ◌+◌, ◌-◌, ◌*◌, ◌/◌, ◌%◌, ◌^◌, ◌≤◌, ◌<◌, ◌≡◌, refl, sym, ap, ap₂, subst, ◌∙◌, Bool,
  true, false, ◌&&◌, ltb, leb, ◌==◌, Bool-cases, inl, inr, arith,
}
use fhttp.Hpack.Huffman.{code_of, code_len_of}
use fhttp.Hpack.Huffman.Codes.{huffman_codes, huffman_code_len}
use fhttp.Hpack.Huffman.Tree.{Node, missing, leaf, internal, child, root_huffman_node}

is_leaf : Node → ℕ → ℕ → Bool
is_leaf missing l s = false
is_leaf (leaf l' s') l s = l' == l && s' == s
is_leaf (internal cs) l s = false

unfoldable pub is_internal : Node → Bool
is_internal missing = false
is_internal (leaf l s) = false
is_internal (internal cs) = true

-- The children from `base` on, `count` of them, are the symbol `s` with `l` bits of its code left.
all_leaves : ℕ → Node → ℕ → ℕ → ℕ → Bool
all_leaves zero n base l s = true
all_leaves (suc count) n base l s =
    is_leaf (child n (base + count)) l s && all_leaves count n base l s

-- The last `l` bits of the code `c` lead from the node `n` to the symbol `s`.
unfoldable pub spells : ℕ → Node → ℕ → ℕ → ℕ → Bool
unfolding is_leaf all_leaves is_internal
spells zero n c l s = false
spells (suc k) n c l s = elim (ltb 8 l) [
  | true ↦ let m = child n (c / 2 ^ (l - 8) % 256) in is_internal m && spells k m c (l - 8) s
  | false ↦ ltb 0 l && all_leaves (2 ^ (8 - l)) n (c % 2 ^ l * 2 ^ (8 - l)) l s
]

all_spelled : ℕ → Bool
all_spelled zero = true
all_spelled (suc s) =
    spells 4 root_huffman_node (code_of s) (code_len_of s) s
    && (ltb (code_of s) (2 ^ code_len_of s) && (leb (code_len_of s) 30 && all_spelled s))

all_spelled_table : all_spelled 256 ≡ true
unfolding all_spelled spells root_huffman_node child huffman_codes huffman_code_len
all_spelled_table = refl

pub record IsCode (s : ℕ) : Type 0 where
  pub spelled : spells 4 root_huffman_node (code_of s) (code_len_of s) s ≡ true
  pub code_lt : code_of s < 2 ^ code_len_of s
  pub len_le : code_len_of s ≤ 30

all_spelled-IsCode : (n s : ℕ) → all_spelled n ≡ true → s < n → IsCode s
unfolding all_spelled
all_spelled-IsCode zero s e h = absurd (omega arith)
all_spelled-IsCode (suc n) s e h = elim (Bool-cases (s == n)) [
  | inl here ↦
      let same : n ≡ s = ground (arith, here) in
      subst IsCode same (record {
        spelled = ground (arith, e);
        code_lt = ground (arith, e);
        len_le = ground (arith, e);
      })
  | inr later ↦ all_spelled-IsCode n s (ground (arith, e)) (ground (arith, h, later))
]

pub octet-IsCode : (s : ℕ) → s < 256 → IsCode s
octet-IsCode s h = all_spelled-IsCode 256 s all_spelled_table h

is_leaf_sound : (n : Node) (l s : ℕ) → is_leaf n l s ≡ true → n ≡ leaf l s
unfolding is_leaf
is_leaf_sound missing l s e = cc
is_leaf_sound (internal cs) l s e = cc
is_leaf_sound (leaf l' s') l s e = ap₂ leaf (ground (arith, e)) (ground (arith, e))

all_leaves_sound :
    (count : ℕ) (n : Node) (base l s j : ℕ)
    → all_leaves count n base l s ≡ true
    → j < count
    → child n (base + j) ≡ leaf l s
unfolding all_leaves
all_leaves_sound zero n base l s j e h = absurd (omega arith)
all_leaves_sound (suc count) n base l s j e h = elim (Bool-cases (j == count)) [
  | inl here ↦
      let same : j ≡ count = ground (arith, here) in
      ap (λ k. child n (base + k)) same
      ∙ is_leaf_sound (child n (base + count)) l s (ground (arith, e))
  | inr later ↦ all_leaves_sound count n base l s j (ground (arith, e)) (ground (arith, h, later))
]

module _ (k : ℕ) (n : Node) (c l s : ℕ) (e : spells (suc k) n c l s ≡ true) where
  pub spells_deeper :
      8 < l
      → (is_internal (child n (c / 2 ^ (l - 8) % 256)) ≡ true)
        × (spells k (child n (c / 2 ^ (l - 8) % 256)) c (l - 8) s ≡ true)
  unfolding spells
  spells_deeper h =
      let deep : ltb 8 l ≡ true = ground (arith, h) in
      let both : is_internal (child n (c / 2 ^ (l - 8) % 256))
            && spells k (child n (c / 2 ^ (l - 8) % 256)) c (l - 8) s
          ≡ true =
        sym (rw (spells, deep) refl) ∙ e in
      (ground (arith, both), ground (arith, both))

  pub spells_here : (i : ℕ) → l ≤ 8 → i / 2 ^ (8 - l) ≡ c % 2 ^ l → (0 < l) × (child n i ≡ leaf l s)
  unfolding spells
  spells_here i h at =
      let shallow : ltb 8 l ≡ false = ground (arith, h) in
      let base : ℕ = c % 2 ^ l * 2 ^ (8 - l) in
      let both : ltb 0 l && all_leaves (2 ^ (8 - l)) n base l s ≡ true =
        sym (rw (spells, shallow) refl) ∙ e in
      let low : ℕ = i % 2 ^ (8 - l) in
      let split : base + low ≡ i =
        ap (λ t. t * 2 ^ (8 - l) + low) (sym at) ∙ div-add-mod' i (2 ^ (8 - l)) in
      (
        ground (arith, both),
        ap (child n) (sym split)
            ∙ all_leaves_sound (2 ^ (8 - l)) n base l s low (ground (arith, both))
                (mod-lt i {m = 2 ^ (8 - l)} (pow_pos (8 - l))),
      )

-- The padding: the first bits of EOS end in no symbol.
unfoldable pub waits : Node → ℕ → Bool
waits missing p = false
waits (leaf l s) p = ltb p l
waits (internal cs) p = true

all_wait : ℕ → Bool
unfolding waits
all_wait zero = true
all_wait (suc p) =
    waits (child root_huffman_node ((2 ^ suc p - 1) * 2 ^ (8 - suc p))) (suc p) && all_wait p

all_wait_table : all_wait 7 ≡ true
unfolding all_wait root_huffman_node child
all_wait_table = refl

all_wait_sound :
    (n p : ℕ)
    → all_wait n ≡ true
    → 0 < p
    → p ≤ n
    → waits (child root_huffman_node ((2 ^ p - 1) * 2 ^ (8 - p))) p ≡ true
unfolding all_wait
all_wait_sound zero p e h le = absurd (omega arith)
all_wait_sound (suc n) p e h le = elim (Bool-cases (p == suc n)) [
  | inl here ↦
      let same : p ≡ suc n = ground (arith, here) in
      ap (λ q. waits (child root_huffman_node ((2 ^ q - 1) * 2 ^ (8 - q))) q) same
      ∙ ground (arith, e)
  | inr later ↦ all_wait_sound n p (ground (arith, e)) h (ground (arith, le, later))
]

pub padding_waits :
    (p : ℕ) → 0 < p → p < 8 → waits (child root_huffman_node ((2 ^ p - 1) * 2 ^ (8 - p))) p ≡ true
padding_waits p h lt = all_wait_sound 7 p all_wait_table h (omega arith)

pub code_len-positive : (s : ℕ) → IsCode s → 0 < code_len_of s
code_len-positive s v = elim (Bool-cases (ltb 8 (code_len_of s))) [
  | inl deep ↦ ground (arith, deep)
  | inr shallow ↦
      (spells_here 3 root_huffman_node (code_of s) (code_len_of s) s v.spelled
        (code_of s % 2 ^ code_len_of s * 2 ^ (8 - code_len_of s)) (ground (arith, shallow))
        (mul-div_left (code_of s % 2 ^ code_len_of s) (pow_pos (8 - code_len_of s)))).0
]
