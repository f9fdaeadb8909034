-- ===== src/Hpack/Huffman/Decoded.antt =====
-- What `huffmanDecode` reads from the bits of an encoded string.
use Prim.Native.Nat.{bit_or}
use fhttp.Base.{
  ℕ, zero, suc, ◌+◌, ◌-◌, ◌*◌, ◌/◌, ◌%◌, ◌^◌, ◌≤◌, ◌<◌, ◌≡◌, ◌⊎◌, inl, inr, refl, sym, ap, ap₂, ◌∙◌,
  true, false, List, [], ◌∷◌, ◌++◌, append_assoc, append-nil, Bytes, length, length-append, ltb,
  leb, Bool-cases, arith,
}
use fhttp.Base.Word.{u64}
use fhttp.Base.Join.{join_pow}
use fhttp.Hpack.Errors.{Result, ok, ◌>>=◌}
use fhttp.Hpack.Huffman.{Decoding, code_of, code_len_of, take_octet, take_octets, feed}
use fhttp.Hpack.Huffman.Tree.{Node, missing, leaf, internal, child, root_huffman_node}
use fhttp.Hpack.Huffman.Bits.{bits, bits_of, length-bits, bits_same, bits_split, bits-mod}
use fhttp.Hpack.Huffman.Spelled.{is_internal, spells, spells_deeper, spells_here, octet-IsCode}
use fhttp.Hpack.Huffman.Octets.{AreOctets}
use fhttp.Hpack.Huffman.Encoded.{code_bits, ones}
use fhttp.Hpack.Huffman.Fronts.{octet_inside, octet_front, rest_bits}

module _ (target : Bytes) (p : ℕ) (p_lt : p < 8) where
  -- All symbols are written, or the node is inside the code of the next one; `tail` are the bits of
  -- the octets that are not read yet.
  abbrev pub AtEnd : Decoding → List ℕ → Type 0
  AtEnd d tail =
      (d.node ≡ root_huffman_node)
      × (d.buf ≡ target)
      × (d.sbits ≡ d.cbits)
      × (bits d.cbits d.cur ++ tail ≡ ones p)

  pub record Inside (d : Decoding) (tail : List ℕ) : Type 0 where
    pub k : ℕ
    pub l : ℕ
    pub s : ℕ
    pub rest : Bytes
    pub spelled : spells (suc k) d.node (code_of s) l s ≡ true
    pub octets : AreOctets rest
    pub whole : d.buf ++ s ∷ rest ≡ target
    pub ahead : bits d.cbits d.cur ++ tail ≡ bits l (code_of s) ++ (code_bits rest ++ ones p)

  abbrev pub Good : Decoding → List ℕ → Type 0
  Good d tail = AtEnd d tail ⊎ Inside d tail

  -- In front of a symbol.
  pub between :
      (d : Decoding) (tail : List ℕ) (rest : Bytes)
      → d.node ≡ root_huffman_node
      → d.sbits ≡ d.cbits
      → AreOctets rest
      → d.buf ++ rest ≡ target
      → bits d.cbits d.cur ++ tail ≡ code_bits rest ++ ones p
      → Good d tail
  unfolding code_bits
  between d tail [] root sb a w e = inl (root, sym (append-nil d.buf) ∙ w, sb, e)
  between d tail (s ∷ rest) root sb a w e = inr (record {
    k = 3;
    l = code_len_of s;
    s = s;
    rest = rest;
    spelled =
        ap (λ n. spells 4 n (code_of s) (code_len_of s) s) root ∙ (octet-IsCode s a.0).spelled;
    octets = a.1;
    whole = w;
    ahead = e ∙ append_assoc (bits (code_len_of s) (code_of s)) (code_bits rest) (ones p);
  })

  abbrev pub symbol_written : Decoding → ℕ → ℕ → Decoding
  symbol_written d l s = record d {
    node = root_huffman_node;
    cbits = d.cbits - l;
    sbits = d.cbits - l;
    buf = d.buf ++ s ∷ [];
  }

  pub written-Good :
      (d : Decoding) (tail : List ℕ) (w : Inside d tail)
      → w.l ≤ d.cbits
      → Good (symbol_written d w.l w.s) tail
  written-Good d tail w h =
      between (symbol_written d w.l w.s) tail w.rest refl refl w.octets
        (append_assoc d.buf (w.s ∷ []) w.rest ∙ w.whole)
        (rest_bits d.cbits w.l d.cur (code_of w.s) tail _ h w.ahead)

  take_internal :
      (n : Node) (d : Decoding)
      → is_internal n ≡ true
      → take_octet 0 n d ≡ ok (record d { node = n; cbits = d.cbits - 8 })
  unfolding take_octet is_internal
  take_internal missing d e = cc
  take_internal (leaf l s) d e = cc
  take_internal (internal cs) d e = refl

  take_leaf : (d : Decoding) (l s : ℕ) → take_octet 0 (leaf l s) d ≡ ok (symbol_written d l s)
  unfolding take_octet
  take_leaf d l s = refl

  further :
      (d : Decoding) (tail : List ℕ) (w : Inside d tail) (k : ℕ) (m : Node)
      → spells k m (code_of w.s) (w.l - 8) w.s ≡ true
      → bits (d.cbits - 8) d.cur ++ tail
        ≡ bits (w.l - 8) (code_of w.s) ++ (code_bits w.rest ++ ones p)
      → Inside (record d { node = m; cbits = d.cbits - 8 }) tail
  unfolding spells
  further d tail w zero m below left = cc
  further d tail w (suc k) m below left = record {
    k = k;
    l = w.l - 8;
    s = w.s;
    rest = w.rest;
    spelled = below;
    octets = w.octets;
    whole = w.whole;
    ahead = left;
  }

  -- A round of the loop of octets.
  octet-Good :
      (d : Decoding) (tail : List ℕ)
      → 8 ≤ d.cbits
      → Good d tail
      → (e : Decoding) × (take_octet 0 (child d.node (d.cur / 2 ^ (d.cbits - 8) % 256)) d ≡ ok e)
        × (e.cbits < d.cbits)
        × Good e tail
  octet-Good d tail h (inl (root, done, sb, e)) = absurd (
      omega (
        arith,
        ap length e,
        length-bits p (2 ^ p - 1),
        length-append (bits d.cbits d.cur) tail,
        length-bits d.cbits d.cur,
      ))
  octet-Good d tail h (inr w) =
      let i = d.cur / 2 ^ (d.cbits - 8) % 256 in
      let i_lt : i < 256 = omega arith in
      let c = code_of w.s in
      let front : bits 8 i ++ (bits (d.cbits - 8) d.cur ++ tail)
          ≡ bits w.l c ++ (code_bits w.rest ++ ones p) =
        sym (append_assoc (bits 8 i) (bits (d.cbits - 8) d.cur) tail)
        ∙ ap (λ t. t ++ tail)
            (ap (λ t. t ++ bits (d.cbits - 8) d.cur)
                (bits-mod 8 8 (d.cur / 2 ^ (d.cbits - 8)) (omega arith))
              ∙ sym (bits_split 8 (d.cbits - 8) d.cbits d.cur (omega arith)))
        ∙ w.ahead in
      elim (Bool-cases (ltb 8 w.l)) [
        | inl deep ↦
            let long : 8 < w.l = ground (arith, deep) in
            let (at, left) = octet_inside i w.l c _ _ i_lt long front in
            let (inner, below) = spells_deeper w.k d.node c w.l w.s w.spelled long in
            let m = child d.node i in
            let inner' : is_internal m ≡ true = ap (λ j. is_internal (child d.node j)) at ∙ inner in
            (
              record d { node = m; cbits = d.cbits - 8 },
              take_internal m d inner',
              omega arith,
              inr (
                  further d tail w w.k m
                    (ap (λ j. spells w.k (child d.node j) c (w.l - 8) w.s) at ∙ below) left),
            )
        | inr shallow ↦
            let short : w.l ≤ 8 = ground (arith, shallow) in
            let (pos, there) =
              spells_here w.k d.node c w.l w.s w.spelled i short
                (octet_front i w.l c _ _ i_lt short front) in
            (
              symbol_written d w.l w.s,
              ap (λ n. take_octet 0 n d) there ∙ take_leaf d w.l w.s,
              omega (arith, pos),
              written-Good d tail w (omega (arith, short)),
            )
      ]

  octets_step :
      (rounds : ℕ) (d e : Decoding)
      → leb 8 d.cbits ≡ true
      → take_octet 0 (child d.node (d.cur / 2 ^ (d.cbits - 8) % 256)) d ≡ ok e
      → take_octets (suc rounds) 0 d ≡ take_octets rounds 0 e
  unfolding take_octets
  octets_step rounds d e enough taken =
      ap
        (λ b. elim b [
          | true ↦ take_octet 0 (child d.node (d.cur / 2 ^ (d.cbits - 8) % 256)) d >>= λ x.
              take_octets rounds 0 x
          | false ↦ ok d
        ])
        enough
      ∙ ap (λ (r : Result Decoding). r >>= λ x. take_octets rounds 0 x) taken

  octets_stop :
      (rounds : ℕ) (d : Decoding) → leb 8 d.cbits ≡ false → take_octets (suc rounds) 0 d ≡ ok d
  unfolding take_octets
  octets_stop rounds d short =
      ap
        (λ b. elim b [
          | true ↦ take_octet 0 (child d.node (d.cur / 2 ^ (d.cbits - 8) % 256)) d >>= λ x.
              take_octets rounds 0 x
          | false ↦ ok d
        ])
        short

  octets-Good :
      (rounds : ℕ) (d : Decoding) (tail : List ℕ)
      → d.cbits < rounds + 8
      → Good d tail
      → (e : Decoding) × (take_octets rounds 0 d ≡ ok e) × (e.cbits < 8) × Good e tail
  unfolding take_octets
  octets-Good zero d tail h g = (d, refl, h, g)
  octets-Good (suc rounds) d tail h g = elim (Bool-cases (leb 8 d.cbits)) [
    | inl enough ↦
        let (e, taken, less, g') = octet-Good d tail (ground (arith, enough)) g in
        let (e', run, few, g'') = octets-Good rounds e tail (omega (arith, less)) g' in
        (e', octets_step rounds d e enough taken ∙ run, few, g'')
    | inr short ↦ (d, octets_stop rounds d short, ground (arith, short), g)
  ]

  abbrev fed : Decoding → ℕ → Decoding
  fed d b = record d {
    cur = bit_or (d.cur * 256 % u64) b;
    cbits = (d.cbits + 8) % 256;
    sbits = (d.sbits + 8) % 256;
  }

  -- An octet more in the bit buffer.
  bits-fed :
      (d : Decoding) (b : ℕ) (tail : List ℕ)
      → d.cbits < 8
      → b < 256
      → bits (fed d b).cbits (fed d b).cur ++ tail ≡ bits d.cbits d.cur ++ (bits 8 b ++ tail)
  bits-fed d b tail h hb =
      let q = d.cur % 2 ^ 56 in
      let joined : (fed d b).cur ≡ q * 2 ^ 8 + b =
        ap (λ t. bit_or t b) (let e : d.cur * 256 % u64 ≡ q * 2 ^ 8 = omega arith in e)
        ∙ join_pow 8 q b hb in
      ap (λ t. t ++ tail)
        (bits_same (fed d b).cbits (d.cbits + 8) (fed d b).cur (q * 2 ^ 8 + b) (omega arith) joined
          ∙ bits_split d.cbits 8 (d.cbits + 8) (q * 2 ^ 8 + b) refl
          ∙ ap₂ (λ u v. u ++ v)
              (ap (bits d.cbits) (let e : (q * 2 ^ 8 + b) / 2 ^ 8 ≡ q = omega arith in e)
                ∙ bits-mod d.cbits 56 d.cur (omega arith))
              (sym (bits-mod 8 8 (q * 2 ^ 8 + b) (omega arith))
                ∙ ap (bits 8) (let e : (q * 2 ^ 8 + b) % 2 ^ 8 ≡ b = omega arith in e)))
      ∙ append_assoc (bits d.cbits d.cur) (bits 8 b) tail

  fed-Good :
      (d : Decoding) (b : ℕ) (tail : List ℕ)
      → d.cbits < 8
      → b < 256
      → Good d (bits 8 b ++ tail)
      → Good (fed d b) tail
  fed-Good d b tail h hb (inl (root, done, sb, e)) =
      inl (root, done, ap (λ t. (t + 8) % 256) sb, bits-fed d b tail h hb ∙ e)
  fed-Good d b tail h hb (inr w) = inr (record {
    k = w.k;
    l = w.l;
    s = w.s;
    rest = w.rest;
    spelled = w.spelled;
    octets = w.octets;
    whole = w.whole;
    ahead = bits-fed d b tail h hb ∙ w.ahead;
  })

  pub feed-Good :
      (v : Bytes) (d : Decoding)
      → AreOctets v
      → d.cbits < 8
      → Good d (bits_of v)
      → (e : Decoding) × (feed 0 d v ≡ ok e) × (e.cbits < 8) × Good e []
  unfolding feed bits_of
  feed-Good [] d a h g = (d, refl, h, g)
  feed-Good (b ∷ v) d a h g =
      let (e, taken, few, g') =
        octets-Good 16 (fed d b) (bits_of v) (omega arith) (fed-Good d b (bits_of v) h a.0 g) in
      let (e', run, few', g'') = feed-Good v e a.1 few g' in (e', rw taken run, few', g'')
