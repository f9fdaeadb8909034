-- ===== src/Hpack/Huffman/Tree.antt =====
-- The decoding tree of http2/hpack/huffman.go: `node`, `addDecoderNode`, `buildRootHuffmanNode`.
use fhttp.Base.{ℕ, zero, suc, ◌+◌, ◌-◌, ◌*◌, ◌/◌, ◌%◌, ◌^◌, List, [], ◌∷◌, ltb, if◌then◌else◌}
use fhttp.Base.Word.{u32}
use fhttp.Hpack.Huffman.Codes.{huffman_codes, huffman_code_len}

-- `missing` is the nil pointer; a node with no children is a `leaf` with its `codeLen` and `sym`.
mutual
  pub data Node : Type 0 where
    missing : Node
    leaf : ℕ → ℕ → Node
    internal : Children → Node

  pub data Children : Type 0 where
    nil : Children
    cons : Node → Children → Children

unfoldable pub get_child : Children → ℕ → Node
get_child nil i = missing
get_child (cons c cs) zero = c
get_child (cons c cs) (suc i) = get_child cs i

unfoldable pub set_child : Children → ℕ → Node → Children
set_child nil i n = nil
set_child (cons c cs) zero n = cons n cs
set_child (cons c cs) (suc i) n = cons c (set_child cs i n)

unfoldable pub missing_children : ℕ → Children
missing_children zero = nil
missing_children (suc n) = cons missing (missing_children n)

unfoldable pub new_internal_node : Node
unfolding missing_children
new_internal_node = internal (missing_children 256)

-- `n.children[i]` at an octet `i`
unfoldable pub child : Node → ℕ → Node
unfolding get_child
child (internal cs) i = get_child cs i
child missing i = missing
child (leaf code_len sym) i = missing

-- `if cur.children[i] == nil { cur.children[i] = newInternalNode() }`
ensure : Node → Node
ensure missing = new_internal_node
ensure (leaf code_len sym) = leaf code_len sym
ensure (internal cs) = internal cs

-- `for i := start; i < start+end; i++`
unfoldable pub fill : ℕ → ℕ → Node → Children → Children
fill zero start n cs = cs
fill (suc count) start n cs = fill count (start + 1) n (set_child cs start n)

-- A code has 30 bits at most, so the walk goes down three times at most. The codes are prefix-free,
-- so it never goes down into a leaf.
unfoldable pub add_decoder_node : ℕ → ℕ → ℕ → ℕ → Node → Node
unfolding new_internal_node ensure
add_decoder_node depth sym code code_len missing = missing
add_decoder_node depth sym code code_len (leaf l s) = leaf l s
add_decoder_node zero sym code code_len (internal cs) =
    internal
      (fill (2 ^ (8 - code_len)) (code * 2 ^ (8 - code_len) % u32 % 256) (leaf code_len sym) cs)
add_decoder_node (suc depth) sym code code_len (internal cs) =
    let i = code / 2 ^ (code_len - 8) % 256 in
    let below = add_decoder_node depth sym code (code_len - 8) (ensure (get_child cs i)) in
    let down = internal (set_child cs i below) in
    if ltb 8 code_len
    then down
    else internal
        (fill (2 ^ (8 - code_len)) (code * 2 ^ (8 - code_len) % u32 % 256) (leaf code_len sym) cs)

unfoldable pub add_codes : ℕ → List ℕ → List ℕ → Node → Node
add_codes sym [] lens n = n
add_codes sym (c ∷ cs) [] n = n
add_codes sym (c ∷ cs) (l ∷ lens) n = add_codes (sym + 1) cs lens (add_decoder_node 3 sym c l n)

unfoldable pub root_huffman_node : Node
unfolding get_child set_child fill add_decoder_node add_codes huffman_codes huffman_code_len
root_huffman_node = add_codes 0 huffman_codes huffman_code_len new_internal_node
