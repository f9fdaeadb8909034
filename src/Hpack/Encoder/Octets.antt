-- ===== src/Hpack/Encoder/Octets.antt =====
-- What the `append…` functions of http2/hpack/encode.go write, behind what they keep.
use Prim.Native.Nat.{bit_or}
use fhttp.Base.{
  ℕ, ◌+◌, ◌^◌, ◌≤◌, ◌<◌, ◌≡◌, refl, ◌∙◌, ap, Bool, true, false, [], ◌∷◌, ◌++◌, append_assoc, Bytes,
  length, ltb, if◌then◌else◌, arith, Bool-cases, inl, inr,
}
use mathlib.Core.Bool.{true≢false}
use fhttp.Base.Bits.{bit_or_128, bit_or_64, bit_or_32, bit_or_16, bit_or_none}
use fhttp.Hpack.VarInt.{append_var_int}
use fhttp.Hpack.VarInt.Encoding.{first_octet, first_octet-lt, more_octets, append_var_int-octets}
use fhttp.Hpack.Field.{HeaderField}
use fhttp.Hpack.Huffman.{huffman_encode_length, append_huffman_string}
use fhttp.Hpack.Huffman.Append.{append_huffman_string-append}
use fhttp.Hpack.Encoder.{
  or_at, append_indexed, append_table_size, append_hpack_string, append_new_name,
  append_indexed_name, encode_type_byte,
}

-- A number with an `n`-bit prefix, and `tag` in the bits above it.
abbrev pub tagged : ℕ → ℕ → ℕ → Bytes
tagged tag n i = (tag + first_octet n i) ∷ more_octets n i

unfoldable pub hpack_string : Bytes → Bytes
hpack_string s =
    if ltb (huffman_encode_length s) (length s)
    then tagged 128 7 (huffman_encode_length s) ++ append_huffman_string [] s
    else tagged 0 7 (length s) ++ s

or_at-append :
    (dst : Bytes) (b : ℕ) (bs : Bytes) (v : ℕ)
    → or_at (dst ++ b ∷ bs) (length dst) v ≡ dst ++ bit_or b v ∷ bs
unfolding or_at
or_at-append [] b bs v = refl
or_at-append (x ∷ dst) b bs v = ap (◌∷◌ x) (or_at-append dst b bs v)

pub append_indexed-tagged :
    (dst : Bytes) (i : ℕ) → i < 2 ^ 64 → append_indexed dst i ≡ dst ++ tagged 128 7 i
unfolding append_indexed
append_indexed-tagged dst i h =
    rw
      (
        append_var_int-octets dst 7 i (omega arith) h,
        or_at-append dst (first_octet 7 i) (more_octets 7 i) 128,
        bit_or_128 (first_octet 7 i) (first_octet-lt 7 i (omega arith)),
      )
      (ap (λ t. dst ++ t ∷ more_octets 7 i) (omega arith))

pub append_table_size-tagged :
    (dst : Bytes) (v : ℕ) → v < 2 ^ 32 → append_table_size dst v ≡ dst ++ tagged 32 5 v
unfolding append_table_size
append_table_size-tagged dst v h =
    rw
      (
        append_var_int-octets dst 5 v (omega arith) (omega arith),
        or_at-append dst (first_octet 5 v) (more_octets 5 v) 32,
        bit_or_32 (first_octet 5 v) (first_octet-lt 5 v (omega arith)),
      )
      (ap (λ t. dst ++ t ∷ more_octets 5 v) (omega arith))

var_int-tagged_zero :
    (dst : Bytes) (n i : ℕ) → n ≤ 8 → i < 2 ^ 64 → append_var_int dst n i ≡ dst ++ tagged 0 n i
var_int-tagged_zero dst n i hn hi =
    append_var_int-octets dst n i hn hi ∙ ap (λ t. dst ++ t ∷ more_octets n i) (omega arith)

-- The Huffman form: the flag is set on the first octet of the length, behind `dst`.
flag_length :
    (dst : Bytes) (b : ℕ) (bs s : Bytes)
    → or_at (append_huffman_string (dst ++ b ∷ bs) s) (length dst) 128
      ≡ dst ++ bit_or b 128 ∷ (bs ++ append_huffman_string [] s)
flag_length dst b bs s =
    ap (λ x. or_at x (length dst) 128)
      (append_huffman_string-append (dst ++ b ∷ bs) s
        ∙ append_assoc dst (b ∷ bs) (append_huffman_string [] s))
    ∙ or_at-append dst b (bs ++ append_huffman_string [] s) 128

huffman_form :
    (dst s : Bytes) (n : ℕ)
    → n < 2 ^ 64
    → or_at (append_huffman_string (append_var_int dst 7 n) s) (length dst) 128
      ≡ dst ++ (tagged 128 7 n ++ append_huffman_string [] s)
huffman_form dst s n h =
    ap (λ x. or_at (append_huffman_string x s) (length dst) 128)
      (append_var_int-octets dst 7 n (omega arith) h)
    ∙ flag_length dst (first_octet 7 n) (more_octets 7 n) s
    ∙ ap (λ t. dst ++ t ∷ (more_octets 7 n ++ append_huffman_string [] s))
        (bit_or_128 (first_octet 7 n) (first_octet-lt 7 n (omega arith)) ∙ omega arith)

-- `appendHpackString` keeps `dst` and appends the string literal.
pub append_hpack_string-append :
    (dst s : Bytes) → length s < 2 ^ 62 → append_hpack_string dst s ≡ dst ++ hpack_string s
unfolding append_hpack_string hpack_string
append_hpack_string-append dst s h = elim (Bool-cases (ltb (huffman_encode_length s) (length s))) [
  | inl e ↦ rw e (huffman_form dst s (huffman_encode_length s) (ground arith))
  | inr e ↦ rw e (
      ap (λ x. x ++ s) (var_int-tagged_zero dst 7 (length s) (omega arith) (omega arith))
      ∙ append_assoc dst (tagged 0 7 (length s)) s)
]

-- The prefix of a literal and the bits above it: 6 bits where the field is indexed, and 4 where not.
abbrev pub literal_head : Bool → Bool → ℕ → Bytes
literal_head true sensitive i = tagged 64 6 i
literal_head false true i = tagged 16 4 i
literal_head false false i = tagged 0 4 i

literal_index :
    (dst : Bytes) (n i v tag : ℕ)
    → n ≤ 8
    → i < 2 ^ 64
    → bit_or (first_octet n i) v ≡ tag + first_octet n i
    → or_at (append_var_int dst n i) (length dst) v ≡ dst ++ tagged tag n i
literal_index dst n i v tag hn hi e =
    ap (λ x. or_at x (length dst) v) (append_var_int-octets dst n i hn hi)
    ∙ or_at-append dst (first_octet n i) (more_octets n i) v
    ∙ ap (λ t. dst ++ t ∷ more_octets n i) e

index_head :
    (dst : Bytes) (i : ℕ) (indexing sensitive : Bool)
    → i < 2 ^ 64
    → (indexing ≡ true → sensitive ≡ false)
    → or_at
        (append_var_int dst (if indexing then 6 else 4) i)
        (length dst)
        (encode_type_byte indexing sensitive)
      ≡ dst ++ literal_head indexing sensitive i
unfolding encode_type_byte
index_head dst i true true h o = absurd (true≢false (o refl))
index_head dst i true false h o =
    literal_index dst 6 i 64 64 (omega arith) h
      (bit_or_64 _ (first_octet-lt 6 i (omega arith)) ∙ omega arith)
index_head dst i false true h o =
    literal_index dst 4 i 16 16 (omega arith) h
      (bit_or_16 _ (first_octet-lt 4 i (omega arith)) ∙ omega arith)
index_head dst i false false h o =
    literal_index dst 4 i 0 0 (omega arith) h
      (bit_or_none _ (omega (arith, first_octet-lt 4 i (omega arith))) ∙ omega arith)

pub append_indexed_name-append :
    (dst : Bytes) (f : HeaderField) (i : ℕ) (indexing : Bool)
    → i < 2 ^ 64
    → (indexing ≡ true → f.sensitive ≡ false)
    → length f.value < 2 ^ 62
    → append_indexed_name dst f i indexing
      ≡ dst ++ (literal_head indexing f.sensitive i ++ hpack_string f.value)
unfolding append_indexed_name
append_indexed_name-append dst f i indexing hi o hv =
    append_hpack_string-append _ f.value hv
    ∙ ap (λ x. x ++ hpack_string f.value) (index_head dst i indexing f.sensitive hi o)
    ∙ append_assoc dst (literal_head indexing f.sensitive i) (hpack_string f.value)

new_head :
    (indexing sensitive : Bool)
    → (indexing ≡ true → sensitive ≡ false)
    → encode_type_byte indexing sensitive ∷ [] ≡ literal_head indexing sensitive 0
unfolding encode_type_byte first_octet more_octets
new_head true true o = absurd (true≢false (o refl))
new_head true false o = refl
new_head false true o = refl
new_head false false o = refl

pub append_new_name-append :
    (dst : Bytes) (f : HeaderField) (indexing : Bool)
    → (indexing ≡ true → f.sensitive ≡ false)
    → length f.name < 2 ^ 62
    → length f.value < 2 ^ 62
    → append_new_name dst f indexing
      ≡ dst
        ++ (literal_head indexing f.sensitive 0 ++ (hpack_string f.name ++ hpack_string f.value))
unfolding append_new_name
append_new_name-append dst f indexing o hn hv =
    append_hpack_string-append _ f.value hv
    ∙ ap (λ x. x ++ hpack_string f.value) (append_hpack_string-append _ f.name hn)
    ∙ rw (new_head indexing f.sensitive o) (simp append_assoc)
