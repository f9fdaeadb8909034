-- ===== src/Hpack/Encoder.antt =====
-- `Encoder` of http2/hpack/encode.go.
pub mod Octets
use Prim.Native.Nat.{bit_or}
use fhttp.Base.{
  ℕ, zero, suc, ◌+◌, ◌-◌, ◌*◌, ◌/◌, ◌%◌, ◌^◌, Bool, true, false, not, ◌&&◌, ◌||◌, Option, none,
  some, List, [], ◌∷◌, ◌++◌, Bytes, length, ltb, leb, ◌==◌, if◌then◌else◌,
}
use fhttp.Base.Word.{u32, u64, add64}
use fhttp.Hpack.VarInt.{append_var_int}
use fhttp.Hpack.Field.{HeaderField, size}
use fhttp.Hpack.Table.{empty_table, search}
use fhttp.Hpack.DynTable.{DynamicTable, set_max_size, add}
use fhttp.Hpack.StaticTable.{new_static_table}
use fhttp.Hpack.Huffman.{huffman_encode_length, append_huffman_string}

pub record Encoder : Type 0 where
  pub dyn_tab : DynamicTable
  pub min_size : ℕ
  pub max_size_limit : ℕ
  pub table_size_update : Bool

abbrev pub uint32_max : ℕ
uint32_max = 2 ^ 32 - 1

abbrev pub initial_header_table_size : ℕ
initial_header_table_size = 4096

abbrev with_dyn_tab : Encoder → Option DynamicTable → Option Encoder
with_dyn_tab e none = none
with_dyn_tab e (some dt) = some (record e { dyn_tab = dt })

-- `none` is a panic, here and below. The writer is an argument of `write_field`.
unfoldable pub new_encoder : Option Encoder
new_encoder =
    let zero_tab : DynamicTable = record {
      table = empty_table;
      size = 0;
      max_size = 0;
      allowed_max_size = 0;
    } in
    let e : Encoder = record {
      dyn_tab = zero_tab;
      min_size = uint32_max;
      max_size_limit = initial_header_table_size;
      table_size_update = false;
    } in
    with_dyn_tab e (set_max_size zero_tab initial_header_table_size)

-- `dst[first] |= v`
unfoldable pub or_at : Bytes → ℕ → ℕ → Bytes
or_at [] first v = []
or_at (b ∷ bs) zero v = bit_or b v ∷ bs
or_at (b ∷ bs) (suc first) v = b ∷ or_at bs first v

unfoldable pub append_indexed : Bytes → ℕ → Bytes
append_indexed dst i = or_at (append_var_int dst 7 i) (length dst) 0x80

unfoldable pub encode_type_byte : Bool → Bool → ℕ
encode_type_byte indexing sensitive = if sensitive then 0x10 else if indexing then 0x40 else 0

unfoldable pub append_hpack_string : Bytes → Bytes → Bytes
append_hpack_string dst s =
    let huffman_length = huffman_encode_length s in
    if ltb huffman_length (length s)
    then or_at (append_huffman_string (append_var_int dst 7 huffman_length) s) (length dst) 0x80
    else append_var_int dst 7 (length s) ++ s

unfoldable pub append_new_name : Bytes → HeaderField → Bool → Bytes
append_new_name dst f indexing =
    append_hpack_string
      (append_hpack_string (dst ++ encode_type_byte indexing f.sensitive ∷ []) f.name) f.value

unfoldable pub append_indexed_name : Bytes → HeaderField → ℕ → Bool → Bytes
append_indexed_name dst f i indexing =
    append_hpack_string
      (or_at (append_var_int dst (if indexing then 6 else 4) i) (length dst)
        (encode_type_byte indexing f.sensitive))
      f.value

unfoldable pub append_table_size : Bytes → ℕ → Bytes
append_table_size dst v = or_at (append_var_int dst 5 v) (length dst) 0x20

unfoldable pub set_max_dynamic_table_size : Encoder → ℕ → Option Encoder
set_max_dynamic_table_size e w =
    let v = (if ltb e.max_size_limit w then e.max_size_limit else w) in
    with_dyn_tab
      (record e {
        min_size = (if ltb v e.min_size then v else e.min_size);
        table_size_update = true;
      })
      (set_max_size e.dyn_tab v)

unfoldable pub set_max_dynamic_table_size_limit : Encoder → ℕ → Option Encoder
set_max_dynamic_table_size_limit e v =
    if ltb v e.dyn_tab.max_size
    then with_dyn_tab (record e { max_size_limit = v; table_size_update = true })
        (set_max_size e.dyn_tab v)
    else some (record e { max_size_limit = v })

unfoldable pub should_index : Encoder → HeaderField → Bool
should_index e f = not f.sensitive && leb (size f) e.dyn_tab.max_size

-- `searchTable`: the static table first, and the dynamic one only with no full match there.
unfoldable pub combine : ℕ × Bool → Option (ℕ × Bool) → Option (ℕ × Bool)
combine (i, true) dynamic = some (i, true)
combine (i, false) none = none
combine (i, false) (some (j, match)) =
    if match || (i == 0 && not (j == 0))
    then some (add64 j (length new_static_table.ents), match)
    else some (i, false)

unfoldable pub search_with : Option (ℕ × Bool) → Option (ℕ × Bool) → Option (ℕ × Bool)
search_with none dynamic = none
search_with (some r) dynamic = combine r dynamic

unfoldable pub search_table : Encoder → HeaderField → Option (ℕ × Bool)
search_table e f = search_with (search true new_static_table f) (search false e.dyn_tab.table f)

-- The size updates that `WriteField` writes first.
unfoldable pub write_size_update : Encoder → Encoder × Bytes
write_size_update e =
    if e.table_size_update
    then (
      record e { min_size = uint32_max; table_size_update = false },
      append_table_size
          (if ltb e.min_size e.dyn_tab.max_size then append_table_size [] e.min_size else [])
          e.dyn_tab.max_size,
    )
    else (e, [])

with_buf : Bytes → Option Encoder → Option (Encoder × Bytes)
with_buf buf none = none
with_buf buf (some e) = some (e, buf)

-- The rest of `WriteField`, after the search.
unfoldable pub write_found :
    Encoder → Bytes → HeaderField → Option (ℕ × Bool) → Option (Encoder × Bytes)
unfolding with_buf
write_found e buf f none = none
write_found e buf f (some (idx, true)) = some (e, append_indexed buf idx)
write_found e buf f (some (idx, false)) =
    let indexing = should_index e f in
    with_buf
      (if idx == 0 then append_new_name buf f indexing else append_indexed_name buf f idx indexing)
      (if indexing then with_dyn_tab e (add e.dyn_tab f) else some e)

-- `WriteField` up to its one call of `e.w.Write`: the encoder, and `e.buf`, which it hands to it.
unfoldable pub write_field : Encoder → HeaderField → Option (Encoder × Bytes)
write_field e f = let (e', buf) = write_size_update e in write_found e' buf f (search_table e' f)
