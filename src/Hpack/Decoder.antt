-- ===== src/Hpack/Decoder.antt =====
-- `Decoder` of http2/hpack/hpack.go.
pub mod Reads
use Prim.Native.Nat.{bit_and}
use fhttp.Base.{
  ℕ, zero, suc, ◌+◌, ◌-◌, ◌*◌, ◌%◌, Bool, true, false, not, ◌&&◌, ◌||◌, Option, none, some, List,
  [], ◌∷◌, ◌++◌, Bytes, length, get_elem?, take, drop, ltb, leb, ◌==◌, if◌then◌else◌,
}
use fhttp.Base.Word.{u32}
use fhttp.Hpack.Errors.{
  Error, Result, ok, err, panic, ◌>>=◌, need_more, string_length, invalid_index, invalid_encoding,
  update_not_first, update_too_large, truncated_headers,
}
use fhttp.Hpack.VarInt.{read_var_int}
use fhttp.Hpack.Field.{HeaderField}
use fhttp.Hpack.Table.{empty_table}
use fhttp.Hpack.DynTable.{DynamicTable, set_max_size, add}
use fhttp.Hpack.StaticTable.{new_static_table}
use fhttp.Hpack.Huffman.{huffman_decode}

-- `emitted` is the list of the fields that the callback `emit` was called with, in order.
pub record Decoder : Type 0 where
  pub dyn_tab : DynamicTable
  pub emitted : List HeaderField
  pub emit_enabled : Bool
  pub max_str_len : ℕ
  pub buf : Bytes
  pub save_buf : Bytes
  pub first_field : Bool

-- What a method on the decoder leaves: its state with `nil` or an error, or a panic.
pub data Outcome : Type 0 where
  done : Decoder → Outcome
  fails : Decoder → Error → Outcome
  panics : Outcome

-- A result that a method returns early if it is an error, with the decoder as it then is.
abbrev pub use_result {ℓ} : {A : Type ℓ} → Decoder → Result A → (A → Outcome) → Outcome
use_result d (ok a) k = k a
use_result d (err e) k = fails d e
use_result d panic k = panics

abbrev pub use_tab : Option DynamicTable → (DynamicTable → Outcome) → Outcome
use_tab none k = panics
use_tab (some dt) k = k dt

unfoldable pub new_decoder : ℕ → Option Decoder
new_decoder max_dynamic_table_size =
    let tab : DynamicTable = record {
      table = empty_table;
      size = 0;
      max_size = 0;
      allowed_max_size = max_dynamic_table_size;
    } in
    elim (set_max_size tab max_dynamic_table_size) [
      | none ↦ none
      | some dt ↦ some (record {
        dyn_tab = dt;
        emitted = [];
        emit_enabled = true;
        max_str_len = 0;
        buf = [];
        save_buf = [];
        first_field = true;
      })
    ]

abbrev pub static_len : ℕ
unfolding new_static_table
static_len = length new_static_table.ents

unfoldable pub max_table_index : Decoder → ℕ
max_table_index d = length d.dyn_tab.table.ents + length new_static_table.ents

-- `some none` is the answer `ok == false`, and `none` an index out of range.
found : Option HeaderField → Option (Option HeaderField)
found none = none
found (some f) = some (some f)

unfoldable pub at : Decoder → ℕ → Option (Option HeaderField)
unfolding found
at d i =
    let statics = new_static_table.ents in
    let ents = d.dyn_tab.table.ents in
    if i == 0
    then some none
    else if leb i (length statics)
    then found (get_elem? statics (i - 1))
    else if ltb (max_table_index d) i
    then some none
    else found (get_elem? ents (length ents - (i - length statics)))

-- The entry at an index, or the decoding error.
unfoldable pub entry : Decoder → ℕ → Result HeaderField
entry d i = elim (at d i) [
  | none ↦ panic
  | some r ↦ elim r [ none ↦ err (invalid_index i) | some f ↦ ok f ]
]

unfoldable pub string_body : Decoder → Bool → Bool → ℕ → Bytes → Result (Bytes × Bytes)
string_body d want_str is_huff str_len p =
    if not (d.max_str_len == 0) && ltb d.max_str_len str_len
    then err string_length
    else if ltb (length p) str_len
    then err need_more
    else if not want_str
    then ok ([], drop str_len p)
    else if not is_huff
    then ok (take str_len p, drop str_len p)
    else (huffman_decode d.max_str_len (take str_len p) >>= λ s. ok (s, drop str_len p))

unfoldable pub read_string : Decoder → Bytes → Bool → Result (Bytes × Bytes)
read_string d [] want_str = err need_more
read_string d (b ∷ p) want_str =
    read_var_int 7 (b ∷ p) >>= λ r. string_body d want_str (not (bit_and b 128 == 0)) r.0 r.1

unfoldable pub call_emit : Decoder → HeaderField → Outcome
call_emit d hf =
    if not (d.max_str_len == 0)
      && (ltb d.max_str_len (length hf.name) || ltb d.max_str_len (length hf.value))
    then fails d string_length
    else if d.emit_enabled
    then done (record d { emitted = d.emitted ++ hf ∷ [] })
    else done d

unfoldable pub parse_field_indexed : Decoder → Outcome
parse_field_indexed d = use_result d (read_var_int 7 d.buf) λ r. use_result d (entry d r.0) λ hf.
    call_emit (record d { buf = r.1 })
      (record { name = hf.name; value = hf.value; sensitive = false })

pub data IndexType : Type 0 where
  indexed_true indexed_false indexed_never : IndexType

abbrev pub indexed : IndexType → Bool
indexed indexed_true = true
indexed indexed_false = false
indexed indexed_never = false

abbrev pub sensitive : IndexType → Bool
sensitive indexed_true = false
sensitive indexed_false = false
sensitive indexed_never = true

-- The name of a literal: that of the entry at the index, or a string where the index is 0.
unfoldable pub literal_name : Decoder → ℕ → Bytes → Bool → Result (Bytes × Bytes)
literal_name d name_idx p want_str =
    if ltb 0 name_idx
    then (entry d name_idx >>= λ hf. ok (hf.name, p))
    else read_string d p want_str

unfoldable pub finish_literal : Decoder → IndexType → Bytes → Bytes → Bytes → Outcome
finish_literal d it n v rest =
    let hf : HeaderField = record { name = n; value = v; sensitive = false } in
    let tagged : HeaderField = record { name = n; value = v; sensitive = sensitive it } in
    use_tab (if indexed it then add d.dyn_tab hf else some d.dyn_tab)
      λ dt. call_emit (record d { buf = rest; dyn_tab = dt }) tagged

unfoldable pub parse_field_literal : Decoder → ℕ → IndexType → Outcome
parse_field_literal d n it =
    let want_str = d.emit_enabled || indexed it in
    use_result d (read_var_int n d.buf) λ r.
      use_result d (literal_name d r.0 r.1 want_str)
        λ s. use_result d (read_string d s.1 want_str) λ v. finish_literal d it s.0 v.0 v.1

unfoldable pub parse_dynamic_table_size_update : Decoder → Outcome
parse_dynamic_table_size_update d =
    if not d.first_field && ltb 0 d.dyn_tab.size
    then fails d update_not_first
    else use_result d (read_var_int 5 d.buf) λ r.
      if ltb d.dyn_tab.allowed_max_size r.0
      then fails d update_too_large
      else use_tab (set_max_size d.dyn_tab (r.0 % u32))
          λ dt. done (record d { dyn_tab = dt; buf = r.1 })

-- The switch on the first octet.
unfoldable pub dispatch : Decoder → ℕ → Outcome
dispatch d b =
    if not (bit_and b 128 == 0)
    then parse_field_indexed d
    else if bit_and b 192 == 64
    then parse_field_literal d 6 indexed_true
    else if bit_and b 240 == 0
    then parse_field_literal d 4 indexed_false
    else if bit_and b 240 == 16
    then parse_field_literal d 4 indexed_never
    else if bit_and b 224 == 32
    then parse_dynamic_table_size_update d
    else fails d invalid_encoding

parse_at : Decoder → Bytes → Outcome
parse_at d [] = panics
parse_at d (b ∷ p) = dispatch d b

unfoldable pub parse_header_field_repr : Decoder → Outcome
unfolding parse_at
parse_header_field_repr d = parse_at d d.buf

-- What one round of the loop of `Write` does with the outcome; `next` is the rest of the loop.
unfoldable pub after_repr : Outcome → (Decoder → Outcome) → Outcome
after_repr (done d) next = next (record d { first_field = false })
after_repr panics next = panics
after_repr (fails d need_more) next =
    if not (d.max_str_len == 0) && ltb (2 * (d.max_str_len + 8)) (length d.buf)
    then fails d string_length
    else done (record d { save_buf = d.save_buf ++ d.buf })
after_repr (fails d e) next = fails (record d { first_field = false }) e

-- The loop of `Write`: each round takes an octet of `d.buf` at least.
unfoldable pub write_loop : ℕ → Decoder → Outcome
write_loop zero d = done d
write_loop (suc rounds) d = elim d.buf [
  | [] ↦ done d
  | b ∷ p ↦ after_repr (parse_header_field_repr d) λ e. write_loop rounds e
]

-- `Write`; the number of octets that it returns is left out: it is `len(p)` but for one error.
unfoldable pub write : Decoder → Bytes → Outcome
write d [] = done d
write d (b ∷ p) =
    let input = d.save_buf ++ b ∷ p in
    write_loop (length input) (record d { buf = input; save_buf = [] })

unfoldable pub close : Decoder → Outcome
close d = elim d.save_buf [
  | [] ↦ done (record d { first_field = true })
  | b ∷ p ↦ fails (record d { save_buf = [] }) truncated_headers
]
