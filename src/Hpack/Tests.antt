-- ===== src/Hpack/Tests.antt =====
-- Runs of package hpack, and its theorems at concrete inputs.
use fhttp.Base.{
  ℕ, ◌+◌, ◌-◌, ◌^◌, ◌≤◌, ◌<◌, ◌≡◌, refl, Bool, true, false, some, [], ◌∷◌, ◌++◌, Bytes, arith, ltb,
  if◌then◌else◌,
}
use fhttp.Hpack.Errors.{ok, err, varint_overflow}
use fhttp.Hpack.VarInt.{append_var_int, read_var_int, read_var_int_loop}
use fhttp.Hpack.VarInt.Limits.{read_var_int-append_var_int, read_var_int-append}
use fhttp.Hpack.Field.{HeaderField}
use fhttp.Hpack.Huffman.Append.{append_huffman_string-append}
use fhttp.Hpack.Table.{HeaderFieldTable, empty_table, add_entry, evict_oldest, search}
use fhttp.Hpack.Table.Index.{
  IsIndexed, empty_table-IsIndexed, add_entry-IsIndexed, evict_oldest-IsIndexed,
}
use fhttp.Hpack.Huffman.Octets.{AreOctets}
use fhttp.Hpack.Huffman.RoundTrip.{huffman_decode-append_huffman_string}
use fhttp.Hpack.Table.Search.{Finds, search-Finds}
use fhttp.Hpack.DynTable.{DynamicTable, add, set_max_size}
use fhttp.Hpack.DynTable.Bounded.{
  IsBounded, Evicted, appended, total, add-Evicted, set_max_size-Evicted,
}
use fhttp.Hpack.StaticTable.{codes}
use fhttp.Hpack.Huffman.{append_huffman_string, huffman_decode}
use fhttp.Hpack.Encoder.{Encoder, write_field, uint32_max}
use fhttp.Hpack.Decoder.{Decoder}
use fhttp.Hpack.Sync.{IsSynced, FieldFits}
use fhttp.Hpack.Sync.Write.{Sends, write_field-Sends}

abbrev custom : HeaderField
custom = record { name = codes "custom-key"; value = codes "custom-value"; sensitive = false }

abbrev fresh_table : DynamicTable
fresh_table = record { table = empty_table; size = 0; max_size = 4096; allowed_max_size = 4096 }

abbrev fresh_encoder : Encoder
fresh_encoder = record {
  dyn_tab = fresh_table;
  min_size = uint32_max;
  max_size_limit = 4096;
  table_size_update = false;
}

-- The octets of RFC 7541, appendix C.4.3, for this field.
abbrev custom_octets : Bytes
custom_octets =
    0x40 ∷ 0x88 ∷ 0x25 ∷ 0xa8 ∷ 0x49 ∷ 0xe9 ∷ 0x5b ∷ 0xa9 ∷ 0x7d ∷ 0x7f ∷ 0x89 ∷ 0x25 ∷ 0xa8 ∷ 0x49
    ∷ 0xe9 ∷ 0x5b ∷ 0xb8 ∷ 0xe8 ∷ 0xb4 ∷ 0xbf ∷ []

abbrev waiting_decoder : Decoder
waiting_decoder = record {
  dyn_tab = fresh_table;
  emitted = [];
  emit_enabled = true;
  max_str_len = 0;
  buf = custom_octets ++ 0x82 ∷ [];
  save_buf = [];
  first_field = true;
}

fresh_table-IsBounded : IsBounded fresh_table
unfolding total
fresh_table-IsBounded = record {
  indexed = empty_table-IsIndexed;
  size_is = refl;
  within = omega arith;
  max_fits = omega arith;
}

fresh-IsSynced : IsSynced fresh_encoder waiting_decoder
fresh-IsSynced = record {
  sent = fresh_table-IsBounded;
  received = fresh_table-IsBounded;
  same_ents = refl;
  same_max = refl;
  unlimited = refl;
  emits = refl;
}

custom_octets_lt : AreOctets custom.name × AreOctets custom.value
custom_octets_lt = (ground arith, ground arith)

custom-FieldFits : FieldFits fresh_encoder waiting_decoder custom
unfolding total
custom-FieldFits = record {
  short_name = omega arith;
  short_value = omega arith;
  name_octets = custom_octets_lt.0;
  value_octets = custom_octets_lt.1;
  sizes = omega arith;
  sent_ids = omega arith;
  received_ids = omega arith;
}

write_field-Sends_example :
    Sends waiting_decoder custom (0x82 ∷ []) (write_field fresh_encoder custom)
write_field-Sends_example =
    write_field-Sends fresh_encoder waiting_decoder custom (0x82 ∷ []) fresh-IsSynced
      custom-FieldFits refl

read_var_int-append_var_int_example :
    read_var_int 5 (append_var_int [] 5 1337 ++ 7 ∷ [])
    ≡ (if ltb 1337 (2 ^ 63 + (2 ^ 5 - 1)) then ok (1337, 7 ∷ []) else err varint_overflow)
read_var_int-append_var_int_example =
    read_var_int-append_var_int 5 1337 (7 ∷ []) (omega arith) (omega arith) (omega arith)

read_1337 : read_var_int 5 (31 ∷ 154 ∷ 10 ∷ []) ≡ ok (1337, [])
unfolding read_var_int read_var_int_loop
read_1337 = refl

read_var_int-append_example :
    (read_var_int 5 (31 ∷ 154 ∷ 10 ∷ 9 ∷ []) ≡ ok (1337, 9 ∷ [])) × (0 < 3) × (3 ≤ 0 + 10)
read_var_int-append_example = read_var_int-append 5 (31 ∷ 154 ∷ 10 ∷ []) (9 ∷ []) 1337 [] read_1337

one-IsIndexed : IsIndexed (add_entry empty_table custom)
one-IsIndexed = add_entry-IsIndexed custom empty_table-IsIndexed (omega arith)

add_entry-IsIndexed_example : IsIndexed (add_entry empty_table custom)
add_entry-IsIndexed_example = add_entry-IsIndexed custom empty_table-IsIndexed (omega arith)

evict_oldest-IsIndexed_example :
    (t : HeaderFieldTable) × (evict_oldest (add_entry empty_table custom) 1 ≡ some t)
    × IsIndexed t
    × (t.ents ≡ [])
    × (t.evict_count ≡ 1)
unfolding add_entry
evict_oldest-IsIndexed_example = evict_oldest-IsIndexed 1 one-IsIndexed (omega arith)

search-Finds_example :
    (r : ℕ × Bool) × (search false (add_entry empty_table custom) custom ≡ some r)
    × Finds false (custom ∷ []) custom r
unfolding add_entry
search-Finds_example = search-Finds false custom one-IsIndexed

add-Evicted_example : Evicted (appended fresh_table custom) (custom ∷ []) (add fresh_table custom)
unfolding total
add-Evicted_example =
    add-Evicted fresh_table custom fresh_table-IsBounded (omega arith) (omega arith)

set_max_size-Evicted_example :
    Evicted (record fresh_table { max_size = 100 }) [] (set_max_size fresh_table 100)
set_max_size-Evicted_example =
    set_max_size-Evicted fresh_table 100 fresh_table-IsBounded (omega arith)

append_huffman_string-append_example :
    append_huffman_string (7 ∷ []) (codes "abc") ≡ 7 ∷ append_huffman_string [] (codes "abc")
append_huffman_string-append_example = append_huffman_string-append (7 ∷ []) (codes "abc")

huffman_decode-append_huffman_string_example :
    huffman_decode 0 (append_huffman_string [] custom.name) ≡ ok custom.name
huffman_decode-append_huffman_string_example =
    huffman_decode-append_huffman_string custom.name custom_octets_lt.0
