-- ===== src/Hpack/DynTable.antt =====
-- `dynamicTable` of http2/hpack/hpack.go: a header table with a bound on its size in octets.
pub mod Bounded
use fhttp.Base.{
  ℕ, zero, suc, ◌+◌, ◌-◌, ◌%◌, Bool, true, false, not, ◌&&◌, Option, none, some, List, [], ◌∷◌,
  Bytes, ltb, if◌then◌else◌,
}
use fhttp.Base.Word.{add32, sub32}
use fhttp.Hpack.Field.{HeaderField, size}
use fhttp.Hpack.Table.{HeaderFieldTable, empty_table, add_entry, evict_oldest}

pub record DynamicTable : Type 0 where
  pub table : HeaderFieldTable
  pub size : ℕ
  pub max_size : ℕ
  pub allowed_max_size : ℕ

-- The loop of `evict` on the entries from `n` on: the size that is left, and `n`.
unfoldable pub evict_scan : ℕ → List HeaderField → ℕ → ℕ → ℕ × ℕ
evict_scan max_size [] n sz = (sz, n)
evict_scan max_size (f ∷ es) n sz =
    let more = evict_scan max_size es (n + 1) (sub32 sz (size f)) in
    if ltb max_size sz then more else (sz, n)

with_table : DynamicTable → ℕ → Option HeaderFieldTable → Option DynamicTable
with_table dt sz none = none
with_table dt sz (some t) = some (record dt { table = t; size = sz })

-- `none` is a panic, here and below.
unfoldable pub evict : DynamicTable → Option DynamicTable
unfolding with_table
evict dt =
    let (sz, n) = evict_scan dt.max_size dt.table.ents 0 dt.size in
    with_table dt sz (evict_oldest dt.table n)

unfoldable pub set_max_size : DynamicTable → ℕ → Option DynamicTable
set_max_size dt v = evict (record dt { max_size = v })

unfoldable pub add : DynamicTable → HeaderField → Option DynamicTable
add dt f = evict (record dt { table = add_entry dt.table f; size = add32 dt.size (size f) })
