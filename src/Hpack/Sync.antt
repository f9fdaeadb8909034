-- ===== src/Hpack/Sync.antt =====
-- An encoder and a decoder whose dynamic tables agree.
pub mod Lookup
pub mod Field
pub mod Write
use fhttp.Base.{
  ℕ, zero, suc, ◌+◌, ◌^◌, ◌≤◌, ◌<◌, ◌≡◌, Bool, true, false, List, [], ◌∷◌, ◌++◌, Bytes, length,
}
use fhttp.Hpack.Field.{HeaderField}
use fhttp.Hpack.DynTable.{DynamicTable}
use fhttp.Hpack.DynTable.Bounded.{IsBounded, total}
use fhttp.Hpack.Encoder.{Encoder}
use fhttp.Hpack.Decoder.{Decoder}
use fhttp.Hpack.Huffman.Octets.{AreOctets}

-- The two sides hold the same entries under the same maximum, both tables are well formed, and the
-- decoder has no limit on strings and emits what it reads.
pub record IsSynced (e : Encoder) (d : Decoder) : Type 0 where
  pub sent : IsBounded e.dyn_tab
  pub received : IsBounded d.dyn_tab
  pub same_ents : d.dyn_tab.table.ents ≡ e.dyn_tab.table.ents
  pub same_max : d.dyn_tab.max_size ≡ e.dyn_tab.max_size
  pub unlimited : d.max_str_len ≡ 0
  pub emits : d.emit_enabled ≡ true

-- What the field must satisfy to be sent: its strings are octets, and short enough, the sum of the
-- sizes fits 32 bits with it, and neither table has used up its ids.
pub record FieldFits (e : Encoder) (d : Decoder) (f : HeaderField) : Type 0 where
  pub short_name : length f.name < 2 ^ 58
  pub short_value : length f.value < 2 ^ 58
  pub name_octets : AreOctets f.name
  pub value_octets : AreOctets f.value
  pub sizes : total (e.dyn_tab.table.ents ++ f ∷ []) < 2 ^ 32
  pub sent_ids : e.dyn_tab.table.evict_count + length e.dyn_tab.table.ents + 2 < 2 ^ 64
  pub received_ids : d.dyn_tab.table.evict_count + length d.dyn_tab.table.ents + 2 < 2 ^ 64
