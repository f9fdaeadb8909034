-- ===== src/Hpack/Table.antt =====
-- `headerFieldTable` of http2/hpack/tables.go: a list of header fields with two indexes.
pub mod Newest
pub mod Index
pub mod Search
use fhttp.Base.{
  ℕ, zero, suc, ◌+◌, ◌-◌, ◌%◌, Bool, true, false, not, ◌&&◌, Option, none, some, List, [], ◌∷◌,
  ◌++◌, Bytes, length, drop, ltb, leb, ◌==◌, if◌then◌else◌, bytes_eq,
}
use fhttp.Base.Word.{u64, add64, sub64}
use fhttp.Hpack.Field.{HeaderField}

-- The maps give 0 for a key that they do not hold, as a Go map of uint64 does; no id is 0.
pub record HeaderFieldTable : Type 0 where
  pub ents : List HeaderField
  pub evict_count : ℕ
  pub by_name : Bytes → ℕ
  pub by_name_value : Bytes → Bytes → ℕ

-- `init()` on a zero table
abbrev pub empty_table : HeaderFieldTable
empty_table = record { ents = []; evict_count = 0; by_name = λ n. 0; by_name_value = λ n v. 0 }

-- `m[k] = id`, and `delete(m, k)` with the id 0.
unfoldable pub put_name : Bytes → ℕ → (Bytes → ℕ) → Bytes → ℕ
put_name k id m n = if bytes_eq n k then id else m n

unfoldable pub put_pair : Bytes → Bytes → ℕ → (Bytes → Bytes → ℕ) → Bytes → Bytes → ℕ
put_pair k w id m n v = if bytes_eq n k && bytes_eq v w then id else m n v

unfoldable pub add_entry : HeaderFieldTable → HeaderField → HeaderFieldTable
add_entry t f =
    let id = add64 (add64 (length t.ents) t.evict_count) 1 in
    record {
      ents = t.ents ++ f ∷ [];
      evict_count = t.evict_count;
      by_name = put_name f.name id t.by_name;
      by_name_value = put_pair f.name f.value id t.by_name_value;
    }

-- One round of the loop of `evictOldest`, on the entry with this id.
unfoldable pub forget : HeaderField → ℕ → HeaderFieldTable → HeaderFieldTable
forget f id t = record t {
  by_name = (if t.by_name f.name == id then put_name f.name 0 t.by_name else t.by_name);
  by_name_value =
      (if t.by_name_value f.name f.value == id
        then put_pair f.name f.value 0 t.by_name_value
        else t.by_name_value);
}

-- `for k := 0; k < n; k++`, on the entries from `k` on; `id` is `t.evictCount + k + 1`.
unfoldable pub forget_oldest : ℕ → List HeaderField → ℕ → HeaderFieldTable → HeaderFieldTable
forget_oldest zero es id t = t
forget_oldest (suc n) [] id t = t
forget_oldest (suc n) (f ∷ es) id t = forget_oldest n es (add64 id 1) (forget f id t)

-- `none` is a panic.
unfoldable pub evict_oldest : HeaderFieldTable → ℕ → Option HeaderFieldTable
evict_oldest t n =
    if ltb (length t.ents) n
    then none
    else if ltb (add64 t.evict_count n) t.evict_count
    then none
    else some (record (forget_oldest n t.ents (add64 t.evict_count 1) t) {
      ents = drop n t.ents;
      evict_count = add64 t.evict_count n;
    })

-- The flag is `t == staticTable`; `none` is a panic.
unfoldable pub id_to_index : Bool → HeaderFieldTable → ℕ → Option ℕ
id_to_index is_static t id =
    if leb id t.evict_count
    then none
    else let k = sub64 (sub64 id t.evict_count) 1 in
      some (if is_static then add64 k 1 else sub64 (length t.ents) k)

abbrev index_result : Option ℕ → Bool → Option (ℕ × Bool)
index_result none match = none
index_result (some i) match = some (i, match)

search_name : Bool → HeaderFieldTable → Bytes → Option (ℕ × Bool)
search_name is_static t n =
    if t.by_name n == 0
    then some (0, false)
    else index_result (id_to_index is_static t (t.by_name n)) false

unfoldable pub search : Bool → HeaderFieldTable → HeaderField → Option (ℕ × Bool)
unfolding search_name
search is_static t f =
    if not f.sensitive && not (t.by_name_value f.name f.value == 0)
    then index_result (id_to_index is_static t (t.by_name_value f.name f.value)) true
    else search_name is_static t f.name
