-- ===== src/Hpack/Table/Search.antt =====
-- `search` returns the HPACK index of the newest entry that fits, and `ents` holds it there.
use fhttp.Base.{
  ℕ, ◌+◌, ◌-◌, ◌≤◌, ◌<◌, ◌≡◌, ◌≢◌, refl, ◌∙◌, ap, sym, Bool, true, false, not, ◌&&◌, Option, some,
  List, Bytes, length, get_elem?, drop, ◌==◌, if◌then◌else◌, bytes_eq, bytes_eq_iff, arith, All,
  Bool-cases, inl, inr,
}
use fhttp.Hpack.Field.{HeaderField}
use fhttp.Hpack.Table.{HeaderFieldTable, id_to_index, search}
use fhttp.Hpack.Table.Newest.{
  last_pos, last_pos-le, last_pos_hit, last_pos_miss, last_pos_newest, has_name, has_pair,
}
use fhttp.Hpack.Table.Index.{newest_id, IsIndexed}

-- The entry at a 1-based index: of the static table, and of a dynamic one, whose newest entry has
-- the index 1.
unfoldable pub entry_at : Bool → List HeaderField → ℕ → Option HeaderField
entry_at is_static es i = if is_static then get_elem? es (i - 1) else get_elem? es (length es - i)

index_of : Bool → ℕ → ℕ → ℕ
index_of is_static len pos = if is_static then pos else len - pos + 1

id_to_index_lem :
    (is_static : Bool) {t : HeaderFieldTable} (pos : ℕ)
    → IsIndexed t
    → 0 < pos
    → pos ≤ length t.ents
    → id_to_index is_static t (t.evict_count + pos) ≡ some (index_of is_static (length t.ents) pos)
unfolding id_to_index index_of
id_to_index_lem is_static pos v h1 h2 = ground (arith, v.ids_fit)

entry_at-index_of :
    (is_static : Bool) (es : List HeaderField) (pos : ℕ)
    → 0 < pos
    → pos ≤ length es
    → (entry_at is_static es (index_of is_static (length es) pos) ≡ get_elem? es (pos - 1))
      × (0 < index_of is_static (length es) pos)
      × (index_of is_static (length es) pos ≤ length es)
unfolding entry_at index_of
entry_at-index_of true es pos h1 h2 = ground arith
entry_at-index_of false es pos h1 h2 = (ap (get_elem? es) (omega arith), omega arith, omega arith)

-- The place in `ents`, counted from 1, of an index.
abbrev pub position : Bool → ℕ → ℕ → ℕ
position is_static len i = if is_static then i else len - i + 1

position-index_of :
    (is_static : Bool) (len pos : ℕ)
    → 0 < pos
    → pos ≤ len
    → position is_static len (index_of is_static len pos) ≡ pos
unfolding index_of
position-index_of true len pos h1 h2 = refl
position-index_of false len pos h1 h2 = omega arith

-- What `search` promises of its result on a list of entries.
pub record Finds (is_static : Bool) (es : List HeaderField) (f : HeaderField) (r : ℕ × Bool)
    : Type 0 where
  pub in_range : r.0 ≤ length es
  -- a full match holds the name and the value, and is never looked for where `f` is sensitive
  pub full :
      r.1 ≡ true
      → (0 < r.0)
        × (f.sensitive ≡ false)
        × ((g : HeaderField) × (entry_at is_static es r.0 ≡ some g)
            × (g.name ≡ f.name)
            × (g.value ≡ f.value))
  pub named : 0 < r.0 → (g : HeaderField) × (entry_at is_static es r.0 ≡ some g) × (g.name ≡ f.name)
  -- no entry that was added after the answer fits as well
  pub newest_pair :
      r.1 ≡ true
      → All (λ g. has_pair f.name f.value g ≡ false) (drop (position is_static (length es) r.0) es)
  pub newest_name :
      r.1 ≡ false
      → 0 < r.0
      → All (λ g. has_name f.name g ≡ false) (drop (position is_static (length es) r.0) es)
  -- the index 0 is the answer only where no entry has the name
  pub absent : r.0 ≡ 0 → All (λ g. bytes_eq f.name g.name ≡ false) es
  -- the answer without a full match is given only where `f` is sensitive or no entry equals it
  pub partial : r.1 ≡ false → f.sensitive ≡ false → All (λ g. has_pair f.name f.value g ≡ false) es

ne→== : (a : ℕ) → a ≢ 0 → (a == 0) ≡ false
ne→== a h = ground arith

has_pair_eq : (n v : Bytes) (g : HeaderField) → has_pair n v g ≡ true → (g.name ≡ n) × (g.value ≡ v)
has_pair_eq n v g h = ground (arith, bytes_eq_iff n g.name, bytes_eq_iff v g.value)

module _ (is_static : Bool) {t : HeaderFieldTable} (f : HeaderField) (v : IsIndexed t) where
  -- The three answers of `search`.
  hit :
      (p : HeaderField → Bool)
      → last_pos p t.ents ≢ 0
      → (i : ℕ) × (id_to_index is_static t (newest_id t.evict_count p t.ents) ≡ some i)
        × (0 < i)
        × (i ≤ length t.ents)
        × ((g : HeaderField) × (entry_at is_static t.ents i ≡ some g) × (p g ≡ true))
        × All (λ g. p g ≡ false) (drop (position is_static (length t.ents) i) t.ents)
  hit p h =
      let pos : ℕ = last_pos p t.ents in
      let place = entry_at-index_of is_static t.ents pos (omega arith) (last_pos-le p t.ents) in
      let (g, at, good) = last_pos_hit p t.ents h in
      (
        index_of is_static (length t.ents) pos,
        rw (ne→== pos h) (id_to_index_lem is_static pos v (omega arith) (last_pos-le p t.ents)),
        place.1,
        place.2,
        (g, place.0 ∙ at, good),
        rw (position-index_of is_static (length t.ents) pos (omega arith) (last_pos-le p t.ents))
            (last_pos_newest p t.ents),
      )

  search_pair :
      (i : ℕ)
      → f.sensitive ≡ false
      → t.by_name_value f.name f.value ≢ 0
      → id_to_index is_static t (t.by_name_value f.name f.value) ≡ some i
      → search is_static t f ≡ some (i, true)
  unfolding search
  search_pair i open_field found there = rw (open_field, ne→== _ found, there)

  search_by_name :
      (i : ℕ)
      → (not f.sensitive && not (t.by_name_value f.name f.value == 0)) ≡ false
      → t.by_name f.name ≢ 0
      → id_to_index is_static t (t.by_name f.name) ≡ some i
      → search is_static t f ≡ some (i, false)
  unfolding search
  search_by_name i missed found there = rw (missed, ne→== _ found, there)

  full_match :
      f.sensitive ≡ false
      → t.by_name_value f.name f.value ≢ 0
      → (r : ℕ × Bool) × (search is_static t f ≡ some r) × Finds is_static t.ents f r
  full_match open_field found =
      let e = v.indexes.pairs f.name f.value in
      let (i, there, pos, len, entry, newest) =
        hit (has_pair f.name f.value) (λ z. found (e ∙ rw z refl)) in
      let (g, at, good) = entry in
      let same = has_pair_eq f.name f.value g good in
      (
        (i, true),
        search_pair i open_field found (rw e there),
        record {
          in_range = len;
          full = λ _. (pos, open_field, (g, at, same.0, same.1));
          named = λ _. (g, at, same.0);
          newest_pair = λ _. newest;
          newest_name = λ z. cc;
          absent = λ z. absurd (omega arith);
          partial = λ z. cc;
        },
      )

  no_pair :
      (not f.sensitive && not (t.by_name_value f.name f.value == 0)) ≡ false
      → f.sensitive ≡ false
      → All (λ g. has_pair f.name f.value g ≡ false) t.ents
  no_pair missed open_field =
      last_pos_miss (has_pair f.name f.value) t.ents
        (ground (arith, v.indexes.pairs f.name f.value))

  name_match :
      (not f.sensitive && not (t.by_name_value f.name f.value == 0)) ≡ false
      → t.by_name f.name ≢ 0
      → (r : ℕ × Bool) × (search is_static t f ≡ some r) × Finds is_static t.ents f r
  name_match missed found =
      let e = v.indexes.names f.name in
      let (i, there, pos, len, entry, newest) =
        hit (has_name f.name) (λ z. found (e ∙ rw z refl)) in
      let (g, at, good) = entry in
      (
        (i, false),
        search_by_name i missed found (rw e there),
        record {
          in_range = len;
          full = λ z. cc;
          named = λ _. (g, at, sym ((bytes_eq_iff f.name g.name).0 good));
          newest_pair = λ z. cc;
          newest_name = λ _ _. newest;
          absent = λ z. absurd (omega arith);
          partial = λ _. no_pair missed;
        },
      )

  no_match :
      (not f.sensitive && not (t.by_name_value f.name f.value == 0)) ≡ false
      → t.by_name f.name ≡ 0
      → (r : ℕ × Bool) × (search is_static t f ≡ some r) × Finds is_static t.ents f r
  unfolding search
  no_match missed gone = (
    (0, false),
    rw (missed, gone) refl,
    record {
      in_range = omega arith;
      full = λ z. cc;
      named = λ z. absurd (omega arith);
      newest_pair = λ z. cc;
      newest_name = λ _ z. absurd (omega arith);
      absent = λ _. last_pos_miss (has_name f.name) t.ents (ground (arith, v.indexes.names f.name));
      partial = λ _. no_pair missed;
    },
  )

  -- On a table whose maps are right `search` does not panic. If it answers a full match, the field is
  -- not sensitive and the index is that of the newest entry with its name and value; else an index
  -- above 0 is that of the newest entry with the name, 0 is answered only where no entry has the
  -- name, and an entry with the name and the value is passed over only for a sensitive field.
  pub search-Finds : (r : ℕ × Bool) × (search is_static t f ≡ some r) × Finds is_static t.ents f r
  search-Finds = elim (Bool-cases (not f.sensitive && not (t.by_name_value f.name f.value == 0))) [
    | inl both ↦ full_match (ground arith) (ground arith)
    | inr missed ↦ elim (Bool-cases (t.by_name f.name == 0)) [
      | inl gone ↦ no_match missed (ground arith)
      | inr found ↦ name_match missed (ground arith)
    ]
  ]
