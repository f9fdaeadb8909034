-- ===== src/Hpack/Sync/Lookup.antt =====
-- The decoder finds at the index that `searchTable` returns the entry that the encoder found there.
use fhttp.Base.{
  ℕ, ◌+◌, ◌-◌, ◌^◌, ◌≤◌, ◌<◌, ◌≡◌, refl, sym, subst, Bool, true, false, ◌⊎◌, not, ◌&&◌, ◌||◌, some,
  length, ◌==◌, arith, Bool-cases, inl, inr,
}
use fhttp.Base.Word.{add64}
use fhttp.Hpack.Errors.{ok}
use fhttp.Hpack.Field.{HeaderField}
use fhttp.Hpack.Table.Index.{IsIndexed}
use fhttp.Hpack.Table.Search.{entry_at, Finds, search-Finds}
use fhttp.Hpack.StaticTable.{new_static_table, new_static_table-IsIndexed, length-new_static_table}
use fhttp.Hpack.Encoder.{Encoder, search_table, search_with, combine}
use fhttp.Hpack.Decoder.{Decoder, entry, at, max_table_index}

-- The answer of `searchTable` as the decoder reads it.
pub record Points (d : Decoder) (f : HeaderField) (r : ℕ × Bool) : Type 0 where
  pub in_range : r.0 < 2 ^ 63
  pub full :
      r.1 ≡ true
      → (f.sensitive ≡ false)
        × ((g : HeaderField) × (entry d r.0 ≡ ok g) × (g.name ≡ f.name) × (g.value ≡ f.value))
  pub named : 0 < r.0 → (g : HeaderField) × (entry d r.0 ≡ ok g) × (g.name ≡ f.name)

module _ (d : Decoder) where
  entry_static :
      (i : ℕ) {g : HeaderField}
      → 0 < i
      → i ≤ 61
      → entry_at true new_static_table.ents i ≡ some g
      → entry d i ≡ ok g
  unfolding entry at entry_at
  entry_static i h1 h2 e = ground (arith, length-new_static_table)

  entry_dynamic :
      (j : ℕ) {g : HeaderField}
      → 0 < j
      → j ≤ length d.dyn_tab.table.ents
      → entry_at false d.dyn_tab.table.ents j ≡ some g
      → entry d (j + 61) ≡ ok g
  unfolding entry at entry_at max_table_index
  entry_dynamic j h1 h2 e =
      let len : ℕ = length d.dyn_tab.table.ents in
      let back : len - (j + 61 - length new_static_table.ents) ≡ len - j =
        omega (arith, length-new_static_table) in
      ground (arith, length-new_static_table, back)

module _ (e : Encoder) (d : Decoder) (f : HeaderField) where
  static-Points : (r : ℕ × Bool) → Finds true new_static_table.ents f r → Points d f r
  static-Points r v = record {
    in_range = omega (arith, v.in_range, length-new_static_table);
    full = λ m.
        let (pos, open_field, hit) = v.full m in
        let (g, there, n, w) = hit in
        (open_field, (g, entry_static d r.0 pos (range v.in_range) there, n, w));
    named = λ pos.
        let (g, there, n) = v.named pos in (g, entry_static d r.0 pos (range v.in_range) there, n);
  }
    where
      range : r.0 ≤ length new_static_table.ents → r.0 ≤ 61
      range h = omega (arith, length-new_static_table)

  dynamic-Points :
      (r : ℕ × Bool)
      → Finds false d.dyn_tab.table.ents f r
      → length d.dyn_tab.table.ents < 2 ^ 62
      → (r.1 ≡ true) ⊎ (0 < r.0)
      → Points d f (r.0 + 61, r.1)
  dynamic-Points r v small use_it = record {
    in_range = omega (arith, v.in_range);
    full = λ m.
        let (pos, open_field, hit) = v.full m in
        let (g, there, n, w) = hit in
        (open_field, (g, entry_dynamic d r.0 pos v.in_range there, n, w));
    named = λ _.
        let (g, there, n) = v.named (positive use_it) in
        (g, entry_dynamic d r.0 (positive use_it) v.in_range there, n);
  }
    where
      positive : (r.1 ≡ true) ⊎ (0 < r.0) → 0 < r.0
      positive (inl m) = (v.full m).0
      positive (inr h) = h

  combined :
      (s t : ℕ × Bool)
      → Finds true new_static_table.ents f s
      → Finds false d.dyn_tab.table.ents f t
      → length d.dyn_tab.table.ents < 2 ^ 62
      → (r : ℕ × Bool) × (combine s (some t) ≡ some r) × Points d f r
  unfolding combine
  combined (i, true) t fs ft small = ((i, true), refl, static-Points (i, true) fs)
  combined (i, false) (j, m) fs ft small = elim (Bool-cases (m || (i == 0 && not (j == 0)))) [
    | inl dynamic ↦
        let shifted : add64 j (length new_static_table.ents) ≡ j + 61 =
          omega (arith, length-new_static_table, ft.in_range) in
        ((j + 61, m), rw (dynamic, shifted), dynamic-Points (j, m) ft small (ground arith))
    | inr static ↦ ((i, false), rw static, static-Points (i, false) fs)
  ]

  -- `searchTable` does not panic, and its answer points the decoder to the entry that it found.
  pub search_table-Points :
      IsIndexed e.dyn_tab.table
      → d.dyn_tab.table.ents ≡ e.dyn_tab.table.ents
      → length e.dyn_tab.table.ents < 2 ^ 62
      → (r : ℕ × Bool) × (search_table e f ≡ some r) × Points d f r
  unfolding search_table search_with
  search_table-Points v same small =
      let (s, found, fs) = search-Finds true f new_static_table-IsIndexed in
      let (t, seen, ft) = search-Finds false f v in
      let (r, joined, points) =
        combined s t fs (subst (λ es. Finds false es f t) (sym same) ft)
          (subst (λ es. length es < 2 ^ 62) (sym same) small) in
      (r, rw (found, seen) joined, points)
