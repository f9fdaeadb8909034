-- ===== src/Hpack/Table/Index.antt =====
-- The maps of a table hold the id of the newest entry for each key, through `addEntry` and
-- `evictOldest`.
use fhttp.Base.{
  ℕ, zero, suc, ◌+◌, ◌^◌, ◌%◌, ◌≤◌, ◌<◌, ◌≡◌, refl, subst, Bool, some, List, [], ◌∷◌, Bytes, length,
  length-append, length-drop, le→ltb, drop, ◌==◌, if◌then◌else◌, bytes_eq_iff, bytes_eq_refl, arith,
}
use fhttp.Base.Word.{add64}
use fhttp.Hpack.Field.{HeaderField}
use fhttp.Hpack.Table.{
  HeaderFieldTable, empty_table, put_name, put_pair, add_entry, forget, forget_oldest, evict_oldest,
}
use fhttp.Hpack.Table.Newest.{last_pos, last_pos-cons, last_pos-concat, has_name, has_pair}

-- The id of the newest entry with the property, if the first entry of `es` has the id `base + 1`.
abbrev pub newest_id : ℕ → (HeaderField → Bool) → List HeaderField → ℕ
newest_id base p es = if last_pos p es == 0 then 0 else base + last_pos p es

pub record Indexes (base : ℕ) (es : List HeaderField) (t : HeaderFieldTable) : Type 0 where
  pub names : (n : Bytes) → t.by_name n ≡ newest_id base (has_name n) es
  pub pairs : (n v : Bytes) → t.by_name_value n v ≡ newest_id base (has_pair n v) es

pub record IsIndexed (t : HeaderFieldTable) : Type 0 where
  pub indexes : Indexes t.evict_count t.ents t
  pub ids_fit : t.evict_count + length t.ents + 1 < 2 ^ 64

pub empty_table-IsIndexed : IsIndexed empty_table
unfolding last_pos
empty_table-IsIndexed = record {
  indexes = record { names = λ n. refl; pairs = λ n v. refl };
  ids_fit = omega arith;
}

-- `addEntry` keeps the maps right, as long as there are ids left.
pub add_entry-IsIndexed :
    {t : HeaderFieldTable} (f : HeaderField)
    → IsIndexed t
    → t.evict_count + length t.ents + 2 < 2 ^ 64
    → IsIndexed (add_entry t f)
unfolding add_entry put_name put_pair
add_entry-IsIndexed {t} f v h = record {
  indexes = record {
    names = λ n. ground (arith, v.indexes.names n, last_pos-concat (has_name n) t.ents f);
    pairs = λ n w. ground (arith, v.indexes.pairs n w, last_pos-concat (has_pair n w) t.ents f);
  };
  ids_fit = omega (arith, length-append t.ents (f ∷ []));
}

module _ (base : ℕ) (f : HeaderField) (es : List HeaderField) (t : HeaderFieldTable)
    (x : Indexes base (f ∷ es) t) where
  forget_names :
      (n : Bytes) → (forget f (base + 1) t).by_name n ≡ newest_id (base + 1) (has_name n) es
  unfolding forget put_name
  forget_names n = ground (
    arith,
    x.names n,
    x.names f.name,
    bytes_eq_iff n f.name,
    bytes_eq_refl f.name,
    last_pos-cons (has_name n) f es,
    last_pos-cons (has_name f.name) f es,
  )

  forget_pairs :
      (n v : Bytes)
      → (forget f (base + 1) t).by_name_value n v ≡ newest_id (base + 1) (has_pair n v) es
  unfolding forget put_pair
  forget_pairs n v = ground (
    arith,
    x.pairs n v,
    x.pairs f.name f.value,
    bytes_eq_iff n f.name,
    bytes_eq_iff v f.value,
    bytes_eq_refl f.name,
    bytes_eq_refl f.value,
    last_pos-cons (has_pair n v) f es,
    last_pos-cons (has_pair f.name f.value) f es,
  )

  forget-Indexes : Indexes (base + 1) es (forget f (base + 1) t)
  forget-Indexes = record { names = forget_names; pairs = forget_pairs }

forget_oldest-Indexes :
    (n base : ℕ) (es : List HeaderField) (t : HeaderFieldTable)
    → Indexes base es t
    → n ≤ length es
    → base + length es + 1 < 2 ^ 64
    → Indexes (base + n) (drop n es) (forget_oldest n es (base + 1) t)
unfolding forget_oldest
forget_oldest-Indexes zero base es t x h fits = subst (λ b. Indexes b es t) (omega arith) x
forget_oldest-Indexes (suc n) base [] t x h fits = absurd (omega arith)
forget_oldest-Indexes (suc n) base (f ∷ es) t x h fits =
    subst (λ id. Indexes (base + suc n) (drop n es) (forget_oldest n es id (forget f (base + 1) t)))
      next_id
      (subst
        (λ b. Indexes b (drop n es) (forget_oldest n es (base + 1 + 1) (forget f (base + 1) t)))
        next_base
        (forget_oldest-Indexes n (base + 1) es (forget f (base + 1) t)
          (forget-Indexes base f es t x) (omega arith) (omega arith)))
  where
    next_id : base + 1 + 1 ≡ add64 (base + 1) 1
    next_id = omega arith

    next_base : base + 1 + n ≡ base + suc n
    next_base = omega arith

-- `evictOldest` does not panic on at most as many entries as there are, and keeps the maps right.
pub evict_oldest-IsIndexed :
    {t : HeaderFieldTable} (n : ℕ)
    → IsIndexed t
    → n ≤ length t.ents
    → (t' : HeaderFieldTable) × (evict_oldest t n ≡ some t')
      × IsIndexed t'
      × (t'.ents ≡ drop n t.ents)
      × (t'.evict_count ≡ t.evict_count + n)
unfolding evict_oldest
evict_oldest-IsIndexed {t} n v h = (
  after,
  rw (
    le→ltb (length t.ents) n h,
    fits,
    le→ltb (t.evict_count + n) t.evict_count (omega arith),
    next,
  ),
  record {
    indexes = record { names = kept.names; pairs = kept.pairs };
    ids_fit = omega (arith, v.ids_fit, length-drop n t.ents);
  },
  refl,
  refl,
)
  where
    kept :
        Indexes (t.evict_count + n) (drop n t.ents) (forget_oldest n t.ents (t.evict_count + 1) t)
    kept = forget_oldest-Indexes n t.evict_count t.ents t v.indexes h v.ids_fit

    after : HeaderFieldTable
    after = record (forget_oldest n t.ents (t.evict_count + 1) t) {
      ents = drop n t.ents;
      evict_count = t.evict_count + n;
    }

    fits : (t.evict_count + n) % 2 ^ 64 ≡ t.evict_count + n
    fits = omega (arith, v.ids_fit)

    next : (t.evict_count + 1) % 2 ^ 64 ≡ t.evict_count + 1
    next = omega (arith, v.ids_fit)
