-- ===== src/Hpack/DynTable/Bounded.antt =====
-- A dynamic table keeps its size right and within its maximum, and drops its oldest entries only.
use fhttp.Base.{
  ℕ, suc, ◌+◌, ◌^◌, ◌≤◌, ◌<◌, ◌≡◌, refl, ◌∙◌, ap, sym, subst, Option, some, List, [], ◌∷◌, ◌++◌,
  length, length-drop, drop, ltb, if◌then◌else◌, arith, Bool-cases, inl, inr,
}
use fhttp.Base.Word.{sub32, add32}
use fhttp.Hpack.Field.{HeaderField, size, true_size}
use fhttp.Hpack.Table.{HeaderFieldTable, add_entry, evict_oldest}
use fhttp.Hpack.Table.Index.{IsIndexed, add_entry-IsIndexed, evict_oldest-IsIndexed}
use fhttp.Hpack.DynTable.{DynamicTable, evict_scan, evict, set_max_size, add}

-- The sum of the sizes of the entries, with no wrap-around.
unfoldable pub total : List HeaderField → ℕ
total [] = 0
total (f ∷ es) = true_size f + total es

-- What RFC 7541, section 4.3 asks for: drop the oldest entries while the sum exceeds the maximum.
unfoldable pub trim : ℕ → List HeaderField → List HeaderField
trim max_size [] = []
trim max_size (f ∷ es) =
    let rest = trim max_size es in if ltb max_size (total (f ∷ es)) then rest else f ∷ es

pub record IsBounded (dt : DynamicTable) : Type 0 where
  pub indexed : IsIndexed dt.table
  pub size_is : dt.size ≡ total dt.table.ents
  pub within : dt.size ≤ dt.max_size
  pub max_fits : dt.max_size < 2 ^ 32

pub total-append : (xs ys : List HeaderField) → total (xs ++ ys) ≡ total xs + total ys
unfolding total
total-append [] ys = omega arith
total-append (f ∷ xs) ys = omega (arith, total-append xs ys)

pub trim-within : (max_size : ℕ) (es : List HeaderField) → total (trim max_size es) ≤ max_size
unfolding trim total
trim-within max_size [] = omega arith
trim-within max_size (f ∷ es) = ground (arith, trim-within max_size es)

pub trim_small :
    (max_size : ℕ) (es : List HeaderField) → total es ≤ max_size → trim max_size es ≡ es
unfolding trim total
trim_small max_size [] h = refl
trim_small max_size (f ∷ es) h = ground arith

-- The loop of `evict` on entries whose sum fits 32 bits.
evict_scan_lem :
    (max_size : ℕ) (es : List HeaderField) (n : ℕ)
    → total es < 2 ^ 32
    → (k : ℕ) × (evict_scan max_size es n (total es) ≡ (total (trim max_size es), n + k))
      × (drop k es ≡ trim max_size es)
      × (k ≤ length es)
unfolding evict_scan trim total
evict_scan_lem max_size [] n h = (0, ap (λ j. (0, j)) (omega arith), refl, omega arith)
evict_scan_lem max_size (f ∷ es) n h = elim (Bool-cases (ltb max_size (total (f ∷ es)))) [
  | inl big ↦
      let (k, scan, kept, len) = evict_scan_lem max_size es (n + 1) (omega arith) in
      (
        suc k,
        rw (big, minus) (scan ∙ ap (λ j. (total (trim max_size es), j)) (omega arith)),
        rw big kept,
        omega arith,
      )
  | inr small ↦
      (0, rw small (ap (λ j. (total (f ∷ es), j)) (omega arith)), rw small refl, omega arith)
]
  where
    minus : sub32 (total (f ∷ es)) (size f) ≡ total es
    minus = unfold size in omega arith

-- The table after an eviction of what `es` holds.
pub record Evicted (dt : DynamicTable) (es : List HeaderField) (r : Option DynamicTable)
    : Type 0 where
  pub after : DynamicTable
  pub returns : r ≡ some after
  pub bounded : IsBounded after
  pub ents : after.table.ents ≡ trim dt.max_size es
  pub max_size : after.max_size ≡ dt.max_size
  pub allowed : after.allowed_max_size ≡ dt.allowed_max_size
  pub count :
      after.table.evict_count + length after.table.ents
      ≡ dt.table.evict_count + length dt.table.ents

evict_steps :
    (dt : DynamicTable) (k sz : ℕ) (t : HeaderFieldTable)
    → evict_scan dt.max_size dt.table.ents 0 dt.size ≡ (sz, k)
    → evict_oldest dt.table k ≡ some t
    → evict dt ≡ some (record dt { table = t; size = sz })
unfolding evict
evict_steps dt k sz t scan evicted = rw (scan, evicted)

pub evict-Evicted :
    (dt : DynamicTable)
    → IsIndexed dt.table
    → dt.size ≡ total dt.table.ents
    → dt.size < 2 ^ 32
    → dt.max_size < 2 ^ 32
    → Evicted dt dt.table.ents (evict dt)
evict-Evicted dt x e h m =
    let (k, scan, kept, len) =
      evict_scan_lem dt.max_size dt.table.ents 0 (subst (λ s. s < 2 ^ 32) e h) in
    let (t, evicted, indexed, ents, count) = evict_oldest-IsIndexed k x len in
    let left : total t.ents ≡ total (trim dt.max_size dt.table.ents) = ap total (ents ∙ kept) in
    record {
      after = record dt { table = t; size = total (trim dt.max_size dt.table.ents) };
      returns = evict_steps dt k (total (trim dt.max_size dt.table.ents)) t (found k scan) evicted;
      bounded = record {
        indexed = indexed;
        size_is = sym left;
        within = trim-within dt.max_size dt.table.ents;
        max_fits = m;
      };
      ents = ents ∙ kept;
      max_size = refl;
      allowed = refl;
      count = omega (arith, count, ap length ents, length-drop k dt.table.ents);
    }
  where
    found :
        (k : ℕ)
        → evict_scan dt.max_size dt.table.ents 0 (total dt.table.ents)
          ≡ (total (trim dt.max_size dt.table.ents), 0 + k)
        → evict_scan dt.max_size dt.table.ents 0 dt.size
          ≡ (total (trim dt.max_size dt.table.ents), k)
    found k scan =
        ap (evict_scan dt.max_size dt.table.ents 0) e
        ∙ scan
        ∙ ap (λ j. (total (trim dt.max_size dt.table.ents), j)) (omega arith)

-- `setMaxSize` on a table that keeps its bound does not panic, keeps the bound, and drops just the
-- oldest entries that the new maximum has no room for.
pub set_max_size-Evicted :
    (dt : DynamicTable) (v : ℕ)
    → IsBounded dt
    → v < 2 ^ 32
    → Evicted (record dt { max_size = v }) dt.table.ents (set_max_size dt v)
unfolding set_max_size
set_max_size-Evicted dt v b h =
    evict-Evicted (record dt { max_size = v }) b.indexed b.size_is
      (omega (arith, b.within, b.max_fits)) h

abbrev pub appended : DynamicTable → HeaderField → DynamicTable
appended dt f = record dt { table = add_entry dt.table f; size = total (dt.table.ents ++ f ∷ []) }

size_after :
    (dt : DynamicTable) (f : HeaderField)
    → IsBounded dt
    → total (dt.table.ents ++ f ∷ []) < 2 ^ 32
    → add32 dt.size (size f) ≡ total (dt.table.ents ++ f ∷ [])
unfolding size total
size_after dt f b small = omega (arith, b.size_is, total-append dt.table.ents (f ∷ []))

-- `add` appends the entry, and then drops just the oldest entries that there is no room for, if the
-- sum of the sizes fits 32 bits and there are ids left.
pub add-Evicted :
    (dt : DynamicTable) (f : HeaderField)
    → IsBounded dt
    → total (dt.table.ents ++ f ∷ []) < 2 ^ 32
    → dt.table.evict_count + length dt.table.ents + 2 < 2 ^ 64
    → Evicted (appended dt f) (dt.table.ents ++ f ∷ []) (add dt f)
unfolding add add_entry
add-Evicted dt f b small ids =
    rw (size_after dt f b small)
      (evict-Evicted (appended dt f) (add_entry-IsIndexed f b.indexed ids) refl small b.max_fits)

pub length-le-total : (es : List HeaderField) → length es ≤ total es
unfolding total
length-le-total [] = omega arith
length-le-total (f ∷ es) = omega (arith, length-le-total es)
