-- ===== src/Fs/Range/Bounds.antt =====
-- The ranges that `parseRange` answers lie within the content (fs.go).
use fhttp.Base.{
  ℕ, ◌+◌, ◌-◌, ◌^◌, ◌≤◌, ◌<◌, ◌≡◌, inl, inr, refl, ap₂, subst, ◌∙◌, Bool, true, false, ◌&&◌, Option,
  none, some, List, [], ◌∷◌, ◌++◌, Bytes, has_prefix, length, drop, ltb, leb, ◌==◌, arith,
  Bool-cases, All, All-append,
}
use fhttp.Base.Word.{sub64}
use fhttp.Base.Int64.{signed_ltb64, signed_leb64, ord64}
use fhttp.Base.Options.{◌>>=◌}
use fhttp.Fs.{trim_string}
use fhttp.Base.Text.{cut, split}
use fhttp.Fs.Range.{
  parse_uint, to_int64, parse_int, HttpRange, Part, skipped, bad, apart, ranged, suffix_value,
  suffix_part, end_value, end_part, start_value, part_between, cut_part, parse_part, Parsed,
  invalid_range, ranges, parse_parts, parse_range, bytes_unit,
}

-- An int64 as `ParseInt` returns it.
to_int64_bound : (b : Bool) (n i : ℕ) → to_int64 b n ≡ some i → i < 2 ^ 64
unfolding to_int64
to_int64_bound true n i h = elim (Bool-cases (ltb (2 ^ 63) n)) [
  | inl over ↦ let t : none ≡ some i = rw over at h in cc
  | inr fits ↦
      let t : some (sub64 0 n) ≡ some i = rw fits at h in let e : sub64 0 n ≡ i = cc in omega arith
]
to_int64_bound false n i h = elim (Bool-cases (ltb n (2 ^ 63))) [
  | inl fits ↦ let t : some n ≡ some i = rw fits at h in let e : n ≡ i = cc in ground arith
  | inr over ↦ let t : none ≡ some i = rw over at h in cc
]

bind_bound : (b : Bool) (o : Option ℕ) (i : ℕ) → (o >>= to_int64 b) ≡ some i → i < 2 ^ 64
bind_bound b none i h = cc
bind_bound b (some n) i h = to_int64_bound b n i h

parse_int_bound : (s : Bytes) (i : ℕ) → parse_int s ≡ some i → i < 2 ^ 64
unfolding parse_int
parse_int_bound [] i h = cc
parse_int_bound (c ∷ s) i h = elim (Bool-cases (c == 0x2b)) [
  | inl plus ↦ bind_bound false (parse_uint s) i (rw plus at h)
  | inr other ↦ elim (Bool-cases (c == 0x2d)) [
    | inl minus ↦ bind_bound true (parse_uint s) i (rw (other, minus) at h)
    | inr digit ↦ bind_bound false (parse_uint (c ∷ s)) i (rw (other, digit) at h)
  ]
]

-- A range stands within a content of `size` bytes.
abbrev pub IsWithin : ℕ → HttpRange → Type 0
IsWithin size r = r.start + r.length ≤ size

-- What a part may be: a range within the content, or none.
abbrev IsSound : ℕ → Part → Type 0
IsSound size (ranged r) = IsWithin size r
IsSound size _ = Unit

-- On numbers below 2^63 the int64 operations are those of the numbers.
pub natural-lt : (i : ℕ) → i < 2 ^ 64 → signed_ltb64 i 0 ≡ false → i < 2 ^ 63
natural-lt i h s = ground arith

pub signed_ltb64-ltb : (a b : ℕ) → a < 2 ^ 63 → b < 2 ^ 63 → signed_ltb64 a b ≡ ltb a b
signed_ltb64-ltb a b g h =
    ap₂ ltb (let e : ord64 a ≡ a + 2 ^ 63 = omega arith in e)
      (let e : ord64 b ≡ b + 2 ^ 63 = omega arith in e)
    ∙ ground arith

pub signed_leb64-leb : (a b : ℕ) → a < 2 ^ 63 → b < 2 ^ 63 → signed_leb64 a b ≡ leb a b
signed_leb64-leb a b g h =
    ap₂ leb (let e : ord64 a ≡ a + 2 ^ 63 = omega arith in e)
      (let e : ord64 b ≡ b + 2 ^ 63 = omega arith in e)
    ∙ ground arith

not_before : (i j : ℕ) → i < 2 ^ 63 → j < 2 ^ 64 → signed_ltb64 j i ≡ false → (i ≤ j) × (j < 2 ^ 63)
not_before i j g h s = ground arith

pub sub64_natural : (a b : ℕ) → a < 2 ^ 63 → b ≤ a → sub64 a b ≡ a - b
sub64_natural a b g h = omega arith

module _ (size : ℕ) (small : size < 2 ^ 63) where
  -- The rest of the content from `start` on.
  rest_within : (start : ℕ) → start ≤ size → start + sub64 size start ≤ size
  rest_within start h = rw (sub64_natural size start small h) (omega arith)

  suffix-IsSound :
      (o : Option ℕ) → ((i : ℕ) → o ≡ some i → i < 2 ^ 64) → IsSound size (suffix_value size o)
  unfolding suffix_value
  suffix-IsSound none h = tt
  suffix-IsSound (some i) h = elim (Bool-cases (signed_ltb64 i 0)) [
    | inl negative ↦ rw negative tt
    | inr natural ↦
        let below = natural-lt i (h i refl) natural in
        elim (Bool-cases (ltb size i)) [
          | inl over ↦
              rw (natural, signed_ltb64-ltb size i small below, over)
                (rest_within (sub64 size size) (omega arith))
          | inr fits ↦
              rw (natural, signed_ltb64-ltb size i small below, fits)
                (rest_within (sub64 size i) (ground arith))
        ]
  ]

  end_value-IsSound :
      (i : ℕ)
      → i < size
      → (o : Option ℕ) → ((j : ℕ) → o ≡ some j → j < 2 ^ 64)
      → IsSound size (end_value size i o)
  unfolding end_value
  end_value-IsSound i g none h = tt
  end_value-IsSound i g (some j) h = elim (Bool-cases (signed_ltb64 j i)) [
    | inl before ↦ rw before tt
    | inr after ↦
        let t = not_before i j (omega arith) (h j refl) after in
        let above = t.0 in
        let below = t.1 in
        elim (Bool-cases (leb size j)) [
          | inl over ↦ rw (after, signed_leb64-leb size j small below, over) (omega arith)
          | inr fits ↦ rw (after, signed_leb64-leb size j small below, fits) (ground arith)
        ]
  ]

  start_value-IsSound :
      (e : Bytes)
      → (o : Option ℕ) → ((i : ℕ) → o ≡ some i → i < 2 ^ 64)
      → IsSound size (start_value size e o)
  unfolding start_value end_part
  start_value-IsSound e none h = tt
  start_value-IsSound e (some i) h = elim (Bool-cases (signed_ltb64 i 0)) [
    | inl negative ↦ rw negative tt
    | inr natural ↦
        let below = natural-lt i (h i refl) natural in
        elim (Bool-cases (leb size i)) [
          | inl over ↦ rw (natural, signed_leb64-leb size i small below, over) tt
          | inr fits ↦
              rw (natural, signed_leb64-leb size i small below, fits) (ending e (ground arith))
        ]
  ]
    where
      ending : (t : Bytes) → i < size → IsSound size (end_part size i t)
      ending [] g = rest_within i (omega arith)
      ending (c ∷ t) g =
          end_value-IsSound i g (parse_int (c ∷ t)) (λ j q. parse_int_bound (c ∷ t) j q)

  part_between-IsSound : (s e : Bytes) → IsSound size (part_between size s e)
  unfolding part_between suffix_part
  part_between-IsSound (c ∷ s) e =
      start_value-IsSound e (parse_int (c ∷ s)) (λ i q. parse_int_bound (c ∷ s) i q)
  part_between-IsSound [] [] = tt
  part_between-IsSound [] (c ∷ e) = elim (Bool-cases (c == 0x2d)) [
    | inl minus ↦ rw minus tt
    | inr digit ↦ rw digit (suffix-IsSound (parse_int (c ∷ e)) (λ i q. parse_int_bound (c ∷ e) i q))
  ]

  cut_part-IsSound : (o : Option (Bytes × Bytes)) → IsSound size (cut_part size o)
  unfolding cut_part
  cut_part-IsSound none = tt
  cut_part-IsSound (some (a, b)) = part_between-IsSound (trim_string a) (trim_string b)

  parse_part-IsSound : (s : Bytes) → IsSound size (parse_part size s)
  unfolding parse_part
  parse_part-IsSound [] = tt
  parse_part-IsSound (c ∷ s) = cut_part-IsSound (cut 0x2d (c ∷ s))

  abbrev AreWithin : Parsed → Type 0
  AreWithin (ranges rs) = All (IsWithin size) rs
  AreWithin _ = Unit

  part_step :
      (ps : List Bytes) (missed : Bool) (rs : List HttpRange)
      → All (IsWithin size) rs
      → ((m : Bool) (ts : List HttpRange)
          → All (IsWithin size) ts
          → AreWithin (parse_parts size ps m ts))
      → (part : Part) → IsSound size part
      → AreWithin (elim part [
        | skipped ↦ parse_parts size ps missed rs
        | bad ↦ invalid_range
        | apart ↦ parse_parts size ps true rs
        | ranged r ↦ parse_parts size ps missed (rs ++ r ∷ [])
      ])
  part_step ps missed rs a rest skipped h = rest missed rs a
  part_step ps missed rs a rest bad h = tt
  part_step ps missed rs a rest apart h = rest true rs a
  part_step ps missed rs a rest (ranged r) h =
      rest missed (rs ++ r ∷ []) (All-append (IsWithin size) rs (r ∷ []) a (h, tt))

  parse_parts-AreWithin :
      (ps : List Bytes) (missed : Bool) (rs : List HttpRange)
      → All (IsWithin size) rs
      → AreWithin (parse_parts size ps missed rs)
  unfolding parse_parts
  parse_parts-AreWithin [] missed rs a = elim (Bool-cases (missed && length rs == 0)) [
    | inl none_left ↦ rw none_left tt
    | inr some_left ↦ rw some_left a
  ]
  parse_parts-AreWithin (p ∷ ps) missed rs a =
      part_step ps missed rs a (λ m ts b. parse_parts-AreWithin ps m ts b)
        (parse_part size (trim_string p)) (parse_part-IsSound (trim_string p))

  parsed-AreWithin : (s : Bytes) → AreWithin (parse_range s size)
  unfolding parse_range
  parsed-AreWithin [] = tt
  parsed-AreWithin (c ∷ s) = elim (Bool-cases (has_prefix (c ∷ s) bytes_unit)) [
    | inl unit ↦
        rw unit (parse_parts-AreWithin (split 0x2c (drop (length bytes_unit) (c ∷ s))) false [] tt)
    | inr other ↦ rw other tt
  ]

-- Every range that `parseRange` answers lies within the content: its start and length, which are
-- computed in int64, add up to the size at most.
pub parse_range-IsWithin :
    (s : Bytes) (size : ℕ) (rs : List HttpRange)
    → size < 2 ^ 63
    → parse_range s size ≡ ranges rs
    → All (IsWithin size) rs
parse_range-IsWithin s size rs small e =
    subst (AreWithin size small) e (parsed-AreWithin size small s)
