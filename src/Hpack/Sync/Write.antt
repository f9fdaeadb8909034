-- ===== src/Hpack/Sync/Write.antt =====
-- `WriteField` against `parseHeaderFieldRepr`: the field that is written is the field that is read.
use fhttp.Base.{
  ℕ, zero, suc, ◌^◌, ◌<◌, ◌≡◌, refl, ◌∙◌, ap, sym, subst, Bool, true, false, Option, some, [], ◌∷◌,
  ◌++◌, append_assoc, Bytes, ltb, ◌==◌, if◌then◌else◌, arith, Bool-cases, inl, inr,
}
use fhttp.Hpack.Errors.{ok}
use fhttp.Hpack.Field.{HeaderField}
use fhttp.Hpack.DynTable.Bounded.{length-le-total}
use fhttp.Hpack.Encoder.{
  Encoder, search_table, write_field, write_found, write_size_update, should_index, append_indexed,
  append_new_name, append_indexed_name,
}
use fhttp.Hpack.Encoder.Octets.{
  hpack_string, literal_head, append_indexed-tagged, append_new_name-append,
  append_indexed_name-append,
}
use fhttp.Hpack.Decoder.{Decoder, done, parse_header_field_repr, literal_name, finish_literal}
use fhttp.Hpack.Decoder.Reads.{read_string-hpack_string}
use fhttp.Hpack.Sync.{IsSynced, FieldFits}
use fhttp.Hpack.Sync.Lookup.{Points, search_table-Points}
use fhttp.Hpack.Sync.Field.{
  Delivered, field_eq, parse_field_indexed_lem, width, kind, read_head, parse_field_literal_lem,
  unchanged, finish_unindexed, finish_indexed,
}

-- What `WriteField` returns, and what the decoder does with its octets when they stand in front of
-- `rest` in its buffer.
pub record Sends (d : Decoder) (f : HeaderField) (rest : Bytes) (r : Option (Encoder × Bytes))
    : Type 0 where
  pub after : Encoder
  pub octets : Bytes
  pub returns : r ≡ some (after, octets)
  pub delivered : d.buf ≡ octets ++ rest → Delivered after d f rest (parse_header_field_repr d)

suc-ne-zero : (i : ℕ) → (suc i == 0) ≡ false
suc-ne-zero i = ground arith

zero-lt-suc : (i : ℕ) → ltb 0 (suc i) ≡ true
zero-lt-suc i = ground arith

not_sensitive : (e : Encoder) (f : HeaderField) → should_index e f ≡ true → f.sensitive ≡ false
unfolding should_index
not_sensitive e f h = ground arith

module _ (e : Encoder) (d : Decoder) (f : HeaderField) (rest : Bytes) (y : IsSynced e d)
    (fits : FieldFits e d f) where
  -- An indexed field.
  full_match : (i : ℕ) → Points d f (i, true) → Sends d f rest (write_found e [] f (some (i, true)))
  full_match i p = record {
    after = e;
    octets = append_indexed [] i;
    returns = unfold write_found in refl;
    delivered = λ h.
        let (o, hit) = p.full refl in
        let (g, there, n, v) = hit in
        record {
          after = record d { buf = rest; emitted = d.emitted ++ f ∷ [] };
          returns =
              parse_field_indexed_lem d i g rest
                (h ∙ ap (λ x. x ++ rest) (append_indexed-tagged [] i (omega (arith, p.in_range))))
                p.in_range there y.unlimited y.emits
              ∙ ap (λ k. done (record d { buf = rest; emitted = d.emitted ++ k ∷ [] }))
                  (field_eq f g.name g.value false n v (sym o));
          synced = unchanged e d f rest y;
          emitted = refl;
          unread = refl;
          saved = refl;
        };
  }

  name_octets : ℕ → Bytes
  name_octets i = if i == 0 then hpack_string f.name else []

  literal_octets : ℕ → Bool → Bytes
  literal_octets i indexing =
      if i == 0 then append_new_name [] f indexing else append_indexed_name [] f i indexing

  literal_octets_lem :
      (i : ℕ) (indexing : Bool)
      → i < 2 ^ 63
      → (indexing ≡ true → f.sensitive ≡ false)
      → literal_octets i indexing ++ rest
        ≡ literal_head indexing f.sensitive i ++ (name_octets i ++ (hpack_string f.value ++ rest))
  unfolding literal_octets name_octets
  literal_octets_lem zero indexing hi o =
      rw
        (append_new_name-append [] f indexing o (omega (arith, fits.short_name))
          (omega (arith, fits.short_value)))
        (simp append_assoc)
  literal_octets_lem (suc i) indexing hi o =
      rw
        (
          suc-ne-zero i,
          append_indexed_name-append [] f (suc i) indexing (omega arith) o
              (omega (arith, fits.short_value)),
        )
        (append_assoc (literal_head indexing f.sensitive (suc i)) (hpack_string f.value) rest)

  literal_name_lem :
      (i : ℕ) (p : Bytes)
      → Points d f (i, false)
      → literal_name d i (name_octets i ++ p) true ≡ ok (f.name, p)
  unfolding literal_name name_octets
  literal_name_lem zero p points =
      read_string-hpack_string d f.name p y.unlimited fits.short_name fits.name_octets
  literal_name_lem (suc i) p points =
      let (g, there, n) = points.named (omega arith) in rw (suc-ne-zero i, zero-lt-suc i, there, n)

  -- Whatever the literal, the decoder comes to its end with the name and the value of `f`.
  literal_read :
      (i : ℕ) (indexing : Bool)
      → Points d f (i, false)
      → (indexing ≡ true → f.sensitive ≡ false)
      → d.buf ≡ literal_octets i indexing ++ rest
      → parse_header_field_repr d ≡ finish_literal d (kind indexing f.sensitive) f.name f.value rest
  literal_read i indexing points o h =
      let tail = hpack_string f.value ++ rest in
      let head =
        read_head d indexing f.sensitive i (name_octets i ++ tail)
          (h ∙ literal_octets_lem i indexing points.in_range o) points.in_range in
      head.0
      ∙ parse_field_literal_lem d (width indexing) (kind indexing f.sensitive) i
          (name_octets i ++ tail) tail f.name f.value rest y.emits head.1
          (literal_name_lem i tail points)
          (read_string-hpack_string d f.value rest y.unlimited fits.short_value fits.value_octets)

  literal : (i : ℕ) → Points d f (i, false) → Sends d f rest (write_found e [] f (some (i, false)))
  literal i points = elim (Bool-cases (should_index e f)) [
    | inl on ↦
        let o = not_sensitive e f on in
        let (dt, added, delivered) = finish_indexed e d f rest y fits o in
        record {
          after = record e { dyn_tab = dt };
          octets = literal_octets i true;
          returns = unfold write_found literal_octets in rw (on, added);
          delivered = λ h. deliver (record e { dyn_tab = dt }) true h (λ _. o) delivered;
        }
    | inr off ↦ record {
      after = e;
      octets = literal_octets i false;
      returns = unfold write_found literal_octets in rw off;
      delivered = λ h. deliver e false h (λ z. cc) (finish_unindexed e d f rest y f.sensitive refl);
    }
  ]
    where
      deliver :
          (e' : Encoder) (indexing : Bool)
          → d.buf ≡ literal_octets i indexing ++ rest
          → (indexing ≡ true → f.sensitive ≡ false)
          → Delivered e' d f rest (finish_literal d (kind indexing f.sensitive) f.name f.value rest)
          → Delivered e' d f rest (parse_header_field_repr d)
      deliver e' indexing h o =
          subst (Delivered e' d f rest) (sym (literal_read i indexing points o h))

  pub write_found-Sends :
      (r : ℕ × Bool) → Points d f r → Sends d f rest (write_found e [] f (some r))
  write_found-Sends (i, true) p = full_match i p
  write_found-Sends (i, false) p = literal i p

no_update : (e : Encoder) → e.table_size_update ≡ false → write_size_update e ≡ (e, [])
unfolding write_size_update
no_update e h = ground arith

-- On synchronised sides, whose decoder emits and has no limit on strings, with no size update pending,
-- for a field whose name and value are strings of less than 2^58 octets, where the sizes of the
-- entries and the field sum up to less than 2^32 and neither table has used up its ids of 64 bits:
-- `WriteField` does not panic, and when the decoder has what it wrote in front of its buffer,
-- `parseHeaderFieldRepr` emits just the field that was written, its `Sensitive` flag included, leaves
-- the octets that follow, and the two sides are synchronised again.
pub write_field-Sends :
    (e : Encoder) (d : Decoder) (f : HeaderField) (rest : Bytes)
    → IsSynced e d
    → FieldFits e d f
    → e.table_size_update ≡ false
    → Sends d f rest (write_field e f)
unfolding write_field
write_field-Sends e d f rest y fits idle =
    let (r, found, points) = search_table-Points e d f y.sent.indexed y.same_ents (
      omega (
        arith,
        fits.sizes,
        length-le-total e.dyn_tab.table.ents,
        y.sent.size_is,
        y.sent.within,
        y.sent.max_fits,
      )) in
    subst (Sends d f rest) (sym (written r found)) (write_found-Sends e d f rest y fits r points)
  where
    written :
        (r : ℕ × Bool) → search_table e f ≡ some r → write_field e f ≡ write_found e [] f (some r)
    written r found =
        ap (λ (u : Encoder × Bytes). write_found u.0 u.1 f (search_table u.0 f)) (no_update e idle)
        ∙ ap (write_found e [] f) found
