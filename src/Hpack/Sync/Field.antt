-- ===== src/Hpack/Sync/Field.antt =====
-- One field through `WriteField` and `parseHeaderFieldRepr`, with no size update pending.
use fhttp.Base.{
  ℕ, ◌^◌, ◌<◌, ◌≡◌, refl, ◌∙◌, ap, sym, subst, Bool, true, false, ◌||◌, some, [], ◌∷◌, ◌++◌, Bytes,
  if◌then◌else◌, arith,
}
use fhttp.Hpack.Errors.{ok}
use fhttp.Hpack.VarInt.{read_var_int}
use fhttp.Hpack.VarInt.Encoding.{first_octet-lt}
use fhttp.Hpack.Field.{HeaderField}
use fhttp.Hpack.DynTable.{DynamicTable, add}
use fhttp.Hpack.DynTable.Bounded.{total, trim, add-Evicted}
use fhttp.Hpack.Encoder.{Encoder}
use fhttp.Hpack.Encoder.Octets.{tagged, literal_head}
use fhttp.Hpack.Decoder.{
  Decoder, Outcome, done, entry, call_emit, parse_field_indexed, parse_field_literal,
  parse_header_field_repr, dispatch, IndexType, indexed_true, indexed_false, indexed_never, indexed,
  sensitive, literal_name, finish_literal, read_string,
}
use fhttp.Hpack.Decoder.Reads.{
  read_tagged, dispatch_indexed, dispatch_incremental, dispatch_plain, dispatch_never,
}
use fhttp.Hpack.Sync.{IsSynced, FieldFits}

-- What the decoder is after a field `f`, read from `d`, where the encoder is then `e`.
pub record Delivered (e : Encoder) (d : Decoder) (f : HeaderField) (rest : Bytes) (o : Outcome)
    : Type 0 where
  pub after : Decoder
  pub returns : o ≡ done after
  pub synced : IsSynced e after
  pub emitted : after.emitted ≡ d.emitted ++ f ∷ []
  pub unread : after.buf ≡ rest
  pub saved : after.save_buf ≡ d.save_buf

call_emit_lem :
    (d : Decoder) (hf : HeaderField)
    → d.max_str_len ≡ 0
    → d.emit_enabled ≡ true
    → call_emit d hf ≡ done (record d { emitted = d.emitted ++ hf ∷ [] })
unfolding call_emit
call_emit_lem d hf h on = ground arith

parse_cons :
    (d : Decoder) (b : ℕ) (p : Bytes) → d.buf ≡ b ∷ p → parse_header_field_repr d ≡ dispatch d b
unfolding parse_header_field_repr
parse_cons d b p h = ground arith

-- A field is given by its three parts.
pub field_eq :
    (f : HeaderField) (n v : Bytes) (s : Bool)
    → n ≡ f.name
    → v ≡ f.value
    → s ≡ f.sensitive
    → ◌≡◌ {A = HeaderField} (record { name = n; value = v; sensitive = s }) f
field_eq f n v s hn hv hs = λ i. record { name = hn i; value = hv i; sensitive = hs i }

pub parse_field_indexed_lem :
    (d : Decoder) (i : ℕ) (g : HeaderField) (rest : Bytes)
    → d.buf ≡ tagged 128 7 i ++ rest
    → i < 2 ^ 63
    → entry d i ≡ ok g
    → d.max_str_len ≡ 0
    → d.emit_enabled ≡ true
    → parse_header_field_repr d
      ≡ done (record d {
        buf = rest;
        emitted = d.emitted ++ record { name = g.name; value = g.value; sensitive = false } ∷ [];
      })
parse_field_indexed_lem d i g rest hb hi he hm on =
    parse_cons d _ _ hb
    ∙ dispatch_indexed d i
    ∙ unfold parse_field_indexed in rw (read, he) (call_emit_lem (record d { buf = rest }) _ hm on)
  where
    read : read_var_int 7 d.buf ≡ ok (i, rest)
    read =
        ap (read_var_int 7) hb
        ∙ read_tagged 128 1 7 i rest refl (omega arith) (omega arith)
            (omega (arith, first_octet-lt 7 i (omega arith))) hi

abbrev pub width : Bool → ℕ
width indexing = if indexing then 6 else 4

abbrev pub kind : Bool → Bool → IndexType
kind true s = indexed_true
kind false true = indexed_never
kind false false = indexed_false

pub read_head :
    (d : Decoder) (indexing s : Bool) (i : ℕ) (p : Bytes)
    → d.buf ≡ literal_head indexing s i ++ p
    → i < 2 ^ 63
    → (parse_header_field_repr d ≡ parse_field_literal d (width indexing) (kind indexing s))
      × (read_var_int (width indexing) d.buf ≡ ok (i, p))
read_head d true s i p hb hi = (
  parse_cons d _ _ hb ∙ dispatch_incremental d i,
  ap (read_var_int 6) hb
      ∙ read_tagged 64 1 6 i p refl (omega arith) (omega arith)
          (omega (arith, first_octet-lt 6 i (omega arith))) hi,
)
read_head d false true i p hb hi = (
  parse_cons d _ _ hb ∙ dispatch_never d i,
  ap (read_var_int 4) hb
      ∙ read_tagged 16 1 4 i p refl (omega arith) (omega arith)
          (omega (arith, first_octet-lt 4 i (omega arith))) hi,
)
read_head d false false i p hb hi = (
  parse_cons d _ _ hb ∙ dispatch_plain d i,
  ap (read_var_int 4) hb
      ∙ read_tagged 0 0 4 i p refl (omega arith) (omega arith)
          (omega (arith, first_octet-lt 4 i (omega arith))) hi,
)

pub parse_field_literal_lem :
    (d : Decoder) (n : ℕ) (it : IndexType) (i : ℕ) (p q : Bytes) (nm v rest : Bytes)
    → d.emit_enabled ≡ true
    → read_var_int n d.buf ≡ ok (i, p)
    → literal_name d i p true ≡ ok (nm, q)
    → read_string d q true ≡ ok (v, rest)
    → parse_field_literal d n it ≡ finish_literal d it nm v rest
unfolding parse_field_literal
parse_field_literal_lem d n it i p q nm v rest on h1 h2 h3 = rw (want, h1, h2, h3)
  where
    want : (d.emit_enabled || indexed it) ≡ true
    want = ground arith

module _ (e : Encoder) (d : Decoder) (f : HeaderField) (rest : Bytes) (y : IsSynced e d) where
  -- The end of a literal, where the decoder's table is then `dt`.
  emit_literal :
      (e' : Encoder) (dt : DynamicTable) (it : IndexType)
      → finish_literal d it f.name f.value rest
        ≡ call_emit
            (record d { buf = rest; dyn_tab = dt })
            (record { name = f.name; value = f.value; sensitive = sensitive it })
      → sensitive it ≡ f.sensitive
      → IsSynced e' (record d { buf = rest; dyn_tab = dt; emitted = d.emitted ++ f ∷ [] })
      → Delivered e' d f rest (finish_literal d it f.name f.value rest)
  emit_literal e' dt it ends s synced = record {
    after = record d { buf = rest; dyn_tab = dt; emitted = d.emitted ++ f ∷ [] };
    returns =
        ends
        ∙ call_emit_lem (record d { buf = rest; dyn_tab = dt }) _ y.unlimited y.emits
        ∙ ap (λ g. done (record d { buf = rest; dyn_tab = dt; emitted = d.emitted ++ g ∷ [] }))
            (field_eq f f.name f.value (sensitive it) refl refl s);
    synced = synced;
    emitted = refl;
    unread = refl;
    saved = refl;
  }

  pub unchanged : IsSynced e (record d { buf = rest; emitted = d.emitted ++ f ∷ [] })
  unchanged = record {
    sent = y.sent;
    received = y.received;
    same_ents = y.same_ents;
    same_max = y.same_max;
    unlimited = y.unlimited;
    emits = y.emits;
  }

  -- A literal that neither side puts into its table.
  pub finish_unindexed :
      (s : Bool)
      → s ≡ f.sensitive
      → Delivered e d f rest (finish_literal d (kind false s) f.name f.value rest)
  finish_unindexed true h =
      emit_literal e d.dyn_tab indexed_never (unfold finish_literal in refl) h unchanged
  finish_unindexed false h =
      emit_literal e d.dyn_tab indexed_false (unfold finish_literal in refl) h unchanged

  -- A literal that both sides add to their tables.
  pub finish_indexed :
      FieldFits e d f
      → f.sensitive ≡ false
      → (dt : DynamicTable) × (add e.dyn_tab f ≡ some dt)
        × Delivered
            (record e { dyn_tab = dt })
            d
            f
            rest
            (finish_literal d indexed_true f.name f.value rest)
  finish_indexed fits o =
      let left = add-Evicted e.dyn_tab f y.sent fits.sizes fits.sent_ids in
      let right =
        add-Evicted d.dyn_tab f y.received
          (subst (λ es. total (es ++ f ∷ []) < 2 ^ 32) (sym y.same_ents) fits.sizes)
          fits.received_ids in
      (
        left.after,
        left.returns,
        emit_literal (record e { dyn_tab = left.after }) right.after indexed_true
            (unfold finish_literal in
              rw (field_eq f f.name f.value false refl refl (sym o), right.returns))
            (sym o)
            (record {
              sent = left.bounded;
              received = right.bounded;
              same_ents =
                  right.ents
                  ∙ ap (λ m. trim m (d.dyn_tab.table.ents ++ f ∷ [])) y.same_max
                  ∙ ap (λ es. trim e.dyn_tab.max_size (es ++ f ∷ [])) y.same_ents
                  ∙ sym left.ents;
              same_max = right.max_size ∙ y.same_max ∙ sym left.max_size;
              unlimited = y.unlimited;
              emits = y.emits;
            }),
      )
