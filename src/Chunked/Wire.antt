-- ===== src/Chunked/Wire.antt =====
-- A list of chunks on the wire, and what a call of `Read` may return on it (internal/chunked.go).
use fhttp.Base.{
  ℕ, ◌+◌, ◌-◌, ◌^◌, ◌<◌, ◌≤◌, ◌≡◌, ◌⊎◌, inl, inr, refl, sym, ap, ◌∙◌, Bool, false, Option, none,
  some, List, [], ◌∷◌, ◌++◌, append_assoc, append-nil, Bytes, length, length-append, ◌==◌, All,
  arith,
}
use fhttp.Chunked.Writer.{to_hex}
use fhttp.Chunked.Reader.{eof, ChunkedReader}

-- The wire of a list of chunks, up to the line of the last, empty one, with `t` behind it.
abbrev pub encoded : List Bytes → Bytes → Bytes
encoded [] t = 0x30 ∷ 0x0d ∷ 0x0a ∷ t
encoded (d ∷ ds) t = to_hex (length d) ++ 0x0d ∷ 0x0a ∷ (d ++ 0x0d ∷ 0x0a ∷ encoded ds t)

abbrev pub joined : List Bytes → Bytes
joined [] = []
joined (d ∷ ds) = d ++ joined ds

-- A chunk that `Write` sends, where the length is an int.
abbrev pub IsChunk : Bytes → Type 0
IsChunk d = (0 < length d) × (length d < 2 ^ 64)

-- Where a reader stands on the wire: in front of a line, or in front of what is left of a chunk's data.
pub data Place : Type 0 where
  at_line : Place
  in_data : Bytes → Place

abbrev pub wire : Place → List Bytes → Bytes → Bytes
wire at_line ds t = encoded ds t
wire (in_data d) ds t = d ++ 0x0d ∷ 0x0a ∷ encoded ds t

abbrev pub payload : Place → List Bytes → Bytes
payload at_line ds = joined ds
payload (in_data d) ds = d ++ joined ds

abbrev pub left_of : Place → ℕ
left_of at_line = 0
left_of (in_data d) = length d

-- The CRLF is still to be read where no data are left.
abbrev pub is_footer : Place → Bool
is_footer at_line = false
is_footer (in_data d) = length d == 0

pub record IsAt (cr : ChunkedReader) (place : Place) (ds : List Bytes) (t : Bytes) : Type 0 where
  pub bytes_at : cr.r.bytes ≡ wire place ds t
  pub n_at : cr.n ≡ left_of place
  pub err_at : cr.err ≡ none
  pub end_at : cr.check_end ≡ is_footer place
  pub chunks_at : All IsChunk ds

-- What a call of `Read` returns, with `out` copied before and `room` bytes left for `p` and the rest of
-- the stream: some of them, in order, and the reader stands behind these; or the last of them and
-- io.EOF, and what follows the last chunk is left. Nothing is returned only where there was no room.
abbrev pub Delivers : Bytes → Bytes → ℕ → Bytes → Bytes × ChunkedReader → Type 0
Delivers p t room out (all, cr) =
    (new : Bytes) × (all ≡ out ++ new)
    × (length new ≤ room)
    × (((0 < length out + room → 0 < length out + length new)
          × (place : Place) × (ds : List Bytes) × IsAt cr place ds t
          × (new ++ payload place ds ≡ p))
        ⊎ ((new ≡ p) × (cr.err ≡ some eof) × (cr.r.bytes ≡ t)))

abbrev pub Returns : Bytes → Bytes → ℕ → Bytes → Option (Bytes × ChunkedReader) → Type 0
Returns p t room out o = (r : Bytes × ChunkedReader) × (o ≡ some r) × Delivers p t room out r

-- Standing still is enough where there is no room, or where bytes were copied before.
pub stay :
    (cr : ChunkedReader) (place : Place) (ds : List Bytes) (t : Bytes) (room : ℕ) (out : Bytes)
    → IsAt cr place ds t
    → (0 < length out + room → 0 < length out)
    → Returns (payload place ds) t room out (some (out, cr))
stay cr place ds t room out v h = (
  (out, cr),
  refl,
  ([], sym (append-nil out), omega arith, inl (λ b. omega (arith, h b), place, ds, v, refl)),
)

-- A reader returns in two steps.
pub behind :
    (p q t : Bytes) (room : ℕ) (out now : Bytes) (o : Option (Bytes × ChunkedReader))
    → length now ≤ room
    → now ++ q ≡ p
    → Returns q t (room - length now) (out ++ now) o
    → Returns p t room out o
behind p q t room out now o fits split
      ((all, cr), run, (new, is, le, inl (moves, place, ds, v, rest))) =
    (
      (all, cr),
      run,
      (
        now ++ new,
        is ∙ append_assoc out now new,
        omega (arith, length-append now new),
        inl (
          (λ b. omega (
            arith,
            moves (omega (arith, length-append out now)),
            length-append out now,
            length-append now new,
          )),
          place,
          ds,
          v,
          append_assoc now new (payload place ds) ∙ ap (λ x. now ++ x) rest ∙ split,
        ),
      ),
    )
behind p q t room out now o fits split ((all, cr), run, (new, is, le, inr (last, over, tail))) = (
  (all, cr),
  run,
  (
    now ++ new,
    is ∙ append_assoc out now new,
    omega (arith, length-append now new),
    inr (ap (λ x. now ++ x) last ∙ split, over, tail),
  ),
)
