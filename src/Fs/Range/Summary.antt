-- ===== src/Fs/Range/Summary.antt =====
-- The answer of `parseRange` from what its parts say (fs.go).
use fhttp.Base.{
  ℕ, ◌≡◌, refl, sym, ap, ◌∙◌, Bool, true, false, ◌&&◌, ◌||◌, List, [], ◌∷◌, ◌++◌, map, append-nil,
  append_assoc, Bytes, has_prefix, length, drop, ◌==◌, if◌then◌else◌,
}
use fhttp.Fs.{trim_string}
use fhttp.Base.Text.{split}
use fhttp.Fs.Range.{
  HttpRange, Part, skipped, bad, apart, ranged, parse_part, Parsed, invalid_range, no_overlap,
  ranges, parse_parts, parse_range, bytes_unit,
}

abbrev has_bad : List Part → Bool
has_bad [] = false
has_bad (bad ∷ ps) = true
has_bad (skipped ∷ ps) = has_bad ps
has_bad (apart ∷ ps) = has_bad ps
has_bad (ranged r ∷ ps) = has_bad ps

abbrev has_apart : List Part → Bool
has_apart [] = false
has_apart (apart ∷ ps) = true
has_apart (skipped ∷ ps) = has_apart ps
has_apart (bad ∷ ps) = has_apart ps
has_apart (ranged r ∷ ps) = has_apart ps

abbrev collected : List Part → List HttpRange
collected [] = []
collected (ranged r ∷ ps) = r ∷ collected ps
collected (skipped ∷ ps) = collected ps
collected (bad ∷ ps) = collected ps
collected (apart ∷ ps) = collected ps

-- One error spoils the header; else the answer is the ranges in order, or that none overlaps where
-- there is none and some part lies beyond the end.
abbrev pub summary : List Part → Parsed
summary ps =
    if has_bad ps
    then invalid_range
    else if has_apart ps && length (collected ps) == 0
    then no_overlap
    else ranges (collected ps)

abbrev pub parts_of : ℕ → List Bytes → List Part
parts_of size ps = map (λ p. parse_part size (trim_string p)) ps

-- The answer after parts that found the ranges `rs`, with the parts `ps` still to come.
abbrev remaining : Bool → List HttpRange → List Part → Parsed
remaining missed rs ps =
    if has_bad ps
    then invalid_range
    else if (missed || has_apart ps) && length (rs ++ collected ps) == 0
    then no_overlap
    else ranges (rs ++ collected ps)

part_step :
    (size : ℕ) (ps : List Bytes) (missed : Bool) (rs : List HttpRange)
    → ((m : Bool) (ts : List HttpRange)
        → parse_parts size ps m ts ≡ remaining m ts (parts_of size ps))
    → (part : Part)
    → elim part [
      | skipped ↦ parse_parts size ps missed rs
      | bad ↦ invalid_range
      | apart ↦ parse_parts size ps true rs
      | ranged r ↦ parse_parts size ps missed (rs ++ r ∷ [])
    ]
      ≡ remaining missed rs (part ∷ parts_of size ps)
part_step size ps missed rs rest skipped = rest missed rs
part_step size ps missed rs rest bad = refl
part_step size ps true rs rest apart = rest true rs
part_step size ps false rs rest apart = rest true rs
part_step size ps missed rs rest (ranged r) =
    rest missed (rs ++ r ∷ [])
    ∙ ap
        (λ t.
          if has_bad (parts_of size ps)
          then invalid_range
          else if (missed || has_apart (parts_of size ps)) && length t == 0
          then no_overlap
          else ranges t)
        (append_assoc rs (r ∷ []) (collected (parts_of size ps)))

parse_parts-remaining :
    (size : ℕ) (ps : List Bytes) (missed : Bool) (rs : List HttpRange)
    → parse_parts size ps missed rs ≡ remaining missed rs (parts_of size ps)
unfolding parse_parts
parse_parts-remaining size [] true rs =
    ap (λ t. if length t == 0 then no_overlap else ranges t) (sym (append-nil rs))
parse_parts-remaining size [] false rs = ap ranges (sym (append-nil rs))
parse_parts-remaining size (p ∷ ps) missed rs =
    part_step size ps missed rs (parse_parts-remaining size ps) (parse_part size (trim_string p))

-- `parseRange` on a header that begins with `bytes=`: it is invalid where some part is. Else, if some
-- part is a range, it answers the ranges of the parts in order, without the parts that are empty or
-- begin beyond the content; if none is, it answers that none overlaps where some part begins beyond
-- the content, and no ranges where all parts are empty.
pub parse_range-summary :
    (c : ℕ) (s : Bytes) (size : ℕ)
    → has_prefix (c ∷ s) bytes_unit ≡ true
    → parse_range (c ∷ s) size
      ≡ summary (parts_of size (split 0x2c (drop (length bytes_unit) (c ∷ s))))
unfolding parse_range
parse_range-summary c s size h =
    rw h (parse_parts-remaining size (split 0x2c (drop (length bytes_unit) (c ∷ s))) false [])
