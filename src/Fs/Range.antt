-- ===== src/Fs/Range.antt =====
-- The byte ranges of a `Range` header (fs.go). An int64 is the word of its two's complement.
pub mod Bounds
pub mod Summary
use fhttp.Base.{
  ℕ, zero, suc, ◌+◌, ◌-◌, ◌*◌, ◌%◌, ◌^◌, Bool, true, false, not, ◌&&◌, Option, none, some, List, [],
  ◌∷◌, ◌++◌, Bytes, has_prefix, length, drop, ltb, leb, ◌==◌, if◌then◌else◌,
}
use fhttp.Base.Text.{split, cut}
use fhttp.Base.Word.{add64, sub64}
use fhttp.Base.Int64.{signed_ltb64, signed_leb64}
use fhttp.Base.Options.{◌>>=◌}
use mathlib.Core.Option

-- `strconv.ParseInt(s, 10, 64)`; `none` is an error.
unfoldable pub decimal : Bytes → ℕ → Option ℕ
decimal [] n = some n
decimal (c ∷ s) n =
    let rest = decimal s (n * 10 + (c - 0x30)) in if leb 0x30 c && leb c 0x39 then rest else none

unfoldable pub parse_uint : Bytes → Option ℕ
parse_uint [] = none
parse_uint (c ∷ s) = decimal (c ∷ s) 0

unfoldable pub to_int64 : Bool → ℕ → Option ℕ
to_int64 true n = if ltb (2 ^ 63) n then none else some (sub64 0 n)
to_int64 false n = if ltb n (2 ^ 63) then some n else none

unfoldable pub parse_int : Bytes → Option ℕ
parse_int [] = none
parse_int (c ∷ s) =
    if c == 0x2b
    then parse_uint s >>= to_int64 false
    else if c == 0x2d
    then parse_uint s >>= to_int64 true
    else parse_uint (c ∷ s) >>= to_int64 false

pub record HttpRange : Type 0 where
  pub start : ℕ
  pub length : ℕ

-- What one part of the header says: nothing, an error, a range beyond the end, or a range.
pub data Part : Type 0 where
  skipped : Part
  bad : Part
  apart : Part
  ranged : HttpRange → Part

-- The last `i` bytes.
unfoldable pub suffix_value : ℕ → Option ℕ → Part
suffix_value size none = bad
suffix_value size (some i) =
    if signed_ltb64 i 0
    then bad
    else let start = sub64 size (if signed_ltb64 size i then size else i) in
      ranged (record { start = start; length = sub64 size start })

unfoldable pub suffix_part : ℕ → Bytes → Part
unfolding suffix_value
suffix_part size [] = bad
suffix_part size (c ∷ e) = if c == 0x2d then bad else suffix_value size (parse_int (c ∷ e))

unfoldable pub end_value : ℕ → ℕ → Option ℕ → Part
end_value size i none = bad
end_value size i (some j) =
    if signed_ltb64 j i
    then bad
    else ranged (record {
      start = i;
      length = add64 (sub64 (if signed_leb64 size j then sub64 size 1 else j) i) 1;
    })

unfoldable pub end_part : ℕ → ℕ → Bytes → Part
unfolding end_value
end_part size i [] = ranged (record { start = i; length = sub64 size i })
end_part size i (c ∷ e) = end_value size i (parse_int (c ∷ e))

unfoldable pub start_value : ℕ → Bytes → Option ℕ → Part
unfolding end_part
start_value size e none = bad
start_value size e (some i) =
    if signed_ltb64 i 0 then bad else if signed_leb64 size i then apart else end_part size i e

unfoldable pub part_between : ℕ → Bytes → Bytes → Part
unfolding suffix_part start_value
part_between size [] e = suffix_part size e
part_between size (c ∷ s) e = start_value size e (parse_int (c ∷ s))

unfoldable pub cut_part : ℕ → Option (Bytes × Bytes) → Part
unfolding part_between
cut_part size none = bad
cut_part size (some (a, b)) = part_between size (fhttp.Fs.trim_string a) (fhttp.Fs.trim_string b)

-- One round of the loop over the parts, on a part that is trimmed.
unfoldable pub parse_part : ℕ → Bytes → Part
unfolding cut_part
parse_part size [] = skipped
parse_part size (c ∷ s) = cut_part size (cut 0x2d (c ∷ s))

-- What `parseRange` returns; `no_overlap` is `errNoOverlap`.
pub data Parsed : Type 0 where
  invalid_range : Parsed
  no_overlap : Parsed
  ranges : List HttpRange → Parsed

unfoldable pub parse_parts : ℕ → List Bytes → Bool → List HttpRange → Parsed
parse_parts size [] missed rs =
    if missed && fhttp.Base.length rs == 0 then no_overlap else ranges rs
parse_parts size (p ∷ ps) missed rs = elim (parse_part size (fhttp.Fs.trim_string p)) [
  | skipped ↦ parse_parts size ps missed rs
  | bad ↦ invalid_range
  | apart ↦ parse_parts size ps true rs
  | ranged r ↦ parse_parts size ps missed (rs ++ r ∷ [])
]

-- "bytes="
abbrev pub bytes_unit : Bytes
bytes_unit = 0x62 ∷ 0x79 ∷ 0x74 ∷ 0x65 ∷ 0x73 ∷ 0x3d ∷ []

unfoldable pub parse_range : Bytes → ℕ → Parsed
parse_range [] size = ranges []
parse_range (c ∷ s) size =
    if has_prefix (c ∷ s) bytes_unit
    then parse_parts size (split 0x2c (drop (length bytes_unit) (c ∷ s))) false []
    else invalid_range
