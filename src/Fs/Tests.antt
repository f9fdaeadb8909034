-- ===== src/Fs/Tests.antt =====
-- Runs of the parts of the file handler, and their theorems at concrete inputs.
use fhttp.Base.{
  ℕ, ◌+◌, ◌≡◌, refl, true, false, Option, none, some, List, [], ◌∷◌, Bytes, has_prefix, drop,
  bytes_eq, arith, All, if◌then◌else◌,
}
use fhttp.Fs.{trim_front, trim_string}
use fhttp.Base.Text.{before_blank, trim_back, cut, split, onto_first}
use fhttp.Fs.Range.{
  decimal, parse_uint, to_int64, parse_int, HttpRange, parse_part, ranges, parse_parts, parse_range,
}
use fhttp.Fs.Range.Bounds.{IsWithin, parse_range-IsWithin}
use fhttp.Fs.Range.Summary.{summary, parts_of, parse_range-summary}
use fhttp.Fs.Condition.{
  Layout, time_format, rfc850, ansic, cond_true, cond_false, check_if_match, check_if_none_match,
  Request, get_method, Outcome, not_modified, check_preconditions, unix_epoch_time,
  check_if_modified_since, modified_at, none_match_outcome, parse_time, check_if_unmodified_since,
}
use fhttp.Fs.Condition.Answers.{IsAllowed, check_preconditions-IsAllowed}
use fhttp.Fs.Condition.Entities.{Etag, etag_bytes, etag_list}
use fhttp.Fs.Condition.Listed.{any_etag, strong_match, weak_match, checks-etag_list}

-- `ytes=2-4,-3`, behind its first letter.
abbrev two_parts : Bytes
two_parts = 0x79 ∷ 0x74 ∷ 0x65 ∷ 0x73 ∷ 0x3d ∷ 0x32 ∷ 0x2d ∷ 0x34 ∷ 0x2c ∷ 0x2d ∷ 0x33 ∷ []

abbrev two_ranges : List HttpRange
two_ranges = record { start = 2; length = 3 } ∷ record { start = 7; length = 3 } ∷ []

two_parsed : parse_range (0x62 ∷ two_parts) 10 ≡ ranges two_ranges
unfolding parse_range has_prefix split onto_first parse_parts parse_part cut trim_string trim_front
    trim_back before_blank parse_int parse_uint decimal to_int64
two_parsed = refl

parse_range-IsWithin_example : All (IsWithin 10) two_ranges
parse_range-IsWithin_example =
    parse_range-IsWithin (0x62 ∷ two_parts) 10 two_ranges (omega arith) two_parsed

parse_range-summary_example :
    parse_range (0x62 ∷ two_parts) 10 ≡ summary (parts_of 10 (split 0x2c (drop 5 two_parts)))
unfolding has_prefix
parse_range-summary_example = parse_range-summary 0x62 two_parts 10 refl

-- A time parser that reads one text, as the second layout.
abbrev one_time : Layout → Bytes → Option ℕ
one_time time_format text = none
one_time rfc850 text = some (unix_epoch_time + 5_500_000_000)
one_time ansic text = none

abbrev dated : Request
dated = record {
  method = get_method;
  if_match = [];
  if_none_match = [];
  if_modified_since = 0x78 ∷ [];
  if_unmodified_since = [];
  if_range = [];
  range = [];
}

dated_unmodified :
    check_preconditions one_time dated [] (unix_epoch_time + 5_700_000_000) ≡ some not_modified
unfolding check_preconditions check_if_match check_if_none_match none_match_outcome
    check_if_modified_since parse_time modified_at bytes_eq check_if_unmodified_since
dated_unmodified = refl

check_preconditions-IsAllowed_example :
    (o : Outcome) × (check_preconditions one_time dated [] (unix_epoch_time + 5_700_000_000)
      ≡ some o)
    × IsAllowed dated o
check_preconditions-IsAllowed_example =
    check_preconditions-IsAllowed one_time dated [] (unix_epoch_time + 5_700_000_000)

abbrev strong_a : Etag
strong_a = record { weak = false; text = 0x61 ∷ [] }

abbrev weak_b : Etag
weak_b = record { weak = true; text = 0x62 ∷ [] }

checks-etag_list_example :
    (check_if_match (etag_list strong_a (weak_b ∷ [])) (etag_bytes weak_b)
      ≡ some (
          if any_etag (λ x. strong_match x weak_b) (strong_a ∷ weak_b ∷ [])
          then cond_true
          else cond_false))
    × (check_if_none_match (etag_list strong_a (weak_b ∷ [])) (etag_bytes weak_b)
        ≡ some (
            if any_etag (λ x. weak_match x weak_b) (strong_a ∷ weak_b ∷ [])
            then cond_false
            else cond_true))
checks-etag_list_example =
    checks-etag_list strong_a (weak_b ∷ []) weak_b ((refl, tt), ((refl, tt), tt))
