-- ===== src/Fs/Condition.antt =====
-- Conditional requests (fs.go). A request is its method and the header values that matter, where a
-- missing header is the empty string; `tag` is the response's `Etag` header. A `time.Time` is the
-- number of nanoseconds since the year 1, and `time.Parse` is the parameter `time_parse`.
pub mod Terms
pub mod Scan
pub mod Entities
pub mod Listed
pub mod Answers
use mathlib.Core.Option
use fhttp.Base.{
  ℕ, zero, suc, ◌+◌, ◌-◌, ◌*◌, ◌/◌, ◌%◌, ◌^◌, Bool, true, false, not, ◌&&◌, ◌||◌, Option, none,
  some, List, [], ◌∷◌, ◌++◌, Bytes, bytes_eq, has_prefix, length, take, drop, ltb, leb, ◌==◌,
  if◌then◌else◌,
}
use fhttp.Base.Options.{◌>>=◌}
use fhttp.Fs.{trim_string}

-- "W/"
abbrev pub weak_mark : Bytes
weak_mark = 0x57 ∷ 0x2f ∷ []

abbrev pub in_etag : ℕ → Bool
in_etag c = (c == 0x21) || ((leb 0x23 c && leb c 0x7e) || leb 0x80 c)

abbrev pub is_quoted : Bytes → Bool
is_quoted [] = false
is_quoted (c ∷ s) = c == 0x22

-- The loop of `scanETag`, from behind the first quote: the text with its closing quote, and the rest.
unfoldable pub scan_text : Bytes → Option (Bytes × Bytes)
scan_text [] = none
scan_text (c ∷ s) =
    let rest = Option.map (λ r. (c ∷ r.0, r.1)) (scan_text s) in
    if in_etag c then rest else if c == 0x22 then some (c ∷ [], s) else none

unfoldable pub scanned : Bytes → Option (Bytes × Bytes) → Bytes × Bytes
scanned front none = ([], [])
scanned front (some (text, rest)) = (front ++ text, rest)

unfoldable pub scan_trimmed : Bytes → Bytes × Bytes
unfolding scanned
scan_trimmed s =
    let start = if has_prefix s weak_mark then 2 else 0 in
    if ltb (length (drop start s)) 2 || not (is_quoted (drop start s))
    then ([], [])
    else scanned (take (start + 1) s) (scan_text (drop (start + 1) s))

-- `scanETag`
unfoldable pub scan_etag : Bytes → Bytes × Bytes
scan_etag s = scan_trimmed (trim_string s)

unfoldable pub etag_strong_match : Bytes → Bytes → Bool
etag_strong_match a b = bytes_eq a b && is_quoted a

-- `strings.TrimPrefix(a, "W/")`
unfoldable pub without_mark : Bytes → Bytes
without_mark a = if has_prefix a weak_mark then drop 2 a else a

unfoldable pub etag_weak_match : Bytes → Bytes → Bool
unfolding without_mark
etag_weak_match a b = bytes_eq (without_mark a) (without_mark b)

pub data CondResult : Type 0 where
  cond_none : CondResult
  cond_true : CondResult
  cond_false : CondResult

abbrev pub is_false : CondResult → Bool
is_false cond_false = true
is_false _ = false

-- What a round of the loop that follows reads next: the text behind a comma or behind an ETag.
abbrev pub next_text : ℕ → Bytes → Bytes
next_text c s = if c == 0x2c then s else (scan_etag (c ∷ s)).1

-- One round of the loop on a trimmed text: `next` is the rest of the loop.
unfoldable pub etag_round :
    (Bytes → Bool)
    → CondResult
    → CondResult
    → (Bytes → Option CondResult)
    → Bytes
    → Option CondResult
etag_round matches found missed next [] = some missed
etag_round matches found missed next (c ∷ t) =
    let rest = next (next_text c t) in
    if c == 0x2c
    then rest
    else if c == 0x2a
    then some found
    else if length (scan_etag (c ∷ t)).0 == 0
    then some missed
    else if matches (scan_etag (c ∷ t)).0
    then some found
    else rest

-- The loop that `checkIfMatch` and `checkIfNoneMatch` both have: they differ in the comparison, in
-- what they return where it succeeds and in what they return at the end. `none`: no fuel is left.
unfoldable pub etag_loop : ℕ → (Bytes → Bool) → CondResult → CondResult → Bytes → Option CondResult
etag_loop zero matches found missed s = none
etag_loop (suc fuel) matches found missed s =
    etag_round matches found missed (λ u. etag_loop fuel matches found missed u) (trim_string s)

unfoldable pub check_if_match : Bytes → Bytes → Option CondResult
check_if_match im tag =
    if length im == 0
    then some cond_none
    else etag_loop (suc (length im)) (λ e. etag_strong_match e tag) cond_true cond_false im

unfoldable pub check_if_none_match : Bytes → Bytes → Option CondResult
check_if_none_match inm tag =
    if length inm == 0
    then some cond_none
    else etag_loop (suc (length inm)) (λ e. etag_weak_match e tag) cond_false cond_true inm

-- Request.Method, and the header values by their names.
pub record Request : Type 0 where
  pub method : Bytes
  pub if_match : Bytes
  pub if_none_match : Bytes
  pub if_modified_since : Bytes
  pub if_unmodified_since : Bytes
  pub if_range : Bytes
  pub range : Bytes

-- "GET" and "HEAD"
abbrev pub get_method : Bytes
get_method = 0x47 ∷ 0x45 ∷ 0x54 ∷ []

abbrev pub head_method : Bytes
head_method = 0x48 ∷ 0x45 ∷ 0x41 ∷ 0x44 ∷ []

abbrev pub is_get_or_head : Bytes → Bool
is_get_or_head m = bytes_eq m get_method || bytes_eq m head_method

-- `unixEpochTime`
abbrev pub unix_epoch_time : ℕ
unix_epoch_time = 62135596800 * 10 ^ 9

abbrev pub is_zero_time : ℕ → Bool
is_zero_time t = t == 0 || t == unix_epoch_time

-- `Truncate(time.Second)`
abbrev pub truncate : ℕ → ℕ
truncate t = t - t % 10 ^ 9

-- The layouts of `timeFormats`, in order.
pub data Layout : Type 0 where
  time_format : Layout
  rfc850 : Layout
  ansic : Layout

abbrev time_formats : List Layout
time_formats = time_format ∷ rfc850 ∷ ansic ∷ []

-- The loop of `ParseTime`.
unfoldable pub first_parsed : (Layout → Bytes → Option ℕ) → List Layout → Bytes → Option ℕ
first_parsed time_parse [] text = none
first_parsed time_parse (layout ∷ ls) text = elim (time_parse layout text) [
  | some t ↦ some t
  | none ↦ first_parsed time_parse ls text
]

unfoldable pub parse_time : (Layout → Bytes → Option ℕ) → Bytes → Option ℕ
unfolding first_parsed
parse_time time_parse text = first_parsed time_parse time_formats text

unfoldable pub unmodified_at : ℕ → Option ℕ → CondResult
unmodified_at modtime none = cond_none
unmodified_at modtime (some t) = if leb (truncate modtime) t then cond_true else cond_false

unfoldable pub modified_at : ℕ → Option ℕ → CondResult
modified_at modtime none = cond_none
modified_at modtime (some t) = if leb (truncate modtime) t then cond_false else cond_true

unfoldable pub same_second : ℕ → Option ℕ → CondResult
same_second modtime none = cond_false
same_second modtime (some t) = if t / 10 ^ 9 == modtime / 10 ^ 9 then cond_true else cond_false

-- What `checkPreconditions` does: it answers 412 or 304, or goes on with a `Range` header.
pub data Outcome : Type 0 where
  precondition_failed : Outcome
  not_modified : Outcome
  proceed : Bytes → Outcome

module _ (time_parse : Layout → Bytes → Option ℕ) where
  unfoldable pub check_if_unmodified_since : Request → ℕ → CondResult
  check_if_unmodified_since r modtime =
      if length r.if_unmodified_since == 0 || is_zero_time modtime
      then cond_none
      else unmodified_at modtime (parse_time time_parse r.if_unmodified_since)

  unfoldable pub check_if_modified_since : Request → ℕ → CondResult
  check_if_modified_since r modtime =
      if not (is_get_or_head r.method)
      then cond_none
      else if length r.if_modified_since == 0 || is_zero_time modtime
      then cond_none
      else modified_at modtime (parse_time time_parse r.if_modified_since)

  unfoldable pub check_if_range : Request → Bytes → ℕ → CondResult
  check_if_range r tag modtime =
      if not (is_get_or_head r.method)
      then cond_none
      else if length r.if_range == 0
      then cond_none
      else if not (length (scan_etag r.if_range).0 == 0)
      then (if etag_strong_match (scan_etag r.if_range).0 tag then cond_true else cond_false)
      else if modtime == 0
      then cond_false
      else same_second modtime (parse_time time_parse r.if_range)

  unfoldable pub going_on : Request → Bytes → ℕ → Outcome
  going_on r tag modtime =
      proceed (
        if not (length r.range == 0) && is_false (check_if_range r tag modtime)
        then []
        else r.range)

  unfoldable pub none_match_outcome : Request → Bytes → ℕ → CondResult → Outcome
  none_match_outcome r tag modtime cond_false =
      if is_get_or_head r.method then not_modified else precondition_failed
  none_match_outcome r tag modtime cond_none =
      if is_false (check_if_modified_since r modtime) then not_modified else going_on r tag modtime
  none_match_outcome r tag modtime cond_true = going_on r tag modtime

  abbrev pub or_unmodified : Request → ℕ → CondResult → CondResult
  or_unmodified r modtime cond_none = check_if_unmodified_since r modtime
  or_unmodified r modtime cond_true = cond_true
  or_unmodified r modtime cond_false = cond_false

  unfoldable pub match_outcome : Request → Bytes → ℕ → CondResult → Option Outcome
  match_outcome r tag modtime c =
      if is_false (or_unmodified r modtime c)
      then some precondition_failed
      else check_if_none_match r.if_none_match tag
        >>= (λ d. some (none_match_outcome r tag modtime d))

  -- `checkPreconditions`; `none`: no fuel is left.
  unfoldable pub check_preconditions : Request → Bytes → ℕ → Option Outcome
  unfolding match_outcome
  check_preconditions r tag modtime = check_if_match r.if_match tag >>= match_outcome r tag modtime
