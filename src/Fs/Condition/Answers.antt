-- ===== src/Fs/Condition/Answers.antt =====
-- Which answer the preconditions may give (fs.go).
use fhttp.Base.{
  ℕ, ◌+◌, ◌<◌, ◌≡◌, ◌⊎◌, inl, inr, refl, ap, ◌∙◌, Bool, true, false, not, ◌&&◌, Option, some, [],
  Bytes, length, ◌==◌, if◌then◌else◌, arith, Bool-cases,
}
use fhttp.Base.Options.{◌>>=◌}
use fhttp.Fs.Condition.{
  Layout, CondResult, cond_none, cond_true, cond_false, is_false, check_if_match,
  check_if_none_match, Request, is_get_or_head, check_if_unmodified_since, check_if_modified_since,
  check_if_range, Outcome, precondition_failed, not_modified, proceed, going_on, or_unmodified,
  none_match_outcome, match_outcome, check_preconditions,
}
use fhttp.Fs.Condition.Terms.{check_if_match-Halts, check_if_none_match-Halts}

-- What a request must say for each answer: a 412 needs one of three headers; a 304 needs GET or HEAD
-- and one of two headers; and `Range` is passed on, unless there is an `If-Range`.
abbrev pub IsAllowed : Request → Outcome → Type 0
IsAllowed r precondition_failed =
    0 < length r.if_match + length r.if_unmodified_since + length r.if_none_match
IsAllowed r not_modified =
    (is_get_or_head r.method ≡ true) × (0 < length r.if_none_match + length r.if_modified_since)
IsAllowed r (proceed s) = (s ≡ r.range) ⊎ ((s ≡ []) × (0 < length r.if_range))

given_match : (im tag : Bytes) → check_if_match im tag ≡ some cond_false → 0 < length im
unfolding check_if_match
given_match im tag h = ground arith

given_none_match :
    (inm tag : Bytes) → check_if_none_match inm tag ≡ some cond_false → 0 < length inm
unfolding check_if_none_match
given_none_match inm tag h = ground arith

was_false : (c : CondResult) → is_false c ≡ true → c ≡ cond_false
was_false cond_false h = refl
was_false cond_none h = cc
was_false cond_true h = cc

module _ (time_parse : Layout → Bytes → Option ℕ) (r : Request) (tag : Bytes) (modtime : ℕ) where
  given_unmodified :
      check_if_unmodified_since time_parse r modtime ≡ cond_false → 0 < length r.if_unmodified_since
  unfolding check_if_unmodified_since
  given_unmodified h = ground arith

  given_modified :
      is_false (check_if_modified_since time_parse r modtime) ≡ true
      → (is_get_or_head r.method ≡ true) × (0 < length r.if_modified_since)
  unfolding check_if_modified_since
  given_modified h = ground arith

  given_range : is_false (check_if_range time_parse r tag modtime) ≡ true → 0 < length r.if_range
  unfolding check_if_range
  given_range h = ground arith

  going_on-IsAllowed : IsAllowed r (going_on time_parse r tag modtime)
  unfolding going_on
  going_on-IsAllowed =
      kept_or_dropped (not (length r.range == 0))
        (is_false (check_if_range time_parse r tag modtime)) given_range
    where
      kept_or_dropped :
          (given dropped : Bool)
          → (dropped ≡ true → 0 < length r.if_range)
          → ((if given && dropped then [] else r.range) ≡ r.range)
            ⊎ (((if given && dropped then [] else r.range) ≡ []) × (0 < length r.if_range))
      kept_or_dropped false dropped h = inl refl
      kept_or_dropped true false h = inl refl
      kept_or_dropped true true h = inr (refl, h refl)

  given_either :
      (c : CondResult)
      → (c ≡ cond_false → 0 < length r.if_match)
      → is_false (or_unmodified time_parse r modtime c) ≡ true
      → 0 < length r.if_match + length r.if_unmodified_since + length r.if_none_match
  given_either cond_false given h = let held = given refl in omega arith
  given_either cond_true given h = cc
  given_either cond_none given h =
      let held = given_unmodified (was_false (check_if_unmodified_since time_parse r modtime) h) in
      omega arith

  none_match_outcome-IsAllowed :
      (c : CondResult)
      → (c ≡ cond_false → 0 < length r.if_none_match)
      → IsAllowed r (none_match_outcome time_parse r tag modtime c)
  unfolding none_match_outcome
  none_match_outcome-IsAllowed cond_false given =
      let held = given refl in
      elim (Bool-cases (is_get_or_head r.method)) [
        | inl q ↦ rw q (q, omega arith)
        | inr q ↦ rw q (omega arith)
      ]
  none_match_outcome-IsAllowed cond_none given =
      elim (Bool-cases (is_false (check_if_modified_since time_parse r modtime))) [
        | inl q ↦ let t = given_modified q in rw q (t.0, omega (arith, t.1))
        | inr q ↦ rw q going_on-IsAllowed
      ]
  none_match_outcome-IsAllowed cond_true given = going_on-IsAllowed

  match_outcome-IsAllowed :
      (c : CondResult)
      → (c ≡ cond_false → 0 < length r.if_match)
      → (o : Outcome) × (match_outcome time_parse r tag modtime c ≡ some o) × IsAllowed r o
  unfolding match_outcome
  match_outcome-IsAllowed c given =
      let (d, run) = check_if_none_match-Halts r.if_none_match tag in
      elim (Bool-cases (is_false (or_unmodified time_parse r modtime c))) [
        | inl failed ↦ (precondition_failed, rw failed refl, given_either c given failed)
        | inr passed ↦ (
          none_match_outcome time_parse r tag modtime d,
          rw (passed, run) refl,
          none_match_outcome-IsAllowed d
              (λ e. given_none_match r.if_none_match tag (run ∙ ap some e)),
        )
      ]

-- The checks of the preconditions come to an end on every request. They answer 412 only where it has
-- an `If-Match`, `If-Unmodified-Since` or `If-None-Match` header, and 304 only to GET and HEAD with an
-- `If-None-Match` or `If-Modified-Since` header; a request that goes on keeps its `Range` header,
-- unless it has an `If-Range` header, by which it may lose it.
pub check_preconditions-IsAllowed :
    (time_parse : Layout → Bytes → Option ℕ) (r : Request) (tag : Bytes) (modtime : ℕ)
    → (o : Outcome) × (check_preconditions time_parse r tag modtime ≡ some o) × IsAllowed r o
unfolding check_preconditions
check_preconditions-IsAllowed time_parse r tag modtime =
    let (c, run) = check_if_match-Halts r.if_match tag in
    let t =
      match_outcome-IsAllowed time_parse r tag modtime c
        (λ e. given_match r.if_match tag (run ∙ ap some e)) in
    (t.0, ap (λ o. o >>= match_outcome time_parse r tag modtime) run ∙ t.1, t.2)
