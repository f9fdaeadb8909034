-- ===== src/Fs/Condition/Terms.antt =====
-- The loop over the ETags of a header comes to an end (fs.go).
use fhttp.Base.{
  ℕ, zero, suc, ◌<◌, ◌≡◌, inl, inr, refl, Bool, Option, some, [], ◌∷◌, Bytes, length, ◌==◌, arith,
  Bool-cases,
}
use fhttp.Fs.{trim_string}
use fhttp.Fs.Condition.{
  scan_etag, etag_strong_match, etag_weak_match, CondResult, cond_none, cond_true, cond_false,
  etag_round, etag_loop, check_if_match, check_if_none_match,
}
use fhttp.Fs.Condition.Scan.{trim_string_length, scan_etag_length}

abbrev pub Halts : Option CondResult → Type 0
Halts o = (r : CondResult) × (o ≡ some r)

module _ (matches : Bytes → Bool) (found missed : CondResult) where
  -- One round, where the rest of the loop comes to an end on each shorter text.
  etag_round-Halts :
      (next : Bytes → Option CondResult) (s : Bytes)
      → ((u : Bytes) → length u < length s → Halts (next u))
      → Halts (etag_round matches found missed next s)
  unfolding etag_round
  etag_round-Halts next [] h = (missed, refl)
  etag_round-Halts next (c ∷ t) h = elim (Bool-cases (c == 0x2c)) [
    | inl comma ↦ rw comma (h t (omega arith))
    | inr other ↦ elim (Bool-cases (c == 0x2a)) [
      | inl star ↦ rw (other, star) (found, refl)
      | inr more ↦ elim (scan_etag_length (c ∷ t)) [
        | inl nothing ↦ rw (other, more, nothing) (missed, refl)
        | inr shorter ↦
            let rest_halts = h (scan_etag (c ∷ t)).1 shorter in
            elim (Bool-cases (length (scan_etag (c ∷ t)).0 == 0)) [
              | inl nothing ↦ rw (other, more, nothing) (missed, refl)
              | inr some_tag ↦ elim (Bool-cases (matches (scan_etag (c ∷ t)).0)) [
                | inl equal ↦ rw (other, more, some_tag, equal) (found, refl)
                | inr unequal ↦ rw (other, more, some_tag, unequal) rest_halts
              ]
            ]
      ]
    ]
  ]

  etag_loop-Halts :
      (fuel : ℕ) (s : Bytes) → length s < fuel → Halts (etag_loop fuel matches found missed s)
  unfolding etag_loop
  etag_loop-Halts zero s h = absurd (omega arith)
  etag_loop-Halts (suc fuel) s h =
      etag_round-Halts (λ u. etag_loop fuel matches found missed u) (trim_string s)
        (λ u shorter. etag_loop-Halts fuel u (omega (arith, trim_string_length s, shorter)))

pub check_if_match-Halts : (im tag : Bytes) → Halts (check_if_match im tag)
unfolding check_if_match
check_if_match-Halts im tag = elim (Bool-cases (length im == 0)) [
  | inl missing ↦ rw missing (cond_none, refl)
  | inr given ↦ rw given (
      etag_loop-Halts (λ e. etag_strong_match e tag) cond_true cond_false (suc (length im)) im
        (omega arith))
]

pub check_if_none_match-Halts : (inm tag : Bytes) → Halts (check_if_none_match inm tag)
unfolding check_if_none_match
check_if_none_match-Halts inm tag = elim (Bool-cases (length inm == 0)) [
  | inl missing ↦ rw missing (cond_none, refl)
  | inr given ↦ rw given (
      etag_loop-Halts (λ e. etag_weak_match e tag) cond_false cond_true (suc (length inm)) inm
        (omega arith))
]
