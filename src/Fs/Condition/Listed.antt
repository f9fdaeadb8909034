-- ===== src/Fs/Condition/Listed.antt =====
-- What the checks answer on a header that lists ETags (fs.go).
use mathlib.Core.Path.{fun_ext}
use fhttp.Base.{
  ℕ, zero, suc, ◌<◌, ◌≡◌, inl, inr, refl, sym, ap, ◌∙◌, Bool, true, false, not, ◌&&◌, ◌||◌,
  bytes_eq, has_prefix, Option, some, List, [], ◌∷◌, ◌++◌, Bytes, length, length-append, ◌==◌,
  if◌then◌else◌, arith, Bool-cases, All,
}
use fhttp.Base.Text.{trim_back}
use fhttp.Fs.{trim_string, trim_front}
use fhttp.Fs.Condition.{
  scan_etag, etag_strong_match, etag_weak_match, CondResult, cond_true, cond_false, etag_round,
  etag_loop, check_if_match, check_if_none_match,
}
use fhttp.Fs.Condition.Entities.{
  Etag, IsEtag, etag_front, etag_bytes, etag_bytes-append, etags_after, etag_list,
  trim_string-etag_list, trim_string_space, trim_string-etags_after, scan_etag-etag_list,
}

abbrev pub any_etag : (Etag → Bool) → List Etag → Bool
any_etag test [] = false
any_etag test (e ∷ es) = test e || any_etag test es

etag_bytes_pos : (e : Etag) → 0 < length (etag_bytes e)
etag_bytes_pos e = omega (
  arith,
  length-append (etag_front e.weak) (e.text ++ 0x22 ∷ []),
  length-append e.text (0x22 ∷ []),
)

module _ (matches : Bytes → Bool) (found missed : CondResult) where
  abbrev answer : Bool → CondResult
  answer b = if b then found else missed

  -- A round on an ETag, where the loop answers on what is left.
  etag_round-tag :
      (next : Bytes → Option CondResult) (c : ℕ) (t tag rest : Bytes) (b : Bool)
      → (c == 0x2c) ≡ false
      → (c == 0x2a) ≡ false
      → scan_etag (c ∷ t) ≡ (tag, rest)
      → (length tag == 0) ≡ false
      → next rest ≡ some (answer b)
      → etag_round matches found missed next (c ∷ t) ≡ some (answer (matches tag || b))
  unfolding etag_round
  etag_round-tag next c t tag rest b comma star scan given h = elim (Bool-cases (matches tag)) [
    | inl equal ↦ rw (comma, star, scan, given, equal) refl
    | inr unequal ↦ rw (comma, star, scan, given, unequal, h) refl
  ]

  etag_round-etag_front :
      (next : Bytes → Option CondResult) (w : Bool) (text rest : Bytes) (b : Bool)
      → scan_etag (etag_front w ++ (text ++ 0x22 ∷ rest))
        ≡ (etag_front w ++ (text ++ 0x22 ∷ []), rest)
      → next rest ≡ some (answer b)
      → etag_round matches found missed next (etag_front w ++ (text ++ 0x22 ∷ rest))
        ≡ some (answer (matches (etag_front w ++ (text ++ 0x22 ∷ [])) || b))
  etag_round-etag_front next true text rest b scan h =
      etag_round-tag next 0x57 (0x2f ∷ 0x22 ∷ (text ++ 0x22 ∷ rest)) _ rest b refl refl scan
        (ground arith) h
  etag_round-etag_front next false text rest b scan h =
      etag_round-tag next 0x22 (text ++ 0x22 ∷ rest) _ rest b refl refl scan (ground arith) h

  etag_round-etag_list :
      (next : Bytes → Option CondResult) (e : Etag) (es : List Etag) (b : Bool)
      → IsEtag e
      → next (etags_after es) ≡ some (answer b)
      → etag_round matches found missed next (etag_list e es)
        ≡ some (answer (matches (etag_bytes e) || b))
  etag_round-etag_list next e es b v h =
      let split = etag_bytes-append e (etags_after es) in
      ap (etag_round matches found missed next) split
      ∙ etag_round-etag_front next e.weak e.text (etags_after es) b
          (ap scan_etag (sym split) ∙ scan_etag-etag_list e es v) h

  -- The loop on a list of ETags, and on those behind a first one, which a comma and a space precede.
  etag_loop-etag_list :
      (fuel : ℕ) (s : Bytes) (e : Etag) (es : List Etag) (b : Bool)
      → IsEtag e
      → trim_string s ≡ etag_list e es
      → etag_loop fuel matches found missed (etags_after es) ≡ some (answer b)
      → etag_loop (suc fuel) matches found missed s ≡ some (answer (matches (etag_bytes e) || b))
  unfolding etag_loop
  etag_loop-etag_list fuel s e es b v trimmed h =
      ap (etag_round matches found missed (λ u. etag_loop fuel matches found missed u)) trimmed
      ∙ etag_round-etag_list (λ u. etag_loop fuel matches found missed u) e es b v h

  etag_loop_comma :
      (fuel : ℕ) (e : Etag) (es : List Etag)
      → etag_loop (suc fuel) matches found missed (etags_after (e ∷ es))
        ≡ etag_loop fuel matches found missed (0x20 ∷ etag_list e es)
  unfolding etag_loop etag_round
  etag_loop_comma fuel e es =
      ap (etag_round matches found missed (λ u. etag_loop fuel matches found missed u))
        (trim_string-etags_after (e ∷ es))

  etag_loop-etags_after :
      (fuel : ℕ) (es : List Etag)
      → All IsEtag es
      → length (etags_after es) < fuel
      → etag_loop fuel matches found missed (etags_after es)
        ≡ some (answer (any_etag (λ e. matches (etag_bytes e)) es))
  unfolding etag_loop etag_round trim_string trim_front trim_back
  etag_loop-etags_after zero es v h = absurd (omega arith)
  etag_loop-etags_after (suc fuel) [] v h = refl
  etag_loop-etags_after (suc zero) (e ∷ es) v h = absurd (omega arith)
  etag_loop-etags_after (suc (suc fuel)) (e ∷ es) v h =
      etag_loop_comma (suc fuel) e es
      ∙ etag_loop-etag_list fuel (0x20 ∷ etag_list e es) e es _ v.0
          (trim_string_space (etag_list e es) ∙ trim_string-etag_list e es)
          (etag_loop-etags_after fuel es v.1
            (omega (arith, length-append (etag_bytes e) (etags_after es))))

  pub etag_loop_lem :
      (e : Etag) (es : List Etag)
      → All IsEtag (e ∷ es)
      → etag_loop (suc (length (etag_list e es))) matches found missed (etag_list e es)
        ≡ some (answer (any_etag (λ x. matches (etag_bytes x)) (e ∷ es)))
  etag_loop_lem e es v =
      etag_loop-etag_list (length (etag_list e es)) (etag_list e es) e es _ v.0
        (trim_string-etag_list e es)
        (etag_loop-etags_after (length (etag_list e es)) es v.1
          (omega (arith, length-append (etag_bytes e) (etags_after es), etag_bytes_pos e)))

bytes_eq_snoc : (c : ℕ) (s t : Bytes) → bytes_eq (s ++ c ∷ []) (t ++ c ∷ []) ≡ bytes_eq s t
unfolding bytes_eq
bytes_eq_snoc c [] [] = ground arith
bytes_eq_snoc c [] (y ∷ []) = ground arith
bytes_eq_snoc c [] (y ∷ z ∷ t) = ground arith
bytes_eq_snoc c (x ∷ []) [] = ground arith
bytes_eq_snoc c (x ∷ z ∷ s) [] = ground arith
bytes_eq_snoc c (x ∷ s) (y ∷ t) = ap (λ b. x == y && b) (bytes_eq_snoc c s t)

-- The comparisons of RFC 7232, section 2.3.2.
abbrev pub strong_match : Etag → Etag → Bool
strong_match a b = (not a.weak && not b.weak) && bytes_eq a.text b.text

abbrev pub weak_match : Etag → Etag → Bool
weak_match a b = bytes_eq a.text b.text

etag_strong_match-strong_match :
    (v w : Bool) (s t : Bytes)
    → etag_strong_match (etag_front v ++ (s ++ 0x22 ∷ [])) (etag_front w ++ (t ++ 0x22 ∷ []))
      ≡ ((not v && not w) && bytes_eq s t)
unfolding etag_strong_match bytes_eq
etag_strong_match-strong_match true true s t = ground arith
etag_strong_match-strong_match true false s t = ground arith
etag_strong_match-strong_match false true s t = ground arith
etag_strong_match-strong_match false false s t = ground (arith, bytes_eq_snoc 0x22 s t)

etag_weak_match-weak_match :
    (v w : Bool) (s t : Bytes)
    → etag_weak_match (etag_front v ++ (s ++ 0x22 ∷ [])) (etag_front w ++ (t ++ 0x22 ∷ []))
      ≡ bytes_eq s t
unfolding etag_weak_match bytes_eq has_prefix
etag_weak_match-weak_match true true s t = bytes_eq_snoc 0x22 s t
etag_weak_match-weak_match true false s t = bytes_eq_snoc 0x22 s t
etag_weak_match-weak_match false true s t = bytes_eq_snoc 0x22 s t
etag_weak_match-weak_match false false s t = bytes_eq_snoc 0x22 s t

not_empty : (e : Etag) (es : List Etag) → (length (etag_list e es) == 0) ≡ false
not_empty e es = ground (arith, length-append (etag_bytes e) (etags_after es), etag_bytes_pos e)

check_if_match-etag_list :
    (e : Etag) (es : List Etag) (tag : Etag)
    → All IsEtag (e ∷ es)
    → check_if_match (etag_list e es) (etag_bytes tag)
      ≡ some (if any_etag (λ x. strong_match x tag) (e ∷ es) then cond_true else cond_false)
unfolding check_if_match
check_if_match-etag_list e es tag v = rw (not_empty e es) (
    etag_loop_lem (λ s. etag_strong_match s (etag_bytes tag)) cond_true cond_false e es v
    ∙ ap (λ (f : Etag → Bool). some (if any_etag f (e ∷ es) then cond_true else cond_false))
        (fun_ext (λ x. etag_strong_match-strong_match x.weak tag.weak x.text tag.text)))

check_if_none_match-etag_list :
    (e : Etag) (es : List Etag) (tag : Etag)
    → All IsEtag (e ∷ es)
    → check_if_none_match (etag_list e es) (etag_bytes tag)
      ≡ some (if any_etag (λ x. weak_match x tag) (e ∷ es) then cond_false else cond_true)
unfolding check_if_none_match
check_if_none_match-etag_list e es tag v = rw (not_empty e es) (
    etag_loop_lem (λ s. etag_weak_match s (etag_bytes tag)) cond_false cond_true e es v
    ∙ ap (λ (f : Etag → Bool). some (if any_etag f (e ∷ es) then cond_false else cond_true))
        (fun_ext (λ x. etag_weak_match-weak_match x.weak tag.weak x.text tag.text)))

-- On a header that lists valid ETags, `checkIfMatch` answers true just where one of them is the
-- response's ETag by the strong comparison, and false elsewhere; and `checkIfNoneMatch` answers false
-- just where one of them is the response's ETag by the weak comparison, and true elsewhere.
pub checks-etag_list :
    (e : Etag) (es : List Etag) (tag : Etag)
    → All IsEtag (e ∷ es)
    → (check_if_match (etag_list e es) (etag_bytes tag)
        ≡ some (if any_etag (λ x. strong_match x tag) (e ∷ es) then cond_true else cond_false))
      × (check_if_none_match (etag_list e es) (etag_bytes tag)
          ≡ some (if any_etag (λ x. weak_match x tag) (e ∷ es) then cond_false else cond_true))
checks-etag_list e es tag v =
    (check_if_match-etag_list e es tag v, check_if_none_match-etag_list e es tag v)
