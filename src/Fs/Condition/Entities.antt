-- ===== src/Fs/Condition/Entities.antt =====
-- What `scanETag` finds at the front of a list of ETags (fs.go).
use fhttp.Base.{
  suc, ◌≡◌, refl, sym, ap, ◌∙◌, Bool, true, false, some, List, [], ◌∷◌, ◌++◌, append_assoc, Bytes,
  has_prefix, length, length-append, ltb, arith, All,
}
use fhttp.Base.Text.{trim_back, trim_back-append}
use fhttp.Fs.{trim_front, trim_string}
use fhttp.Fs.Condition.{in_etag, scan_text, scanned, scan_trimmed, scan_etag}

-- A valid ETag: `"text"`, or `W/"text"` where it is weak.
pub record Etag : Type 0 where
  pub weak : Bool
  pub text : Bytes

abbrev pub IsEtag : Etag → Type 0
IsEtag e = All (λ c. in_etag c ≡ true) e.text

abbrev pub etag_front : Bool → Bytes
etag_front true = 0x57 ∷ 0x2f ∷ 0x22 ∷ []
etag_front false = 0x22 ∷ []

abbrev pub etag_bytes : Etag → Bytes
etag_bytes e = etag_front e.weak ++ (e.text ++ 0x22 ∷ [])

-- The list of a header: the ETags with a comma and a space between them.
abbrev pub etags_after : List Etag → Bytes
etags_after [] = []
etags_after (e ∷ es) = 0x2c ∷ 0x20 ∷ (etag_bytes e ++ etags_after es)

abbrev pub etag_list : Etag → List Etag → Bytes
etag_list e es = etag_bytes e ++ etags_after es

scan_text-append :
    (text rest : Bytes)
    → All (λ c. in_etag c ≡ true) text
    → scan_text (text ++ 0x22 ∷ rest) ≡ some (text ++ 0x22 ∷ [], rest)
unfolding scan_text
scan_text-append [] rest a = refl
scan_text-append (c ∷ text) rest a = rw (a.0, scan_text-append text rest a.1) refl

pub etag_bytes-append :
    (e : Etag) (rest : Bytes) → etag_bytes e ++ rest ≡ etag_front e.weak ++ (e.text ++ 0x22 ∷ rest)
etag_bytes-append e rest =
    append_assoc (etag_front e.weak) (e.text ++ 0x22 ∷ []) rest
    ∙ ap (λ t. etag_front e.weak ++ t) (append_assoc e.text (0x22 ∷ []) rest)

-- Trimming the back of a text that an ETag ends.
trim_back-etag_bytes :
    (xs : Bytes) (e : Etag) (rest : Bytes)
    → trim_back (xs ++ (etag_bytes e ++ rest)) ≡ xs ++ (etag_bytes e ++ trim_back rest)
trim_back-etag_bytes xs e rest =
    ap trim_back (inside rest)
    ∙ trim_back-append (xs ++ (etag_front e.weak ++ e.text)) 0x22 rest refl
    ∙ sym (inside (trim_back rest))
  where
    inside :
        (r : Bytes) → xs ++ (etag_bytes e ++ r) ≡ (xs ++ (etag_front e.weak ++ e.text)) ++ 0x22 ∷ r
    inside r =
        ap (λ t. xs ++ t)
          (etag_bytes-append e r ∙ sym (append_assoc (etag_front e.weak) e.text (0x22 ∷ r)))
        ∙ sym (append_assoc xs (etag_front e.weak ++ e.text) (0x22 ∷ r))

trim_back-etags_after : (es : List Etag) → trim_back (etags_after es) ≡ etags_after es
unfolding trim_back
trim_back-etags_after [] = refl
trim_back-etags_after (e ∷ es) =
    trim_back-etag_bytes (0x2c ∷ 0x20 ∷ []) e (etags_after es)
    ∙ ap (λ t. 0x2c ∷ 0x20 ∷ (etag_bytes e ++ t)) (trim_back-etags_after es)

trim_front-etag_front : (b : Bool) (s : Bytes) → trim_front (etag_front b ++ s) ≡ etag_front b ++ s
unfolding trim_front
trim_front-etag_front true s = refl
trim_front-etag_front false s = refl

pub trim_string-etag_list :
    (e : Etag) (es : List Etag) → trim_string (etag_list e es) ≡ etag_list e es
unfolding trim_string
trim_string-etag_list e es =
    ap trim_back (
      ap trim_front (etag_bytes-append e (etags_after es))
      ∙ trim_front-etag_front e.weak (e.text ++ 0x22 ∷ etags_after es)
      ∙ sym (etag_bytes-append e (etags_after es)))
    ∙ trim_back-etag_bytes [] e (etags_after es)
    ∙ ap (λ t. etag_bytes e ++ t) (trim_back-etags_after es)

-- The space behind a comma is dropped, the comma is not.
pub trim_string_space : (s : Bytes) → trim_string (0x20 ∷ s) ≡ trim_string s
unfolding trim_string trim_front
trim_string_space s = refl

pub trim_string-etags_after : (es : List Etag) → trim_string (etags_after es) ≡ etags_after es
unfolding trim_string trim_front trim_back
trim_string-etags_after [] = refl
trim_string-etags_after (e ∷ es) = trim_back-etags_after (e ∷ es)

quoted_long : (text rest : Bytes) → ltb (suc (length (text ++ 0x22 ∷ rest))) 2 ≡ false
quoted_long text rest = ground (arith, length-append text (0x22 ∷ rest))

scan_trimmed-etag_front :
    (b : Bool) (text rest : Bytes)
    → All (λ c. in_etag c ≡ true) text
    → scan_trimmed (etag_front b ++ (text ++ 0x22 ∷ rest))
      ≡ (etag_front b ++ (text ++ 0x22 ∷ []), rest)
unfolding scan_trimmed has_prefix scanned
scan_trimmed-etag_front true text rest a =
    rw (quoted_long text rest, scan_text-append text rest a) refl
scan_trimmed-etag_front false text rest a =
    rw (quoted_long text rest, scan_text-append text rest a) refl

pub scan_etag-etag_list :
    (e : Etag) (es : List Etag)
    → IsEtag e
    → scan_etag (etag_list e es) ≡ (etag_bytes e, etags_after es)
unfolding scan_etag
scan_etag-etag_list e es v =
    ap scan_trimmed (trim_string-etag_list e es ∙ etag_bytes-append e (etags_after es))
    ∙ scan_trimmed-etag_front e.weak e.text (etags_after es) v
