-- ===== src/Fs/Condition/Scan.antt =====
-- What `scanETag` reads and leaves (fs.go).
use fhttp.Base.{
  ℕ, suc, ◌+◌, ◌≤◌, ◌<◌, ◌≡◌, ◌⊎◌, inl, inr, refl, not, ◌||◌, none, some, [], ◌∷◌, Bytes,
  has_prefix, length, take, drop, length-drop, ltb, ◌==◌, if◌then◌else◌, arith, Bool-cases,
}
use fhttp.Base.Text.{is_ascii_space, before_blank, trim_back}
use fhttp.Fs.{trim_front, trim_string}
use fhttp.Fs.Condition.{weak_mark, in_etag, is_quoted, scan_text, scanned, scan_trimmed, scan_etag}

trim_front_length : (s : Bytes) → length (trim_front s) ≤ length s
unfolding trim_front
trim_front_length [] = omega arith
trim_front_length (c ∷ s) = elim (Bool-cases (is_ascii_space c)) [
  | inl blank ↦ rw blank (omega (arith, trim_front_length s))
  | inr text ↦ rw text (omega arith)
]

before_blank_length : (c : ℕ) (s : Bytes) → length (before_blank c s) ≤ suc (length s)
unfolding before_blank
before_blank_length c [] = elim (Bool-cases (is_ascii_space c)) [
  | inl blank ↦ rw blank (omega arith)
  | inr text ↦ rw text (omega arith)
]
before_blank_length c (d ∷ s) = omega arith

trim_back_length : (s : Bytes) → length (trim_back s) ≤ length s
unfolding trim_back
trim_back_length [] = omega arith
trim_back_length (c ∷ s) = omega (arith, before_blank_length c (trim_back s), trim_back_length s)

pub trim_string_length : (s : Bytes) → length (trim_string s) ≤ length s
unfolding trim_string
trim_string_length s = omega (arith, trim_back_length (trim_front s), trim_front_length s)

-- The text and the rest that the loop finds, if it finds a closing quote.
scan_text-cases :
    (s : Bytes)
    → (scan_text s ≡ none)
      ⊎ ((text : Bytes) × (rest : Bytes) × (scan_text s ≡ some (text, rest))
          × (length rest < length s))
unfolding scan_text
scan_text-cases [] = inl refl
scan_text-cases (c ∷ s) = elim (Bool-cases (in_etag c)) [
  | inl allowed ↦ elim (scan_text-cases s) [
    | inl q ↦ inl (rw (allowed, q) refl)
    | inr (text, rest, q, lt) ↦ inr (c ∷ text, rest, rw (allowed, q) refl, omega arith)
  ]
  | inr other ↦ elim (Bool-cases (c == 0x22)) [
    | inl quote ↦ inr (c ∷ [], s, rw (other, quote) refl, omega arith)
    | inr wrong ↦ inl (rw (other, wrong) refl)
  ]
]

scanned_length :
    (n : ℕ) (front s : Bytes)
    → length s ≤ n
    → ((scanned front (scan_text s)).0 ≡ []) ⊎ (length (scanned front (scan_text s)).1 < n)
unfolding scanned
scanned_length n front s h = elim (scan_text-cases s) [
  | inl q ↦ inl (rw q refl)
  | inr (text, rest, q, lt) ↦ inr (rw q (omega arith))
]

scan_trimmed_length :
    (s : Bytes) → ((scan_trimmed s).0 ≡ []) ⊎ (length (scan_trimmed s).1 < length s)
unfolding scan_trimmed
scan_trimmed_length s =
    let start : ℕ = if has_prefix s weak_mark then 2 else 0 in
    elim (Bool-cases (ltb (length (drop start s)) 2 || not (is_quoted (drop start s)))) [
      | inl wrong ↦ inl (rw wrong refl)
      | inr quoted ↦ rw quoted (
          scanned_length (length s) (take (start + 1) s) (drop (start + 1) s)
            (omega (arith, length-drop (start + 1) s)))
    ]

-- What `scanETag` leaves is shorter than what it is given, unless it finds no ETag.
pub scan_etag_length : (s : Bytes) → ((scan_etag s).0 ≡ []) ⊎ (length (scan_etag s).1 < length s)
unfolding scan_etag
scan_etag_length s = elim (scan_trimmed_length (trim_string s)) [
  | inl q ↦ inl q
  | inr lt ↦ inr (omega (arith, trim_string_length s))
]
