-- ===== src/Base/Text.antt =====
-- Texts cut at a byte, and white space at their end.
use mathlib.Core.Option
use fhttp.Base.{
  ℕ, ◌≡◌, refl, ap, Bool, false, ◌||◌, Option, none, some, List, [], ◌∷◌, ◌++◌, Bytes, ◌==◌,
  if◌then◌else◌, All, Bool-cases, inl, inr,
}

-- `strings.Split` with a separator of one byte.
-- Nothing comes of an empty list: `split` is never empty.
unfoldable pub onto_first : ℕ → List Bytes → List Bytes
onto_first c [] = (c ∷ []) ∷ []
onto_first c (p ∷ ps) = (c ∷ p) ∷ ps

unfoldable pub split : ℕ → Bytes → List Bytes
split sep [] = [] ∷ []
split sep (c ∷ s) = let rest = split sep s in if c == sep then [] ∷ rest else onto_first c rest

-- The text before and after the first `sep`, if there is one (`strings.Index`).
unfoldable pub cut : ℕ → Bytes → Option (Bytes × Bytes)
cut sep [] = none
cut sep (c ∷ s) =
    let rest = Option.map (λ r. (c ∷ r.0, r.1)) (cut sep s) in
    if c == sep then some ([], s) else rest

unfoldable pub contains : ℕ → Bytes → Bool
contains sep [] = false
contains sep (c ∷ s) = c == sep || contains sep s

abbrev pub Avoids : ℕ → Bytes → Type 0
Avoids sep s = All (λ c. (c == sep) ≡ false) s

onto_first-Avoids :
    (sep c : ℕ) (ps : List Bytes)
    → (c == sep) ≡ false
    → All (Avoids sep) ps
    → All (Avoids sep) (onto_first c ps)
unfolding onto_first
onto_first-Avoids sep c [] e a = ((e, tt), tt)
onto_first-Avoids sep c (p ∷ ps) e a = ((e, a.0), a.1)

-- The parts of a text are without the separator.
pub split-Avoids : (sep : ℕ) (s : Bytes) → All (Avoids sep) (split sep s)
unfolding split
split-Avoids sep [] = (tt, tt)
split-Avoids sep (c ∷ s) = elim (Bool-cases (c == sep)) [
  | inl here ↦ rw here (tt, split-Avoids sep s)
  | inr other ↦ rw other (onto_first-Avoids sep c (split sep s) other (split-Avoids sep s))
]

abbrev pub is_ascii_space : ℕ → Bool
is_ascii_space c = (c == 0x20 || c == 0x09) || (c == 0x0a || c == 0x0d)

-- White space at the end is dropped.
unfoldable pub before_blank : ℕ → Bytes → Bytes
before_blank c [] = if is_ascii_space c then [] else c ∷ []
before_blank c (d ∷ s) = c ∷ d ∷ s

unfoldable pub trim_back : Bytes → Bytes
trim_back [] = []
trim_back (c ∷ s) = before_blank c (trim_back s)

before_blank_text : (d : ℕ) (zs : Bytes) → is_ascii_space d ≡ false → before_blank d zs ≡ d ∷ zs
unfolding before_blank
before_blank_text d [] h = rw h refl
before_blank_text d (z ∷ zs) h = refl

pub trim_back-append :
    (xs : Bytes) (c : ℕ) (ys : Bytes)
    → is_ascii_space c ≡ false
    → trim_back (xs ++ c ∷ ys) ≡ xs ++ c ∷ trim_back ys
unfolding trim_back before_blank
trim_back-append [] c ys h = before_blank_text c (trim_back ys) h
trim_back-append (x ∷ []) c ys h = ap (before_blank x) (trim_back-append [] c ys h)
trim_back-append (x ∷ y ∷ xs) c ys h = ap (before_blank x) (trim_back-append (y ∷ xs) c ys h)
