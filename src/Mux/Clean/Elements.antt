-- ===== src/Mux/Clean/Elements.antt =====
-- The elements that cleaning finds in a path, and finds again in what it writes (server.go).
use fhttp.Base.{
  ℕ, ◌<◌, ◌≡◌, inl, inr, refl, ap, ◌∙◌, false, ◌||◌, List, [], ◌∷◌, ◌++◌, Bytes, length, bytes_eq,
  ◌==◌, All, Bool-cases, arith,
}
use fhttp.Base.Text.{split, onto_first, Avoids}
use fhttp.Mux.Clean.{dot, dots, tail, step, resolve, rooted}

-- An element that cleaning keeps.
abbrev pub IsElement : Bytes → Type 0
IsElement s =
    Avoids 0x2f s × ((length s == 0) ≡ false) × (bytes_eq s dot ≡ false) × (bytes_eq s dots ≡ false)

tail-IsElement : (acc : List Bytes) → All IsElement acc → All IsElement (tail acc)
tail-IsElement [] a = tt
tail-IsElement (s ∷ acc) a = a.1

step-IsElement :
    (acc : List Bytes) (s : Bytes) → Avoids 0x2f s → All IsElement acc → All IsElement (step acc s)
unfolding step
step-IsElement acc s h a = elim (Bool-cases (length s == 0 || bytes_eq s dot)) [
  | inl skipped ↦ rw skipped a
  | inr kept ↦ elim (Bool-cases (bytes_eq s dots)) [
    | inl up ↦ rw (kept, up) (tail-IsElement acc a)
    | inr down ↦ rw (kept, down) ((h, ground arith, ground arith, down), a)
  ]
]

pub resolve-IsElement :
    (ss acc : List Bytes)
    → All (Avoids 0x2f) ss
    → All IsElement acc
    → All IsElement (resolve acc ss)
unfolding resolve
resolve-IsElement [] acc h a = a
resolve-IsElement (s ∷ ss) acc h a =
    resolve-IsElement ss (step acc s) h.1 (step-IsElement acc s h.0 a)

resolve-append :
    (ss : List Bytes) (acc : List Bytes) (s : Bytes)
    → resolve acc (ss ++ s ∷ []) ≡ step (resolve acc ss) s
unfolding resolve
resolve-append [] acc s = refl
resolve-append (x ∷ ss) acc s = resolve-append ss (step acc x) s

-- An element behind a path.
onto_first-append :
    (c : ℕ) (ps qs : List Bytes) → 0 < length ps → onto_first c (ps ++ qs) ≡ onto_first c ps ++ qs
unfolding onto_first
onto_first-append c [] qs h = absurd (omega arith)
onto_first-append c (p ∷ ps) qs h = refl

onto_first_pos : (c : ℕ) (ps : List Bytes) → 0 < length (onto_first c ps)
unfolding onto_first
onto_first_pos c [] = omega arith
onto_first_pos c (p ∷ ps) = omega arith

split_pos : (s : Bytes) → 0 < length (split 0x2f s)
unfolding split
split_pos [] = omega arith
split_pos (c ∷ s) = elim (Bool-cases (c == 0x2f)) [
  | inl slash ↦ rw slash (omega arith)
  | inr other ↦ rw other (onto_first_pos c (split 0x2f s))
]

split_self : (s : Bytes) → Avoids 0x2f s → split 0x2f s ≡ s ∷ []
unfolding split onto_first
split_self [] a = refl
split_self (c ∷ s) a = rw (a.0, split_self s a.1) refl

split-append :
    (xs s : Bytes) → Avoids 0x2f s → split 0x2f (xs ++ 0x2f ∷ s) ≡ split 0x2f xs ++ s ∷ []
unfolding split
split-append [] s a = rw (split_self s a) refl
split-append (c ∷ xs) s a = elim (Bool-cases (c == 0x2f)) [
  | inl slash ↦ rw (slash, split-append xs s a) refl
  | inr other ↦
      rw (other, split-append xs s a) (onto_first-append c (split 0x2f xs) (s ∷ []) (split_pos xs))
]

step-cons : (acc : List Bytes) (s : Bytes) → IsElement s → step acc s ≡ s ∷ acc
unfolding step
step-cons acc s v = rw (v.1, v.2, v.3) refl

pub resolve-rooted :
    (acc : List Bytes) → All IsElement acc → resolve [] (split 0x2f (rooted acc)) ≡ acc
unfolding rooted resolve split step
resolve-rooted [] a = refl
resolve-rooted (s ∷ acc) a =
    ap (resolve []) (split-append (rooted acc) s a.0.0)
    ∙ resolve-append (split 0x2f (rooted acc)) [] s
    ∙ ap (λ t. step t s) (resolve-rooted acc a.1)
    ∙ step-cons acc s a.0

-- A slash at the end adds no element.
pub resolve-rooted_slash :
    (acc : List Bytes) → All IsElement acc → resolve [] (split 0x2f (rooted acc ++ 0x2f ∷ [])) ≡ acc
unfolding step
resolve-rooted_slash acc a =
    ap (resolve []) (split-append (rooted acc) [] tt)
    ∙ resolve-append (split 0x2f (rooted acc)) [] []
    ∙ resolve-rooted acc a
