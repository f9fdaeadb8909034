-- ===== src/Hpack/Table/Newest.antt =====
-- The place of the newest entry with a property, which is what the maps of a table record.
use fhttp.Base.{
  ℕ, zero, suc, ◌-◌, ◌≤◌, ◌≡◌, ◌≢◌, refl, ◌∙◌, Bool, true, false, ◌&&◌, some, List, [], ◌∷◌, ◌++◌,
  Bytes, length, get_elem?, drop, ◌==◌, if◌then◌else◌, bytes_eq, arith, All, Bool-cases, inl, inr,
}
use fhttp.Hpack.Field.{HeaderField}

-- Counted from 1, in the order of `ents`; 0 where no entry has the property.
unfoldable pub last_pos : (HeaderField → Bool) → List HeaderField → ℕ
last_pos p [] = 0
last_pos p (f ∷ fs) = let r = last_pos p fs in if r == 0 then (if p f then 1 else 0) else suc r

abbrev pub has_name : Bytes → HeaderField → Bool
has_name n f = bytes_eq n f.name

abbrev pub has_pair : Bytes → Bytes → HeaderField → Bool
has_pair n v f = bytes_eq n f.name && bytes_eq v f.value

pub last_pos-concat :
    (p : HeaderField → Bool) (es : List HeaderField) (f : HeaderField)
    → last_pos p (es ++ f ∷ []) ≡ (if p f then suc (length es) else last_pos p es)
unfolding last_pos
last_pos-concat p [] f = ground arith
last_pos-concat p (e ∷ es) f = ground (arith, last_pos-concat p es f)

pub last_pos-cons :
    (p : HeaderField → Bool) (f : HeaderField) (es : List HeaderField)
    → last_pos p (f ∷ es)
      ≡ (if last_pos p es == 0 then (if p f then 1 else 0) else suc (last_pos p es))
unfolding last_pos
last_pos-cons p f es = refl

pub last_pos-le : (p : HeaderField → Bool) (es : List HeaderField) → last_pos p es ≤ length es
unfolding last_pos
last_pos-le p [] = omega arith
last_pos-le p (f ∷ es) = ground (arith, last_pos-le p es)

get_behind :
    (f : HeaderField) (es : List HeaderField) (r : ℕ)
    → r ≢ 0
    → get_elem? (f ∷ es) (suc r - 1) ≡ get_elem? es (r - 1)
get_behind f es zero h = absurd (h refl)
get_behind f es (suc k) h =
    let outer : suc (suc k) - 1 ≡ suc k = omega arith in
    let inner : suc k - 1 ≡ k = omega arith in rw (outer, inner)

pub last_pos_hit :
    (p : HeaderField → Bool) (es : List HeaderField)
    → last_pos p es ≢ 0
    → (g : HeaderField) × (get_elem? es (last_pos p es - 1) ≡ some g) × (p g ≡ true)
unfolding last_pos
last_pos_hit p [] h = absurd (h refl)
last_pos_hit p (f ∷ es) h = elim (Bool-cases (last_pos p es == 0)) [
  | inl e ↦ (f, rw e (ground arith), ground arith)
  | inr e ↦
      let (g, at, good) = last_pos_hit p es (ground arith) in
      (g, rw e (get_behind f es _ (ground arith) ∙ at), good)
]

pub last_pos_miss :
    (p : HeaderField → Bool) (es : List HeaderField) → last_pos p es ≡ 0 → All (λ g. p g ≡ false) es
unfolding last_pos
last_pos_miss p [] h = tt
last_pos_miss p (f ∷ es) h = ground (arith, last_pos_miss p es)

-- No entry behind the newest one has the property.
pub last_pos_newest :
    (p : HeaderField → Bool) (es : List HeaderField)
    → All (λ g. p g ≡ false) (drop (last_pos p es) es)
unfolding last_pos
last_pos_newest p [] = tt
last_pos_newest p (f ∷ es) = elim (Bool-cases (last_pos p es == 0)) [
  | inl e ↦
      let rest = last_pos_miss p es (ground (arith, e)) in
      elim (Bool-cases (p f)) [
        | inl good ↦ rw (e, good) rest
        | inr poor ↦ rw (e, poor) (poor, rest)
      ]
  | inr e ↦ rw e (last_pos_newest p es)
]
