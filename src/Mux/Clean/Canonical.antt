-- ===== src/Mux/Clean/Canonical.antt =====
-- A cleaned path is canonical: cleaning it again changes nothing (server.go).
use mathlib.Core.Bool.{false≢true}
use fhttp.Base.{
  ℕ, ◌+◌, ◌≡◌, inl, inr, refl, sym, ap, ◌∙◌, Bool, true, false, ◌&&◌, List, [], ◌∷◌, ◌++◌,
  append_assoc, append-nil, Bytes, length, bytes_eq, bytes_eq_iff, has_prefix, ◌==◌, All,
  Bool-cases, arith, ==_iff,
}
use fhttp.Base.Text.{split, Avoids, split-Avoids}
use fhttp.Mux.{ends_in_slash, starts_with_slash}
use fhttp.Mux.Clean.{
  step, resolve, rooted, or_root, path_clean, is_root, with_slash, clean_rooted, clean_path,
}
use fhttp.Mux.Clean.Elements.{IsElement, resolve-IsElement, resolve-rooted, resolve-rooted_slash}

-- The paths in canonical form, by their elements, last to first, and whether they end in a slash.
abbrev pub canonical : List Bytes → Bool → Bytes
canonical [] b = 0x2f ∷ []
canonical (s ∷ acc) false = rooted (s ∷ acc)
canonical (s ∷ acc) true = rooted (s ∷ acc) ++ 0x2f ∷ []

pub ends_in_slash-append :
    (xs : Bytes) (c : ℕ) (s : Bytes) → ends_in_slash (xs ++ c ∷ s) ≡ ends_in_slash (c ∷ s)
unfolding ends_in_slash
ends_in_slash-append [] c s = refl
ends_in_slash-append (x ∷ []) c s = refl
ends_in_slash-append (x ∷ y ∷ xs) c s = ends_in_slash-append (y ∷ xs) c s

ends_in_slash-Avoids : (c : ℕ) (s : Bytes) → Avoids 0x2f (c ∷ s) → ends_in_slash (c ∷ s) ≡ false
unfolding ends_in_slash
ends_in_slash-Avoids c [] a = a.0
ends_in_slash-Avoids c (d ∷ s) a = ends_in_slash-Avoids d s a.1

ends_in_slash-rooted :
    (s : Bytes) (acc : List Bytes) → IsElement s → ends_in_slash (rooted (s ∷ acc)) ≡ false
unfolding rooted ends_in_slash
ends_in_slash-rooted [] acc v = ground (arith, v.1)
ends_in_slash-rooted (c ∷ s) acc v =
    ends_in_slash-append (rooted acc) 0x2f (c ∷ s) ∙ ends_in_slash-Avoids c s v.0

starts_with_slash-rooted :
    (s : Bytes) (acc : List Bytes) (t : Bytes) → starts_with_slash (rooted (s ∷ acc) ++ t) ≡ true
unfolding rooted starts_with_slash
starts_with_slash-rooted s [] t = refl
starts_with_slash-rooted s (r ∷ acc) t =
    ap starts_with_slash (append_assoc (rooted (r ∷ acc)) (0x2f ∷ s) t)
    ∙ starts_with_slash-rooted r acc (0x2f ∷ s ++ t)

-- A rooted path with an element is not the root.
is_root-rooted : (s : Bytes) (acc : List Bytes) → IsElement s → is_root (rooted (s ∷ acc)) ≡ false
unfolding ends_in_slash
is_root-rooted s acc v = elim (Bool-cases (is_root (rooted (s ∷ acc)))) [
  | inr q ↦ q
  | inl q ↦
      let same = (bytes_eq_iff (rooted (s ∷ acc)) (0x2f ∷ [])).0 q in
      let e = sym (ends_in_slash-rooted s acc v) ∙ ap ends_in_slash same in absurd (false≢true e)
]

-- The test before the path itself is returned makes no difference.
same_path :
    (p np : Bytes)
    → ends_in_slash p ≡ true
    → length p ≡ length np + 1
    → has_prefix p np ≡ true
    → p ≡ np ++ 0x2f ∷ []
unfolding ends_in_slash has_prefix
same_path [] np e h q = absurd (false≢true e)
same_path (c ∷ []) [] e h q = ap (λ x. x ∷ []) ((==_iff c 0x2f).0 e)
same_path (c ∷ x ∷ p) [] e h q = absurd (omega arith)
same_path (c ∷ []) (d ∷ np) e h q = absurd (omega arith)
same_path (c ∷ x ∷ p) (d ∷ np) e h q =
    let first : c ≡ d = ground arith in
    let rest = same_path (x ∷ p) np e (omega arith) (ground arith) in
    ap (λ y. y ∷ x ∷ p) first ∙ ap (λ t. d ∷ t) rest

with_slash-true :
    (p np : Bytes) → ends_in_slash p ≡ true → is_root np ≡ false → with_slash p np ≡ np ++ 0x2f ∷ []
unfolding with_slash
with_slash-true p np e r = elim (Bool-cases (length p == length np + 1 && has_prefix p np)) [
  | inr slow ↦ rw (e, r, slow) refl
  | inl fast ↦ rw (e, r, fast) (same_path p np e (ground arith) (ground arith))
]

with_slash-or_root :
    (p : Bytes) (acc : List Bytes)
    → All IsElement acc
    → with_slash p (or_root acc) ≡ canonical acc (ends_in_slash p)
unfolding with_slash or_root bytes_eq
with_slash-or_root p [] a = ground arith
with_slash-or_root p (s ∷ acc) a = elim (Bool-cases (ends_in_slash p)) [
  | inr open_end ↦ rw open_end refl
  | inl slash ↦
      with_slash-true p (rooted (s ∷ acc)) slash (is_root-rooted s acc a.0)
      ∙ ap (λ b. canonical (s ∷ acc) b) (sym slash)
]

clean_rooted-canonical :
    (p : Bytes)
    → let acc = resolve [] (split 0x2f p) in
      All IsElement acc × (clean_rooted p ≡ canonical acc (ends_in_slash p))
unfolding clean_rooted path_clean
clean_rooted-canonical p =
    let a = resolve-IsElement (split 0x2f p) [] (split-Avoids 0x2f p) tt in
    (a, with_slash-or_root p (resolve [] (split 0x2f p)) a)

-- A path that cleaning returns has elements, and ends in a slash or not.
abbrev pub IsCanonical : Bytes → Type 0
IsCanonical p = (acc : List Bytes) × (b : Bool) × All IsElement acc × (p ≡ canonical acc b)

clean_rooted-IsCanonical : (p : Bytes) → IsCanonical (clean_rooted p)
clean_rooted-IsCanonical p =
    let t = clean_rooted-canonical p in (resolve [] (split 0x2f p), ends_in_slash p, t.0, t.1)

pub clean_path-IsCanonical : (p : Bytes) → IsCanonical (clean_path p)
unfolding clean_path
clean_path-IsCanonical [] = ([], false, tt, refl)
clean_path-IsCanonical (c ∷ p) = elim (Bool-cases (c == 0x2f)) [
  | inl slash ↦ rw slash (clean_rooted-IsCanonical (c ∷ p))
  | inr other ↦ rw other (clean_rooted-IsCanonical (0x2f ∷ c ∷ p))
]

clean_path_rooted : (p : Bytes) → starts_with_slash p ≡ true → clean_path p ≡ clean_rooted p
unfolding clean_path starts_with_slash
clean_path_rooted [] h = absurd (false≢true h)
clean_path_rooted (c ∷ p) h = rw h refl

clean_again :
    (p : Bytes) (acc : List Bytes) (b : Bool)
    → starts_with_slash p ≡ true
    → resolve [] (split 0x2f p) ≡ acc
    → ends_in_slash p ≡ b
    → clean_path p ≡ canonical acc b
clean_again p acc b h r e =
    clean_path_rooted p h
    ∙ (clean_rooted-canonical p).1
    ∙ ap (λ t. canonical t (ends_in_slash p)) r
    ∙ ap (canonical acc) e

root_again : clean_path (0x2f ∷ []) ≡ 0x2f ∷ []
unfolding clean_path clean_rooted split step ends_in_slash bytes_eq
root_again = refl

-- Cleaning a canonical path changes nothing.
pub clean_path-canonical :
    (acc : List Bytes) (b : Bool)
    → All IsElement acc
    → clean_path (canonical acc b) ≡ canonical acc b
unfolding ends_in_slash
clean_path-canonical [] b a = root_again
clean_path-canonical (s ∷ acc) false a =
    clean_again (rooted (s ∷ acc)) (s ∷ acc) false
      (ap starts_with_slash (sym (append-nil (rooted (s ∷ acc))))
        ∙ starts_with_slash-rooted s acc [])
      (resolve-rooted (s ∷ acc) a) (ends_in_slash-rooted s acc a.0)
clean_path-canonical (s ∷ acc) true a =
    clean_again (rooted (s ∷ acc) ++ 0x2f ∷ []) (s ∷ acc) true
      (starts_with_slash-rooted s acc (0x2f ∷ [])) (resolve-rooted_slash (s ∷ acc) a)
      (ends_in_slash-append (rooted (s ∷ acc)) 0x2f [])
