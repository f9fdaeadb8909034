-- ===== src/Mux/Search.antt =====
-- `sort.Search` and `appendSorted`: an entry is put where the order by length keeps.
use fhttp.Base.{
  ℕ, zero, suc, ◌+◌, ◌/◌, ◌≤◌, ◌≡◌, ◌⊎◌, inl, inr, refl, sym, subst, Bool, true, false, List, [],
  ◌∷◌, ◌++◌, length, take, drop, ltb, ◌==◌, arith, Bool-cases, All, take_all, drop_all, ap₂,
}
use fhttp.Mux.{MuxEntry, search_loop, search, shorter_at, append_sorted}

-- Below the index that `sort.Search` returns stands an element that fails the test, at it one that
-- meets it, unless it is an end.
abbrev Below : (ℕ → Bool) → ℕ → ℕ → Type 0
Below f lo zero = Unit
Below f lo (suc k) = (suc k ≡ lo) ⊎ (f k ≡ false)

abbrev At : (ℕ → Bool) → ℕ → ℕ → Type 0
At f hi r = (r ≡ hi) ⊎ (f r ≡ true)

Below-suc : (f : ℕ → Bool) (lo r h : ℕ) → f h ≡ false → Below f (h + 1) r → Below f lo r
Below-suc f lo zero h e b = tt
Below-suc f lo (suc k) h e (inr b) = inr b
Below-suc f lo (suc k) h e (inl b) = inr (subst (λ t. f t ≡ false) (omega arith) e)

Below-self : (f : ℕ → Bool) (i : ℕ) → Below f i i
Below-self f zero = tt
Below-self f (suc k) = inl refl

At-lower : (f : ℕ → Bool) (hi r h : ℕ) → f h ≡ true → At f h r → At f hi r
At-lower f hi r h e (inl at) = inr (subst (λ t. f t ≡ true) (sym at) e)
At-lower f hi r h e (inr at) = inr at

search_loop_lem :
    (fuel : ℕ) (f : ℕ → Bool) (i j : ℕ)
    → i ≤ j
    → j ≤ i + fuel
    → let r = search_loop fuel f i j in (i ≤ r) × (r ≤ j) × Below f i r × At f j r
unfolding search_loop
search_loop_lem zero f i j h le = (omega arith, h, Below-self f i, inl (omega arith))
search_loop_lem (suc fuel) f i j h le = elim (Bool-cases (ltb i j)) [
  | inr done ↦ rw done (omega arith, h, Below-self f i, inl (ground arith))
  | inl more ↦ elim (Bool-cases (f ((i + j) / 2))) [
    | inl met ↦
        let t = search_loop_lem fuel f i ((i + j) / 2) (ground arith) (ground arith) in
        rw (more, met) (t.0, ground (arith, t.1), t.2, At-lower f j _ ((i + j) / 2) met t.3)
    | inr unmet ↦
        let t = search_loop_lem fuel f ((i + j) / 2 + 1) j (ground arith) (ground arith) in
        rw (more, unmet) (ground (arith, t.0), t.1, Below-suc f i _ ((i + j) / 2) unmet t.2, t.3)
  ]
]

-- The entries stand from longest to shortest.
abbrev pub IsDescending : List MuxEntry → Type 0
IsDescending [] = Unit
IsDescending (e ∷ es) = All (λ x. length x.pattern ≤ length e.pattern) es × IsDescending es

abbrev IsNoLonger : MuxEntry → MuxEntry → Type 0
IsNoLonger e x = length x.pattern ≤ length e.pattern

All-weaken :
    (e x : MuxEntry) (es : List MuxEntry)
    → length x.pattern ≤ length e.pattern
    → All (IsNoLonger x) es
    → All (IsNoLonger e) es
All-weaken e x [] h a = tt
All-weaken e x (y ∷ es) h a = (omega (arith, a.0), All-weaken e x es h a.1)

abbrev LeftOf : List MuxEntry → MuxEntry → ℕ → Type 0
LeftOf es e zero = Unit
LeftOf es e (suc k) = shorter_at es e k ≡ false

abbrev RightOf : List MuxEntry → MuxEntry → ℕ → Type 0
RightOf es e i = (i ≡ length es) ⊎ (shorter_at es e i ≡ true)

-- An entry that stands after one that is no shorter than `e`.
no_longer :
    (x e : MuxEntry) (es : List MuxEntry) (i : ℕ)
    → i ≤ length es
    → IsDescending (x ∷ es)
    → shorter_at (x ∷ es) e i ≡ false
    → length e.pattern ≤ length x.pattern
unfolding shorter_at
no_longer x e es zero h a s = ground arith
no_longer x e [] (suc i) h a s = absurd (omega arith)
no_longer x e (y ∷ es) (suc i) h a s = omega (arith, a.0.0, no_longer y e es i (omega arith) a.1 s)

All-insert :
    (x e : MuxEntry) (es : List MuxEntry) (i : ℕ)
    → All (IsNoLonger x) es
    → length e.pattern ≤ length x.pattern
    → All (IsNoLonger x) (take i es ++ e ∷ drop i es)
All-insert x e es zero a h = (h, a)
All-insert x e [] (suc i) a h = (h, tt)
All-insert x e (y ∷ es) (suc i) a h = (a.0, All-insert x e es i a.1 h)

insert-IsDescending :
    (es : List MuxEntry) (e : MuxEntry) (i : ℕ)
    → i ≤ length es
    → LeftOf es e i
    → RightOf es e i
    → IsDescending es
    → IsDescending (take i es ++ e ∷ drop i es)
unfolding shorter_at
insert-IsDescending [] e zero h l r d = (tt, tt)
insert-IsDescending [] e (suc i) h l r d = absurd (omega arith)
insert-IsDescending (x ∷ es) e zero h l (inl r) d = absurd (omega arith)
insert-IsDescending (x ∷ es) e zero h l (inr r) d =
    let below : length x.pattern ≤ length e.pattern = ground arith in
    ((below, All-weaken e x es below d.0), d)
insert-IsDescending (x ∷ es) e (suc zero) h l r d = (
  All-insert x e es zero d.0 (no_longer x e es zero (omega arith) d l),
  insert-IsDescending es e zero (omega arith) tt (shift r) d.1,
)
  where
    shift : RightOf (x ∷ es) e (suc zero) → RightOf es e zero
    shift (inl q) = inl (omega arith)
    shift (inr q) = inr q
insert-IsDescending (x ∷ es) e (suc (suc k)) h l r d = (
  All-insert x e es (suc k) d.0 (no_longer x e es (suc k) (omega arith) d l),
  insert-IsDescending es e (suc k) (omega arith) l (shift r) d.1,
)
  where
    shift : RightOf (x ∷ es) e (suc (suc k)) → RightOf es e (suc k)
    shift (inl q) = inl (omega arith)
    shift (inr q) = inr q

-- `appendSorted` puts the entry at the index that `sort.Search` finds.
pub append_sorted-insert :
    (es : List MuxEntry) (e : MuxEntry)
    → append_sorted es e
      ≡ take (search (length es) (shorter_at es e)) es
        ++ e ∷ drop (search (length es) (shorter_at es e)) es
unfolding append_sorted
append_sorted-insert es e = elim (Bool-cases (search (length es) (shorter_at es e) == length es)) [
  | inr z ↦ rw z refl
  | inl z ↦
      let at : length es ≡ search (length es) (shorter_at es e) = ground arith in
      rw z (
        ap₂ (λ a b. a ++ e ∷ b)
          (sym (take_all (search (length es) (shorter_at es e)) es (omega arith)))
          (sym (drop_all (search (length es) (shorter_at es e)) es (omega arith))))
]

-- `appendSorted` keeps the order from longest to shortest.
pub append_sorted-IsDescending :
    (es : List MuxEntry) (e : MuxEntry) → IsDescending es → IsDescending (append_sorted es e)
unfolding search
append_sorted-IsDescending es e d =
    let t =
      search_loop_lem (length es) (shorter_at es e) 0 (length es) (omega arith) (omega arith) in
    subst IsDescending (sym (append_sorted-insert es e))
      (insert-IsDescending es e _ t.1 (left _ t.2) t.3 d)
  where
    left : (i : ℕ) → Below (shorter_at es e) 0 i → LeftOf es e i
    left zero b = tt
    left (suc k) (inl q) = absurd (omega arith)
    left (suc k) (inr q) = q
