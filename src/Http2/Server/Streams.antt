-- ===== src/Http2/Server/Streams.antt =====
-- Which streams a connection has, and their windows (http2/server.go).
use fhttp.Base.{
  ℕ, ◌≡◌, ◌⊎◌, inl, inr, refl, sym, ap, ◌∙◌, Bool, true, false, Option, some, List, [], ◌∷◌, ◌==◌,
  Bool-cases, arith,
}
use fhttp.Http2.Flow.{Flow, add}
use fhttp.Http2.Server.{Stream, find, set_window, remove, grow}

pub find-nil : (j : ℕ) (st : Stream) → find j [] ≡ some st → ⊥
unfolding find
find-nil j st h = cc

pub find-cases :
    (j : ℕ) (x : Stream) (xs : List Stream) (st : Stream)
    → find j (x ∷ xs) ≡ some st
    → (((x.id == j) ≡ true) × (x ≡ st)) ⊎ (((x.id == j) ≡ false) × (find j xs ≡ some st))
unfolding find
find-cases j x xs st h = elim (Bool-cases (x.id == j)) [
  | inl hit ↦ let e : some x ≡ some st = sym (rw hit refl) ∙ h in inl (hit, cc)
  | inr miss ↦ inr (miss, sym (rw miss refl) ∙ h)
]

find-hit : (j : ℕ) (x : Stream) (xs : List Stream) → (x.id == j) ≡ true → find j (x ∷ xs) ≡ some x
unfolding find
find-hit j x xs e = rw e refl

find-miss :
    (j : ℕ) (x : Stream) (xs : List Stream) → (x.id == j) ≡ false → find j (x ∷ xs) ≡ find j xs
unfolding find
find-miss j x xs e = rw e refl

pub find-set_window :
    (i n : ℕ) (ss : List Stream) (j : ℕ) (st : Stream)
    → find j (set_window i n ss) ≡ some st
    → (((j == i) ≡ true) × (st.window ≡ n)) ⊎ (((j == i) ≡ false) × (find j ss ≡ some st))
unfolding set_window
find-set_window i n [] j st h = inr (absurd (find-nil j st h), h)
find-set_window i n (x ∷ xs) j st h = elim (Bool-cases (x.id == i)) [
  | inl target ↦
      let set : find j (record x { window = n } ∷ xs) ≡ some st = sym (rw target refl) ∙ h in
      elim (find-cases j (record x { window = n }) xs st set) [
        | inl (hit, e) ↦ inl (ground arith, ap (λ (y : Stream). y.window) (sym e))
        | inr (miss, later) ↦ inr (ground arith, find-miss j x xs miss ∙ later)
      ]
  | inr other ↦
      let kept : find j (x ∷ set_window i n xs) ≡ some st = sym (rw other refl) ∙ h in
      elim (find-cases j x (set_window i n xs) st kept) [
        | inl (hit, e) ↦ inr (ground arith, find-hit j x xs hit ∙ ap some e)
        | inr (miss, later) ↦ elim (find-set_window i n xs j st later) [
          | inl same_id ↦ inl same_id
          | inr (differs, found) ↦ inr (differs, find-miss j x xs miss ∙ found)
        ]
      ]
]

pub find-remove :
    (i : ℕ) (ss : List Stream) (j : ℕ) (st : Stream)
    → find j (remove i ss) ≡ some st
    → ((j == i) ≡ false) × (find j ss ≡ some st)
unfolding remove
find-remove i [] j st h = (absurd (find-nil j st h), h)
find-remove i (x ∷ xs) j st h = elim (Bool-cases (x.id == i)) [
  | inl gone ↦
      let (differs, found) = find-remove i xs j st (sym (rw gone refl) ∙ h) in
      (differs, find-miss j x xs (ground arith) ∙ found)
  | inr kept ↦
      let left : find j (x ∷ remove i xs) ≡ some st = sym (rw kept refl) ∙ h in
      elim (find-cases j x (remove i xs) st left) [
        | inl (hit, e) ↦ (ground arith, find-hit j x xs hit ∙ ap some e)
        | inr (miss, later) ↦
            let (differs, found) = find-remove i xs j st later in
            (differs, find-miss j x xs miss ∙ found)
      ]
]

-- After a loop that came to its end, the window of each stream is what `add` made of it.
pub find-grow :
    (conn : Option ℕ) (growth : ℕ) (ss : List Stream) (j : ℕ) (st : Stream)
    → (grow conn growth ss).1 ≡ true
    → find j (grow conn growth ss).0 ≡ some st
    → (old : Stream) × (f : Flow) × (find j ss ≡ some old)
      × (add (record { n = old.window; conn = conn }) growth ≡ (f, true))
      × (st.window ≡ f.n)
unfolding grow
find-grow conn growth [] j st ok h = absurd (find-nil j st h)
find-grow conn growth (x ∷ xs) j st ok h =
    let f : Flow = record { n = x.window; conn = conn } in
    let rest = grow conn growth xs in
    let grown : Stream = record x { window = (add f growth).0.n } in
    elim (Bool-cases (add f growth).1) [
      | inl took ↦
          let left : find j (grown ∷ rest.0) ≡ some st = sym (rw took refl) ∙ h in
          let ok' : rest.1 ≡ true = sym (rw took refl) ∙ ok in
          elim (find-cases j grown rest.0 st left) [
            | inl (hit, e) ↦ (
              x,
              (add f growth).0,
              find-hit j x xs hit,
              ap (λ b. let q : Flow × Bool = ((add f growth).0, b) in q) took,
              ap (λ (y : Stream). y.window) (sym e),
            )
            | inr (miss, later) ↦
                let (old, g, found, sum, is) = find-grow conn growth xs j st ok' later in
                (old, g, find-miss j x xs miss ∙ found, sum, is)
          ]
      | inr refused ↦ let bad : false ≡ true = sym (rw refused refl) ∙ ok in absurd cc
    ]
