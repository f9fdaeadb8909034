-- ===== src/Mux/Handle.antt =====
-- What registration keeps of a multiplexer (server.go).
use fhttp.Base.{
  ℕ, zero, suc, ◌≡◌, ◌⊎◌, inl, inr, refl, sym, ap, subst, ◌∙◌, true, false, not, ◌||◌, Option, none,
  some, List, [], ◌∷◌, ◌++◌, Bytes, length, take, drop, bytes_eq, bytes_eq_iff, if◌then◌else◌,
  arith, Bool-cases, Option-cases, All,
}
use fhttp.Mux.{
  MuxEntry, ServeMux, new_serve_mux, ends_in_slash, starts_with_slash, shorter_at, search,
  append_sorted, put, is_some, registered, handle,
}
use fhttp.Mux.Search.{IsDescending, append_sorted-IsDescending, append_sorted-insert}

abbrev pub In : MuxEntry → List MuxEntry → Type 0
In e [] = ⊥
In e (x ∷ es) = (x ≡ e) ⊎ In e es

In-insert :
    (e x : MuxEntry) (es : List MuxEntry) (i : ℕ) → In x es → In x (take i es ++ e ∷ drop i es)
In-insert e x [] i h = elim h [ ]
In-insert e x (y ∷ es) zero h = inr h
In-insert e x (y ∷ es) (suc i) (inl h) = inl h
In-insert e x (y ∷ es) (suc i) (inr h) = inr (In-insert e x es i h)

In-inserted : (e : MuxEntry) (es : List MuxEntry) (i : ℕ) → In e (take i es ++ e ∷ drop i es)
In-inserted e es zero = inl refl
In-inserted e [] (suc i) = inl refl
In-inserted e (x ∷ es) (suc i) = inr (In-inserted e es i)

All-inserted :
    (P : MuxEntry → Type 0) (e : MuxEntry) (es : List MuxEntry) (i : ℕ)
    → P e
    → All P es
    → All P (take i es ++ e ∷ drop i es)
All-inserted P e es zero h a = (h, a)
All-inserted P e [] (suc i) h a = (h, tt)
All-inserted P e (x ∷ es) (suc i) h a = (a.0, All-inserted P e es i h a.1)

-- An entry of `es` is the one registered for its pattern, which ends in a slash.
abbrev pub IsListed : (Bytes → Option MuxEntry) → MuxEntry → Type 0
IsListed m e = (m e.pattern ≡ some e) × (ends_in_slash e.pattern ≡ true)

-- `es` holds just the entries whose patterns end in a slash, from longest to shortest, and `hosts`
-- says whether some pattern does not start with one.
pub record IsMux (mux : ServeMux) : Type 0 where
  pub ordered : IsDescending mux.es
  pub listed : All (IsListed mux.m) mux.es
  pub named : (p : Bytes) (e : MuxEntry) → mux.m p ≡ some e → e.pattern ≡ p
  pub complete :
      (p : Bytes) (e : MuxEntry) → mux.m p ≡ some e → ends_in_slash p ≡ true → In e mux.es
  pub rooted :
      (p : Bytes) (e : MuxEntry) → mux.m p ≡ some e → mux.hosts ≡ false → starts_with_slash p ≡ true

pub new_serve_mux-IsMux : IsMux new_serve_mux
new_serve_mux-IsMux = record {
  ordered = tt;
  listed = tt;
  named = λ p e h. cc;
  complete = λ p e h s. cc;
  rooted = λ p e h s. cc;
}

module _ (mux : ServeMux) (pattern : Bytes) (h : ℕ) (sound : IsMux mux)
    (fresh : mux.m pattern ≡ none) where
  entry : MuxEntry
  entry = record { h = h; pattern = pattern }

  -- What the map holds after the registration.
  put-cases :
      (p : Bytes) (e : MuxEntry)
      → put pattern entry mux.m p ≡ some e
      → ((pattern ≡ p) × (entry ≡ e)) ⊎ (mux.m p ≡ some e)
  put-cases p e q = elim (Bool-cases (bytes_eq pattern p)) [
    | inl same ↦
        inl ((bytes_eq_iff pattern p).0 same, (let t : some entry ≡ some e = rw same at q in cc))
    | inr other ↦ inr (rw other at q)
  ]

  IsListed-put : (e : MuxEntry) → IsListed mux.m e → IsListed (put pattern entry mux.m) e
  IsListed-put e l = elim (Bool-cases (bytes_eq pattern e.pattern)) [
    | inl same ↦
        let both : none ≡ some e =
          sym fresh ∙ ap mux.m ((bytes_eq_iff pattern e.pattern).0 same) ∙ l.0 in
        cc
    | inr other ↦ (rw other l.0, l.1)
  ]

  All-IsListed :
      (es : List MuxEntry) → All (IsListed mux.m) es → All (IsListed (put pattern entry mux.m)) es
  All-IsListed [] a = tt
  All-IsListed (x ∷ es) a = (IsListed-put x a.0, All-IsListed es a.1)

  own-IsListed : ends_in_slash pattern ≡ true → IsListed (put pattern entry mux.m) entry
  unfolding entry
  own-IsListed s = (rw ((bytes_eq_iff pattern pattern).1 refl) refl, s)

  -- The entries that end in a slash, after the registration.
  next_es : List MuxEntry
  next_es = if ends_in_slash pattern then append_sorted mux.es entry else mux.es

  next-IsDescending : IsDescending next_es
  unfolding next_es
  next-IsDescending = elim (Bool-cases (ends_in_slash pattern)) [
    | inl s ↦ rw s (append_sorted-IsDescending mux.es entry sound.ordered)
    | inr s ↦ rw s sound.ordered
  ]

  next-IsListed : All (IsListed (put pattern entry mux.m)) next_es
  unfolding next_es
  next-IsListed = elim (Bool-cases (ends_in_slash pattern)) [
    | inl s ↦ rw s (
        subst (All (IsListed (put pattern entry mux.m))) (sym (append_sorted-insert mux.es entry))
          (All-inserted _ entry mux.es _ (own-IsListed s) (All-IsListed mux.es sound.listed)))
    | inr s ↦ rw s (All-IsListed mux.es sound.listed)
  ]

  next_complete :
      (p : Bytes) (e : MuxEntry)
      → put pattern entry mux.m p ≡ some e
      → ends_in_slash p ≡ true
      → In e next_es
  unfolding next_es
  next_complete p e q s = elim (put-cases p e q) [
    | inl (same, own) ↦
        let slashed : ends_in_slash pattern ≡ true = ap ends_in_slash same ∙ s in
        let at = search (length mux.es) (shorter_at mux.es entry) in
        rw slashed (
          subst (In e) (sym (append_sorted-insert mux.es entry)) (
            subst (λ x. In x (take at mux.es ++ entry ∷ drop at mux.es)) own
              (In-inserted entry mux.es at)))
    | inr old ↦ elim (Bool-cases (ends_in_slash pattern)) [
      | inl t ↦ rw t (
          subst (In e) (sym (append_sorted-insert mux.es entry))
            (In-insert entry e mux.es _ (sound.complete p e old s)))
      | inr t ↦ rw t (sound.complete p e old s)
    ]
  ]

  next-rooted :
      (p : Bytes) (e : MuxEntry)
      → put pattern entry mux.m p ≡ some e
      → (mux.hosts || not (starts_with_slash pattern)) ≡ false
      → starts_with_slash p ≡ true
  next-rooted p e q t = elim (put-cases p e q) [
    | inl (same, own) ↦ ap starts_with_slash (sym same) ∙ ground arith
    | inr old ↦ sound.rooted p e old (ground arith)
  ]

  registered-IsMux : IsMux (registered mux pattern h)
  unfolding registered next_es entry
  registered-IsMux = record {
    ordered = next-IsDescending;
    listed = next-IsListed;
    named = λ p e q. elim (put-cases p e q) [
      | inl (same, own) ↦ sym (ap MuxEntry.pattern own) ∙ same
      | inr old ↦ sound.named p e old
    ];
    complete = next_complete;
    rooted = next-rooted;
  }

pub handle-IsMux :
    (mux : ServeMux) (pattern : Bytes) (handler : Option ℕ)
    → IsMux mux
    → ((handle mux pattern handler ≡ none)
        × ((pattern ≡ []) ⊎ ((handler ≡ none) ⊎ (is_some (mux.m pattern) ≡ true))))
      ⊎ ((h : ℕ) × (mux' : ServeMux) × (handler ≡ some h)
          × (handle mux pattern handler ≡ some mux')
          × IsMux mux'
          × (mux'.m ≡ put pattern (record { h = h; pattern = pattern }) mux.m))
unfolding handle registered
handle-IsMux mux [] handler v = inl (refl, inl refl)
handle-IsMux mux (c ∷ p) none v = inl (refl, inr (inl refl))
handle-IsMux mux (c ∷ p) (some h) v = elim (Option-cases (mux.m (c ∷ p))) [
  | inr (e, q) ↦ inl (rw q refl, inr (inr (ap is_some q)))
  | inl q ↦
      inr (h, registered mux (c ∷ p) h, refl, rw q refl, registered-IsMux mux (c ∷ p) h v q, refl)
]
