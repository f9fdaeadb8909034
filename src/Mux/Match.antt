-- ===== src/Mux/Match.antt =====
-- Which entry a path finds (server.go).
use mathlib.Core.Bool.{true≢false, false≢true}
use fhttp.Base.{
  ℕ, ◌≤◌, ◌≡◌, ◌⊎◌, inl, inr, refl, sym, ap, subst, ◌∙◌, Bool, true, false, ◌==◌, none, some, List,
  [], ◌∷◌, ◌++◌, Bytes, has_prefix, length, if◌then◌else◌, arith, Bool-cases, Option-cases, All,
}
use fhttp.Mux.{
  MuxEntry, ServeMux, ends_in_slash, starts_with_slash, first_prefix, match, or_match, handler,
}
use fhttp.Mux.Search.{IsDescending}
use fhttp.Mux.Handle.{In, IsListed, IsMux}

-- A pattern matches the path that it is; one that ends in a slash, each path that begins with it.
abbrev pub Matches : Bytes → Bytes → Type 0
Matches p path = (p ≡ path) ⊎ ((ends_in_slash p ≡ true) × (has_prefix path p ≡ true))

length-has_prefix : (s p : Bytes) → has_prefix s p ≡ true → length p ≤ length s
unfolding has_prefix
length-has_prefix s [] h = omega arith
length-has_prefix [] (c ∷ p) h = absurd (false≢true h)
length-has_prefix (d ∷ s) (c ∷ p) h = elim (Bool-cases (d == c)) [
  | inl e ↦ omega (arith, length-has_prefix s p (rw e at h))
  | inr e ↦ absurd (false≢true (rw e at h))
]

All-In : (P : MuxEntry → Type 0) (e : MuxEntry) (es : List MuxEntry) → In e es → All P es → P e
All-In P e [] h a = elim h [ ]
All-In P e (x ∷ es) (inl same) a = subst P same a.0
All-In P e (x ∷ es) (inr h) a = All-In P e es h a.1

first_prefix-In :
    (es : List MuxEntry) (path : Bytes) (e : MuxEntry)
    → first_prefix es path ≡ some e
    → In e es × (has_prefix path e.pattern ≡ true)
unfolding first_prefix
first_prefix-In [] path e h = cc
first_prefix-In (x ∷ es) path e h = elim (Bool-cases (has_prefix path x.pattern)) [
  | inl met ↦
      let same : some x ≡ some e = rw met at h in
      let own : x ≡ e = cc in (inl own, subst (λ t. has_prefix path t.pattern ≡ true) own met)
  | inr unmet ↦ let t = first_prefix-In es path e (rw unmet at h) in (inr t.0, t.1)
]

-- The first entry that meets the test is at least as long as each that does.
first_prefix_longest :
    (es : List MuxEntry) (path : Bytes) (e' : MuxEntry)
    → IsDescending es
    → In e' es
    → has_prefix path e'.pattern ≡ true
    → (e : MuxEntry) × (first_prefix es path ≡ some e) × (length e'.pattern ≤ length e.pattern)
unfolding first_prefix
first_prefix_longest [] path e' d h met = elim h [ ]
first_prefix_longest (x ∷ es) path e' d h met = elim (Bool-cases (has_prefix path x.pattern)) [
  | inl first ↦ (
    x,
    rw first refl,
    elim h [
      | inl same ↦ subst (λ t. length t.pattern ≤ length x.pattern) same (omega arith)
      | inr tail ↦ All-In (λ t. length t.pattern ≤ length x.pattern) e' es tail d.0
    ],
  )
  | inr unmet ↦ elim h [
    | inl same ↦
        absurd (true≢false (sym met ∙ ap (λ t. has_prefix path t.pattern) (sym same) ∙ unmet))
    | inr tail ↦ rw unmet (first_prefix_longest es path e' d.1 tail met)
  ]
]

match_exact :
    (mux : ServeMux) (path : Bytes) (e : MuxEntry) → mux.m path ≡ some e → match mux path ≡ some e
unfolding match
match_exact mux path e q = ap (λ o. elim o [ some x ↦ some x | none ↦ first_prefix mux.es path ]) q

match-first_prefix :
    (mux : ServeMux) (path : Bytes) → mux.m path ≡ none → match mux path ≡ first_prefix mux.es path
unfolding match
match-first_prefix mux path q =
    ap (λ o. elim o [ some x ↦ some x | none ↦ first_prefix mux.es path ]) q

-- `match` finds only an entry that is registered for its pattern, which matches the path.
pub match-Matches :
    (mux : ServeMux) (path : Bytes) (e : MuxEntry)
    → IsMux mux
    → match mux path ≡ some e
    → (mux.m e.pattern ≡ some e) × Matches e.pattern path
match-Matches mux path e v h = elim (Option-cases (mux.m path)) [
  | inl q ↦
      let t = first_prefix-In mux.es path e (sym (match-first_prefix mux path q) ∙ h) in
      let l = All-In (IsListed mux.m) e mux.es t.0 v.listed in (l.0, inr (l.1, t.1))
  | inr (x, q) ↦
      let own : mux.m path ≡ some e = q ∙ sym (match_exact mux path x q) ∙ h in
      let name = v.named path e own in (ap mux.m name ∙ own, inl name)
]

-- A registered pattern that matches is no longer than the one found.
match_found :
    (mux : ServeMux) (path p : Bytes) (e' : MuxEntry)
    → IsMux mux
    → mux.m p ≡ some e'
    → Matches p path
    → (e : MuxEntry) × (match mux path ≡ some e) × (length p ≤ length e.pattern)
match_found mux path p e' v q (inl same) =
    let own : mux.m path ≡ some e' = ap mux.m (sym same) ∙ q in
    (
      e',
      match_exact mux path e' own,
      subst (λ t. length t ≤ length e'.pattern) (v.named p e' q) (omega arith),
    )
match_found mux path p e' v q (inr (slashed, begins)) = elim (Option-cases (mux.m path)) [
  | inl r ↦
      let name = v.named p e' q in
      let t =
        first_prefix_longest mux.es path e' v.ordered (v.complete p e' q slashed)
          (ap (has_prefix path) name ∙ begins) in
      (
        t.0,
        match-first_prefix mux path r ∙ t.1,
        subst (λ x. length x ≤ length t.0.pattern) name t.2,
      )
  | inr (x, r) ↦ (
    x,
    match_exact mux path x r,
    subst (λ t. length p ≤ length t) (sym (v.named path x r)) (length-has_prefix path p begins),
  )
]

-- `match` finds the best registered pattern: where it finds nothing, none matches the path; else it
-- finds an entry that is registered for its pattern, which matches the path and is at least as long
-- as each registered pattern that does.
pub match_best :
    (mux : ServeMux) (path : Bytes)
    → IsMux mux
    → ((match mux path ≡ none)
        × ((p : Bytes) (e' : MuxEntry) → mux.m p ≡ some e' → Matches p path → ⊥))
      ⊎ ((e : MuxEntry) × (match mux path ≡ some e)
          × (mux.m e.pattern ≡ some e)
          × Matches e.pattern path
          × ((p : Bytes) (e' : MuxEntry)
              → mux.m p ≡ some e'
              → Matches p path
              → length p ≤ length e.pattern))
match_best mux path v = elim (Option-cases (match mux path)) [
  | inl nothing ↦ inl (
    nothing,
    λ p e' q matches.
        let t = match_found mux path p e' v q matches in
        let both : none ≡ some t.0 = sym nothing ∙ t.1 in cc,
  )
  | inr (e, found) ↦
      let s = match-Matches mux path e v found in
      inr (
        e,
        found,
        s.0,
        s.1,
        λ p e' q matches.
            let t = match_found mux path p e' v q matches in
            let both : some t.0 ≡ some e = sym t.1 ∙ found in
            let same : t.0 ≡ e = cc in
            subst (λ (x : MuxEntry). length p ≤ length x.pattern) same t.2,
      )
]

starts_with_slash-has_prefix :
    (s p : Bytes) → has_prefix s p ≡ true → starts_with_slash p ≡ true → starts_with_slash s ≡ true
unfolding has_prefix starts_with_slash
starts_with_slash-has_prefix s [] h t = absurd (false≢true t)
starts_with_slash-has_prefix [] (c ∷ p) h t = absurd (false≢true h)
starts_with_slash-has_prefix (d ∷ s) (c ∷ p) h t = elim (Bool-cases (d == c)) [
  | inl e ↦ ground arith
  | inr e ↦ absurd (false≢true (rw e at h))
]

-- Without a pattern that names a host, nothing matches a path that does not begin with a slash.
match_rooted :
    (mux : ServeMux) (path : Bytes)
    → IsMux mux
    → mux.hosts ≡ false
    → starts_with_slash path ≡ false
    → match mux path ≡ none
match_rooted mux path v hosts other = elim (Option-cases (match mux path)) [
  | inl q ↦ q
  | inr (e, q) ↦
      let s = match-Matches mux path e v q in
      let rooted = v.rooted e.pattern e s.0 hosts in
      absurd (elim s.1 [
        | inl same ↦ true≢false (sym rooted ∙ ap starts_with_slash same ∙ other)
        | inr (t, begins) ↦
            true≢false (sym (starts_with_slash-has_prefix path e.pattern begins rooted) ∙ other)
      ])
]

or_match_self :
    (mux : ServeMux) (path : Bytes) → or_match (match mux path) mux path ≡ match mux path
unfolding or_match
or_match_self mux path = elim (Option-cases (match mux path)) [
  | inl q ↦ ap (λ o. or_match o mux path) q
  | inr (e, q) ↦ ap (λ o. or_match o mux path) q ∙ sym q
]

starts_with_slash-append :
    (d : ℕ) (host path : Bytes)
    → starts_with_slash (d ∷ host ++ path) ≡ starts_with_slash (d ∷ host)
unfolding starts_with_slash
starts_with_slash-append d host path = refl

handler_hosts :
    (mux : ServeMux) (host path : Bytes) (b : Bool)
    → mux.hosts ≡ b
    → handler mux host path ≡ or_match (if b then match mux (host ++ path) else none) mux path
unfolding handler
handler_hosts mux host path b e =
    ap (λ t. or_match (if t then match mux (host ++ path) else none) mux path) e

-- On a sound multiplexer and a host that does not begin with a slash, `handler` answers what a test of
-- the path with the host and then of the path alone answers: that the first test is skipped where no
-- pattern has a host makes no difference.
pub handler-or_match :
    (mux : ServeMux) (host path : Bytes)
    → IsMux mux
    → starts_with_slash host ≡ false
    → handler mux host path ≡ or_match (match mux (host ++ path)) mux path
unfolding or_match
handler-or_match mux host path v h = elim (Bool-cases mux.hosts) [
  | inl on ↦ handler_hosts mux host path true on
  | inr off ↦ handler_hosts mux host path false off ∙ sym (skipped host h off)
]
  where
    skipped :
        (t : Bytes)
        → starts_with_slash t ≡ false
        → mux.hosts ≡ false
        → or_match (match mux (t ++ path)) mux path ≡ match mux path
    skipped [] g off = or_match_self mux path
    skipped (d ∷ t) g off =
        ap (λ o. or_match o mux path)
          (match_rooted mux (d ∷ t ++ path) v off (starts_with_slash-append d t path ∙ g))
