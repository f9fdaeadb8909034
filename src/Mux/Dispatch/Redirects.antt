-- ===== src/Mux/Dispatch/Redirects.antt =====
-- The redirects of the multiplexer end (server.go).
use mathlib.Core.Bool.{false≢true}
use fhttp.Base.{
  ◌≡◌, ◌⊎◌, inl, inr, refl, sym, ap, subst, ◌∙◌, true, false, ◌||◌, Option, [], ◌∷◌, ◌++◌,
  append_assoc, Bytes, bytes_eq, bytes_eq_refl, Bool-cases, arith,
}
use fhttp.Mux.{MuxEntry, ServeMux, ends_in_slash, is_some, handler, should_redirect}
use fhttp.Mux.Clean.{rooted, clean_path}
use fhttp.Mux.Clean.Canonical.{
  ends_in_slash-append, IsCanonical, clean_path-IsCanonical, clean_path-canonical,
}
use fhttp.Mux.Dispatch.{
  Request, Found, redirect_to, found, strip_host_port, pattern_of, connect_method, handler_at,
  connect_handler, handler_of,
}

-- A path that is redirected to has an entry with a slash behind it, so that one is not redirected.
should_redirect_once :
    (mux : ServeMux) (host path : Bytes)
    → should_redirect mux host path ≡ true
    → should_redirect mux host (path ++ 0x2f ∷ []) ≡ false
unfolding should_redirect
should_redirect_once mux host path h =
    let exists : (is_some (mux.m (path ++ 0x2f ∷ []))
          || is_some (mux.m ((host ++ path) ++ 0x2f ∷ [])))
        ≡ true =
      ground arith in
    let same : (is_some (mux.m (path ++ 0x2f ∷ []))
          || is_some (mux.m (host ++ (path ++ 0x2f ∷ []))))
        ≡ true =
      ap (λ p. is_some (mux.m (path ++ 0x2f ∷ [])) || is_some (mux.m p))
        (sym (append_assoc host path (0x2f ∷ [])))
      ∙ exists in
    rw same refl

should_redirect-open :
    (mux : ServeMux) (host path : Bytes)
    → should_redirect mux host path ≡ true
    → ends_in_slash path ≡ false
unfolding should_redirect
should_redirect-open mux host path h = ground arith

-- A clean path stays clean when the slash of a redirect is put behind it.
clean_path_slash :
    (p : Bytes)
    → IsCanonical p
    → ends_in_slash p ≡ false
    → clean_path (p ++ 0x2f ∷ []) ≡ p ++ 0x2f ∷ []
unfolding ends_in_slash
clean_path_slash p ([], b, a, e) h = absurd (false≢true (sym h ∙ ap ends_in_slash e))
clean_path_slash p (s ∷ acc, false, a, e) h =
    ap (λ q. clean_path (q ++ 0x2f ∷ [])) e
    ∙ clean_path-canonical (s ∷ acc) true a
    ∙ ap (λ q. q ++ 0x2f ∷ []) (sym e)
clean_path_slash p (s ∷ acc, true, a, e) h =
    absurd
      (false≢true (sym h ∙ ap ends_in_slash e ∙ ends_in_slash-append (rooted (s ∷ acc)) 0x2f []))

clean_path_twice : (p : Bytes) → clean_path (clean_path p) ≡ clean_path p
clean_path_twice p =
    let (acc, b, a, e) = clean_path-IsCanonical p in
    ap clean_path e ∙ clean_path-canonical acc b a ∙ sym e

settled :
    (mux : ServeMux) (host q : Bytes)
    → clean_path q ≡ q
    → should_redirect mux host q ≡ false
    → handler_at mux host (clean_path q) q ≡ found (handler mux host q)
unfolding handler_at
settled mux host q e h = ap (λ p. handler_at mux host p q) e ∙ rw (h, bytes_eq_refl q) refl

-- What a redirect leads to: a handler, by the pattern that the redirect gave, unless that was the
-- redirect's own target.
abbrev pub LeadsTo : Found → Bytes → Bytes → Type 0
LeadsTo f target pattern =
    (e : Option MuxEntry) × (f ≡ found e) × ((pattern ≡ target) ⊎ (pattern ≡ pattern_of e))

handler_at-LeadsTo :
    (mux : ServeMux) (host path raw target pattern : Bytes)
    → IsCanonical path
    → clean_path path ≡ path
    → handler_at mux host path raw ≡ redirect_to target pattern
    → LeadsTo (handler_at mux host (clean_path target) target) target pattern
unfolding handler_at
handler_at-LeadsTo mux host path raw target pattern v clean h =
    elim (Bool-cases (should_redirect mux host path)) [
      | inl slash ↦
          let t : redirect_to (path ++ 0x2f ∷ []) (path ++ 0x2f ∷ []) ≡ redirect_to target pattern =
            rw slash at h in
          let same : path ++ 0x2f ∷ [] ≡ target = cc in
          let own : path ++ 0x2f ∷ [] ≡ pattern = cc in
          (
            handler mux host target,
            settled mux host target
                (subst (λ q. clean_path q ≡ q) same
                  (clean_path_slash path v (should_redirect-open mux host path slash)))
                (subst (λ q. should_redirect mux host q ≡ false) same
                  (should_redirect_once mux host path slash)),
            inl (sym own ∙ same),
          )
      | inr stays ↦ elim (Bool-cases (bytes_eq path raw)) [
        | inl equal ↦
            let t : found (handler mux host raw) ≡ redirect_to target pattern =
              rw (stays, equal) at h in
            cc
        | inr unclean ↦
            let t : redirect_to path (pattern_of (handler mux host path))
                ≡ redirect_to target pattern =
              rw (stays, unclean) at h in
            let same : path ≡ target = cc in
            let own : pattern_of (handler mux host path) ≡ pattern = cc in
            (
              handler mux host target,
              settled mux host target (subst (λ q. clean_path q ≡ q) same clean)
                  (subst (λ q. should_redirect mux host q ≡ false) same stays),
              inr (sym own ∙ ap (λ q. pattern_of (handler mux host q)) same),
            )
      ]
    ]

connect_handler-LeadsTo :
    (mux : ServeMux) (r : Request) (target pattern : Bytes)
    → connect_handler mux r ≡ redirect_to target pattern
    → LeadsTo (connect_handler mux (record r { path = target })) target pattern
unfolding connect_handler
connect_handler-LeadsTo mux r target pattern h =
    elim (Bool-cases (should_redirect mux r.url_host r.path)) [
      | inl slash ↦
          let t : redirect_to (r.path ++ 0x2f ∷ []) (r.path ++ 0x2f ∷ [])
              ≡ redirect_to target pattern =
            rw slash at h in
          let same : r.path ++ 0x2f ∷ [] ≡ target = cc in
          let own : r.path ++ 0x2f ∷ [] ≡ pattern = cc in
          (
            handler mux r.host target,
            rw
                (subst (λ q. should_redirect mux r.url_host q ≡ false) same
                  (should_redirect_once mux r.url_host r.path slash))
                refl,
            inl (sym own ∙ same),
          )
      | inr stays ↦
          let t : found (handler mux r.host r.path) ≡ redirect_to target pattern = rw stays at h in
          cc
    ]

-- No redirect leads to another one: where `Handler` answers a request by a redirect, it answers the
-- same request for the path of the redirect by a handler, found by the pattern that came with the
-- redirect, unless that pattern was the redirect's path itself.
pub handler_of-LeadsTo :
    (mux : ServeMux) (r : Request) (target pattern : Bytes)
    → handler_of mux r ≡ redirect_to target pattern
    → LeadsTo (handler_of mux (record r { path = target })) target pattern
unfolding handler_of
handler_of-LeadsTo mux r target pattern h = elim (Bool-cases (bytes_eq r.method connect_method)) [
  | inl connect ↦ rw connect (connect_handler-LeadsTo mux r target pattern (rw connect at h))
  | inr other ↦ rw other (
      handler_at-LeadsTo mux (strip_host_port r.host) (clean_path r.path) r.path target pattern
        (clean_path-IsCanonical r.path) (clean_path_twice r.path) (rw other at h))
]
