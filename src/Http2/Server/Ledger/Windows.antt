-- ===== src/Http2/Server/Ledger/Windows.antt =====
-- The books when a DATA frame goes out, and after any run (http2/server.go).
use fhttp.Base.{
  ℕ, ◌+◌, ◌^◌, ◌<◌, ◌≡◌, inl, inr, refl, sym, ap, subst, ◌∙◌, true, false, Option, none, some, List,
  ◌∷◌, ◌==◌, Bool-cases, arith,
}
use fhttp.Base.Word.{sub32}
use fhttp.Base.Int32.{ord, signed_ltb}
use fhttp.Http2.Flow.{Flow, take, available, available_of, less}
use fhttp.Http2.Flow.Windows.{take_one}
use fhttp.Http2.Server.{
  Stream, Conn, flow_of, find, set_window, charge, charge_found, charged_flow, conn_window,
}
use fhttp.Http2.Server.Ledger.{
  Event, charged, granted, sent, Runs, starts, opens, tells, resizes, charges, closes, IsBalanced,
}
use fhttp.Http2.Server.Ledger.Books.{
  starts-IsBalanced, closes-IsBalanced, opens-IsBalanced, set_window-books, resizes-IsBalanced,
}
use fhttp.Http2.Server.Ledger.Updates.{tells-IsBalanced}

-- A `take` that does not panic.
take-ord :
    (m w n : ℕ) (f : Flow)
    → m < 2 ^ 32
    → w < 2 ^ 32
    → n < 2 ^ 31
    → take (record { n = m; conn = some w }) n ≡ some f
    → (v : ℕ) × (f.conn ≡ some v) × (v < 2 ^ 32) × (f.n < 2 ^ 32) × (ord f.n + n ≡ ord m)
unfolding take less available available_of
take-ord m w n f hm hw hn e =
    let f0 : Flow = record { n = m; conn = some w } in
    elim (Bool-cases (signed_ltb (available f0) n)) [
      | inl short ↦ let bad : none ≡ some f = sym (rw short refl) ∙ e in absurd cc
      | inr enough ↦
          let g : Flow = record { n = sub32 m n; conn = some (sub32 w n) } in
          let taken : some g ≡ some f = sym (rw enough refl) ∙ e in
          subst
            (λ (x : Flow).
              (v : ℕ) × (x.conn ≡ some v) × (v < 2 ^ 32) × (x.n < 2 ^ 32) × (ord x.n + n ≡ ord m))
            (let is : g ≡ f = cc in is)
            (sub32 w n, refl, omega arith, omega arith, take_one m n hm hn (ground (arith, enough)))
    ]

charges-IsBalanced :
    (es : List Event) (c c' : Conn) (i n : ℕ)
    → IsBalanced es c
    → n < 2 ^ 31
    → charge c i n ≡ some c'
    → IsBalanced (charged i n ∷ es) c'
unfolding charge charge_found charged_flow granted sent
charges-IsBalanced es c c' i n b hn e = by_stream (find i c.streams) refl e
  where
    by_take :
        (st : Stream) (o : Option Flow)
        → (i == 0) ≡ false
        → find i c.streams ≡ some st
        → take (flow_of c st) n ≡ o
        → charged_flow c i o ≡ some c'
        → IsBalanced (charged i n ∷ es) c'
    by_take st none is_id found t u = absurd cc
    by_take st (some f) is_id found t u =
        let k = b.books i st found in
        let (v, conn_is, v_lt, n_lt, taken) =
          take-ord st.window c.window n f k.0 b.window_lt hn t in
        let own_id : (i == i) ≡ true = ground arith in
        let w : ℕ = conn_window c.window f.conn in
        let w_is : w ≡ v = ap (conn_window c.window) conn_is in
        let c0 : Conn = record c { streams = set_window i f.n c.streams; window = w } in
        subst (IsBalanced (charged i n ∷ es)) (let is : c0 ≡ c' = cc in is) (
          set_window-books es (charged i n ∷ es) c i f.n w b is_id (omega (arith, w_is, v_lt))
            (rw own_id (n_lt, omega (arith, taken, k.1))) (λ j other. rw other (refl, refl)))

    by_stream :
        (o : Option Stream)
        → find i c.streams ≡ o
        → charge_found c i n o ≡ some c'
        → IsBalanced (charged i n ∷ es) c'
    by_stream none found u = absurd cc
    by_stream (some st) found u = elim (Bool-cases (i == 0)) [
      | inl zero_id ↦
          let is : i ≡ 0 = ground (arith, zero_id) in
          absurd (b.ids st (ap (λ x. find x c.streams) (sym is) ∙ found))
      | inr is_id ↦ by_take st (take (flow_of c st) n) is_id found refl u
    ]

Runs-IsBalanced : {es : List Event} {c : Conn} → Runs es c → IsBalanced es c
Runs-IsBalanced (starts e w i) = starts-IsBalanced _ e w i
Runs-IsBalanced (opens s r e) = opens-IsBalanced _ _ _ _ s (Runs-IsBalanced r) e
Runs-IsBalanced (tells r h e) = tells-IsBalanced _ _ _ _ _ _ (Runs-IsBalanced r) h e
Runs-IsBalanced (resizes r h e) = resizes-IsBalanced _ _ _ _ (Runs-IsBalanced r) h e
Runs-IsBalanced (charges r h e) = charges-IsBalanced _ _ _ _ _ (Runs-IsBalanced r) h e
Runs-IsBalanced (closes r e) = closes-IsBalanced _ _ _ _ (Runs-IsBalanced r) e

-- After any run of a connection that starts without streams and with an initial window below 2^31,
-- in which streams are opened and closed, WINDOW_UPDATE frames and SETTINGS_INITIAL_WINDOW_SIZE with
-- values below 2^31 come in, no setting is an error, and DATA frames of less than 2^31 bytes go out
-- without a panic: the send window of each stream, as an int32, is the initial window that was
-- announced last, plus the increments that its frames added since it was opened, less the bytes that
-- it sent.
pub windows_exact :
    {es : List Event} {c : Conn} (i : ℕ) (st : Stream)
    → Runs es c
    → find i c.streams ≡ some st
    → (st.window < 2 ^ 32) × (ord st.window + sent i es ≡ c.initial_window + 2 ^ 31 + granted i es)
windows_exact i st r found = (Runs-IsBalanced r).books i st found
