-- ===== src/Http2/Server/Ledger/Updates.antt =====
-- The books when a WINDOW_UPDATE frame comes in (http2/server.go).
use fhttp.Base.{
  ℕ, ◌^◌, ◌<◌, ◌≡◌, ◌⊎◌, inl, inr, refl, sym, ap, subst, ◌∙◌, true, false, Option, none, some, List,
  ◌∷◌, ◌==◌, Bool-cases, arith,
}
use fhttp.Http2.Flow.{add}
use fhttp.Http2.Flow.Windows.{add-exact}
use fhttp.Http2.Frame.{err_code_flow_control, err_code_protocol}
use fhttp.Http2.Server.{
  Stream, Conn, Handled, scheduled, ignored, go_away_flow, connection_error, stream_error, flow_of,
  find, set_window, absent_state, is_idle, stream_update, update_found, conn_update,
  process_window_update,
}
use fhttp.Http2.Server.Ledger.{Event, told, counts, granted, sent, IsBalanced}
use fhttp.Http2.Server.Ledger.Books.{tells_other, set_window-books}

-- An answer that changes nothing.
answered :
    (es : List Event) (c c' : Conn) (i n : ℕ) (r r' : Handled)
    → IsBalanced es c
    → ((i == 0) ≡ true) ⊎ (counts r ≡ false)
    → (let t : Conn × Handled = (c, r) in t) ≡ (c', r')
    → IsBalanced (told i n r' ∷ es) c'
answered es c c' i n r r' b other e =
    subst (λ (q : Conn × Handled). IsBalanced (told i n q.1 ∷ es) q.0) e
      (tells_other es c c i n r b refl refl b.window_lt other)

tells_found :
    (es : List Event) (c c' : Conn) (i n : ℕ) (r : Handled) (st : Stream)
    → IsBalanced es c
    → n < 2 ^ 31
    → find i c.streams ≡ some st
    → (i == 0) ≡ false
    → stream_update c st i (add (flow_of c st) n) ≡ (c', r)
    → IsBalanced (told i n r ∷ es) c'
unfolding stream_update granted sent counts
tells_found es c c' i n r st b hn found is_id e =
    let k = b.books i st found in
    elim (add-exact (flow_of c st) n k.0 (omega arith)) [
      | inl (f, added, sum, lt, _) ↦
          let is : stream_update c st i (f, true) ≡ (c', r) =
            ap (stream_update c st i) (sym added) ∙ e in
          let c0 : Conn = record c { streams = set_window i f.n c.streams } in
          let to_c : c0 ≡ c' = ap (λ (q : Conn × Handled). q.0) is in
          let to_r : scheduled ≡ r = ap (λ (q : Conn × Handled). q.1) is in
          subst (λ x. IsBalanced (told i n x ∷ es) c') to_r
            (subst (IsBalanced (told i n scheduled ∷ es)) to_c (
              set_window-books es (told i n scheduled ∷ es) c i f.n c.window b is_id b.window_lt
                (let own_id : (i == i) ≡ true = ground arith in
                  rw own_id (lt, omega (arith, sum, k.1)))
                (λ j other. rw other (refl, refl))))
      | inr (refused, _) ↦
          let is : stream_update c st i (flow_of c st, false) ≡ (c', r) =
            ap (stream_update c st i) (sym refused) ∙ e in
          answered es c c' i n (stream_error i err_code_flow_control) r b (inr refl) is
    ]

tells_conn :
    (es : List Event) (c c' : Conn) (i n : ℕ) (r : Handled)
    → IsBalanced es c
    → n < 2 ^ 31
    → (i == 0) ≡ true
    → conn_update c (add (record { n = c.window; conn = none }) n) ≡ (c', r)
    → IsBalanced (told i n r ∷ es) c'
unfolding conn_update
tells_conn es c c' i n r b hn zero_id e =
    elim (add-exact (record { n = c.window; conn = none }) n b.window_lt (omega arith)) [
      | inl (f, added, sum, lt, _) ↦
          subst (λ (q : Conn × Handled). IsBalanced (told i n q.1 ∷ es) q.0)
            (ap (conn_update c) (sym added) ∙ e)
            (tells_other es c (record c { window = f.n }) i n scheduled b refl refl lt
              (inl zero_id))
      | inr (refused, _) ↦
          answered es c c' i n go_away_flow r b (inl zero_id) (ap (conn_update c) (sym refused) ∙ e)
    ]

pub tells-IsBalanced :
    (es : List Event) (c c' : Conn) (i n : ℕ) (r : Handled)
    → IsBalanced es c
    → n < 2 ^ 31
    → process_window_update c i n ≡ (c', r)
    → IsBalanced (told i n r ∷ es) c'
unfolding process_window_update update_found counts
tells-IsBalanced es c c' i n r b hn e = elim (Bool-cases (i == 0)) [
  | inl zero_id ↦ tells_conn es c c' i n r b hn zero_id (sym (rw zero_id refl) ∙ e)
  | inr is_id ↦ by_stream is_id (find i c.streams) refl (sym (rw is_id refl) ∙ e)
]
  where
    by_stream :
        (i == 0) ≡ false
        → (o : Option Stream) → find i c.streams ≡ o
        → update_found c i n o ≡ (c', r)
        → IsBalanced (told i n r ∷ es) c'
    by_stream is_id none gone u = elim (Bool-cases (is_idle (absent_state c i))) [
      | inl idle ↦
          answered es c c' i n (connection_error err_code_protocol) r b (inr refl)
            (sym (rw idle refl) ∙ u)
      | inr over ↦ answered es c c' i n ignored r b (inr refl) (sym (rw over refl) ∙ u)
    ]
    by_stream is_id (some st) found u = elim (Bool-cases (is_idle st.state)) [
      | inl idle ↦
          answered es c c' i n (connection_error err_code_protocol) r b (inr refl)
            (sym (rw idle refl) ∙ u)
      | inr active ↦ tells_found es c c' i n r st b hn found is_id (sym (rw active refl) ∙ u)
    ]
