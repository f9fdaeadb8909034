-- ===== src/Http2/Server/Ledger/Books.antt =====
-- The books when streams open and close, and when the initial window changes (http2/server.go).
use fhttp.Base.{
  ℕ, ◌+◌, ◌^◌, ◌<◌, ◌≡◌, ◌⊎◌, inl, inr, refl, sym, ap, subst, ◌∙◌, Bool, ◌||◌, true, false, Option,
  none, some, List, [], ◌∷◌, ◌==◌, if◌then◌else◌, Bool-cases, arith,
}
use fhttp.Base.Word.{add32, sub32}
use fhttp.Base.Int32.{ord}
use fhttp.Http2.Flow.{Flow, add}
use fhttp.Http2.Flow.Windows.{add-exact, ord_growth}
use fhttp.Http2.Server.{
  StreamState, Stream, Conn, Handled, find, set_window, remove, grow,
  process_setting_initial_window_size, new_stream, close_stream, close_found, is_idle, is_closed,
  is_pushed,
}
use fhttp.Http2.Server.Streams.{find-nil, find-cases, find-set_window, find-remove, find-grow}
use fhttp.Http2.Server.Ledger.{
  Event, opened, told, resized, closed, counts, granted, sent, IsStreamBalanced, IsBalanced,
}

pub starts-IsBalanced :
    (c : Conn) → c.streams ≡ [] → c.window < 2 ^ 32 → c.initial_window < 2 ^ 31 → IsBalanced [] c
starts-IsBalanced c e w i = record {
  window_lt = w;
  initial_lt = i;
  ids = (λ st h. find-nil 0 st (sym (ap (find 0) e) ∙ h));
  books = (λ j st h. absurd (find-nil j st (sym (ap (find j) e) ∙ h)));
}

pub closes-IsBalanced :
    (es : List Event) (c c' : Conn) (i : ℕ)
    → IsBalanced es c
    → close_stream c i ≡ some c'
    → IsBalanced (closed i ∷ es) c'
unfolding close_stream close_found granted sent
closes-IsBalanced es c c' i b e = by_stream (find i c.streams) e
  where
    by_stream : (o : Option Stream) → close_found c i o ≡ some c' → IsBalanced (closed i ∷ es) c'
    by_stream none u = absurd cc
    by_stream (some st) u = elim (Bool-cases (is_idle st.state || is_closed st.state)) [
      | inl over ↦ let bad : none ≡ some c' = sym (rw over refl) ∙ u in absurd cc
      | inr active ↦
          let c0 : Conn = record c {
            streams = remove i c.streams;
            cur_client_streams =
                (if is_pushed i then c.cur_client_streams else sub32 c.cur_client_streams 1);
            cur_pushed_streams =
                (if is_pushed i then sub32 c.cur_pushed_streams 1 else c.cur_pushed_streams);
          } in
          let same : some c0 ≡ some c' = sym (rw active refl) ∙ u in
          subst (IsBalanced (closed i ∷ es)) (let is : c0 ≡ c' = cc in is) (record {
            window_lt = b.window_lt;
            initial_lt = b.initial_lt;
            ids = (λ s h. b.ids s (find-remove i c.streams 0 s h).1);
            books = (λ j s h. b.books j s (find-remove i c.streams j s h).1);
          })
    ]

-- The first window of a stream.
add-first :
    (w n : ℕ)
    → n < 2 ^ 31
    → let m = (add (record { n = 0; conn = some w }) n).0.n in (m < 2 ^ 32) × (ord m ≡ n + 2 ^ 31)
unfolding add
add-first w n h = ground arith

pub opens-IsBalanced :
    (es : List Event) (c c' : Conn) (i : ℕ) (s : StreamState)
    → IsBalanced es c
    → new_stream c i s ≡ some c'
    → IsBalanced (opened i ∷ es) c'
unfolding new_stream granted sent
opens-IsBalanced es c c' i s b e = elim (Bool-cases (i == 0)) [
  | inl zero_id ↦ let bad : none ≡ some c' = sym (rw zero_id refl) ∙ e in absurd cc
  | inr is_id ↦
      let n = (add (record { n = 0; conn = some c.window }) c.initial_window).0.n in
      let st0 : Stream = record {
        id = i;
        state = s;
        window = n;
        in_window = (add (record { n = 0; conn = none }) c.initial_in_window).0.n;
      } in
      let c0 : Conn = record c {
        streams = st0 ∷ remove i c.streams;
        cur_client_streams =
            (if is_pushed i then c.cur_client_streams else add32 c.cur_client_streams 1);
        cur_pushed_streams =
            (if is_pushed i then add32 c.cur_pushed_streams 1 else c.cur_pushed_streams);
      } in
      let same : some c0 ≡ some c' = sym (rw is_id refl) ∙ e in
      let (n_lt, n_is) = add-first c.window c.initial_window b.initial_lt in
      subst (IsBalanced (opened i ∷ es)) (let is : c0 ≡ c' = cc in is) (record {
        window_lt = b.window_lt;
        initial_lt = b.initial_lt;
        ids = (λ st h. elim (find-cases 0 st0 (remove i c.streams) st h) [
          | inl (hit, _) ↦ ground arith
          | inr (_, later) ↦ b.ids st (find-remove i c.streams 0 st later).1
        ]);
        books = (λ j st h. elim (find-cases j st0 (remove i c.streams) st h) [
          | inl (hit, is) ↦
              let new : (j == i) ≡ true = ground arith in
              let w : st.window ≡ n = ap (λ (y : Stream). y.window) (sym is) in
              rw new (omega (arith, w, n_lt), omega (arith, ap ord w, n_is))
          | inr (_, later) ↦
              let (other, found) = find-remove i c.streams j st later in
              rw other (b.books j st found)
        ]);
      })
]

-- A frame that leaves all windows of streams as they are.
pub tells_other :
    (es : List Event) (c c' : Conn) (i n : ℕ) (r : Handled)
    → IsBalanced es c
    → c'.streams ≡ c.streams
    → c'.initial_window ≡ c.initial_window
    → c'.window < 2 ^ 32
    → ((i == 0) ≡ true) ⊎ (counts r ≡ false)
    → IsBalanced (told i n r ∷ es) c'
unfolding granted sent
tells_other es c c' i n r b ss iw w none_counts = record {
  window_lt = w;
  initial_lt = omega (arith, iw, b.initial_lt);
  ids = (λ st h. b.ids st (sym (ap (find 0) ss) ∙ h));
  books = (λ j st h.
      let found = sym (ap (find j) ss) ∙ h in
      let k = b.books j st found in
      elim none_counts [
        | inl zero_id ↦ elim (Bool-cases (j == 0)) [
          | inl bad ↦
              let is : j ≡ 0 = ground (arith, bad) in
              absurd (b.ids st (ap (λ x. find x c.streams) (sym is) ∙ found))
          | inr good ↦
              let other : (j == i) ≡ false = ground (arith, zero_id, good) in
              rw other (k.0, omega (arith, k.1, iw))
        ]
        | inr off ↦ rw off (k.0, ground (arith, k.1, iw))
      ]);
}

-- The window of the stream `i` moves by what its book moves.
pub set_window-books :
    (es es' : List Event) (c : Conn) (i m w : ℕ)
    → IsBalanced es c
    → (i == 0) ≡ false
    → w < 2 ^ 32
    → IsStreamBalanced i es' c.initial_window m
    → ((j : ℕ) → (j == i) ≡ false → (granted j es' ≡ granted j es) × (sent j es' ≡ sent j es))
    → IsBalanced es' (record c { streams = set_window i m c.streams; window = w })
set_window-books es es' c i m w b is_id w_lt own others = record {
  window_lt = w_lt;
  initial_lt = b.initial_lt;
  ids = (λ st h. elim (find-set_window i m c.streams 0 st h) [
    | inl (hit, _) ↦ ground (arith, hit, is_id)
    | inr (_, found) ↦ b.ids st found
  ]);
  books = (λ j st h. elim (find-set_window i m c.streams j st h) [
    | inl (hit, is) ↦
        let same : j ≡ i = ground (arith, hit) in
        subst (λ x. IsStreamBalanced x es' c.initial_window st.window) (sym same)
          (subst (IsStreamBalanced i es' c.initial_window) (sym is) own)
    | inr (other, found) ↦
        let (g, s) = others j other in let k = b.books j st found in (k.0, omega (arith, k.1, g, s))
  ]);
}

pub add-accepted :
    (f f' : Flow) (n : ℕ)
    → f.n < 2 ^ 32
    → n < 2 ^ 32
    → add f n ≡ (f', true)
    → (ord f'.n + 2 ^ 31 ≡ ord f.n + ord n) × (f'.n < 2 ^ 32)
add-accepted f f' n hf hn e = elim (add-exact f n hf hn) [
  | inl (g, added, sum, lt, _) ↦
      let same : g ≡ f' = ap (λ (q : Flow × Bool). q.0) (sym added ∙ e) in
      (
        omega (arith, ap (λ (x : Flow). ord x.n) same, sum),
        omega (arith, ap (λ (x : Flow). x.n) same, lt),
      )
  | inr (refused, _) ↦
      let bad : false ≡ true = ap (λ (q : Flow × Bool). q.1) (sym refused ∙ e) in absurd cc
]

pub resizes-IsBalanced :
    (es : List Event) (c c' : Conn) (n : ℕ)
    → IsBalanced es c
    → n < 2 ^ 31
    → process_setting_initial_window_size c n ≡ (c', true)
    → IsBalanced (resized n ∷ es) c'
unfolding process_setting_initial_window_size granted sent
resizes-IsBalanced es c c' n b hn e =
    let t = grow (some c.window) (sub32 n c.initial_window) c.streams in
    let c0 : Conn = record c { streams = t.0; initial_window = n } in
    let same : c0 ≡ c' = ap (λ (q : Conn × Bool). q.0) e in
    let ended : t.1 ≡ true = ap (λ (q : Conn × Bool). q.1) e in
    subst (IsBalanced (resized n ∷ es)) same (record {
      window_lt = b.window_lt;
      initial_lt = hn;
      ids = (λ st h.
          let (old, f, found, _, _) =
            find-grow (some c.window) (sub32 n c.initial_window) c.streams 0 st ended h in
          b.ids old found);
      books = (λ j st h.
          let (old, f, found, added, is) =
            find-grow (some c.window) (sub32 n c.initial_window) c.streams j st ended h in
          let k = b.books j old found in
          let (sum, lt) =
            add-accepted (record { n = old.window; conn = some c.window }) f
              (sub32 n c.initial_window) k.0 (omega arith) added in
          (
            omega (arith, is, lt),
            omega (arith, ap ord is, sum, k.1, ord_growth n c.initial_window hn b.initial_lt),
          ));
    })
