-- ===== src/Http2/Server/Ledger.antt =====
-- The books of a connection's send windows (http2/server.go): what the peer granted and what was sent.
mod Books
mod Updates
pub mod Windows
use fhttp.Base.{
  ℕ, ◌+◌, ◌^◌, ◌<◌, ◌≤◌, ◌≡◌, ◌⊎◌, inl, inr, refl, sym, ap, subst, ◌∙◌, Bool, true, false, not,
  Option, none, some, List, [], ◌∷◌, ◌==◌, if◌then◌else◌, Bool-cases, Option-cases, arith,
}
use fhttp.Base.Word.{sub32, add32}
use fhttp.Base.Int32.{ord, signed_ltb}
use fhttp.Http2.Flow.{Flow, take, add, available, available_of, less}
use fhttp.Http2.Flow.Windows.{add-exact, take_one}
use fhttp.Http2.Frame.{err_code_flow_control, err_code_protocol}
use fhttp.Http2.Server.{
  StreamState, Stream, Conn, Handled, scheduled, ignored, go_away_flow, connection_error,
  stream_error, flow_of, find, set_window, remove, absent_state, is_idle, stream_update,
  update_found, conn_update, process_window_update, grow, process_setting_initial_window_size,
  new_stream, charge, charge_found, charged_flow, conn_window, close_stream,
}
use fhttp.Http2.Server.Streams.{find-nil, find-cases, find-set_window, find-remove, find-grow}

-- What happens to a connection; `told` has the answer to a WINDOW_UPDATE frame.
pub data Event : Type 0 where
  opened : ℕ → Event
  told : ℕ → ℕ → Handled → Event
  resized : ℕ → Event
  charged : ℕ → ℕ → Event
  closed : ℕ → Event

unfoldable pub counts : Handled → Bool
counts scheduled = true
counts ignored = false
counts go_away_flow = false
counts (connection_error _) = false
counts (stream_error _ _) = false

-- What the peer granted to the stream `i` since it was opened, the newest event first, and what was
-- sent on it.
unfoldable pub granted : ℕ → List Event → ℕ
granted i [] = 0
granted i (opened j ∷ es) = let rest = granted i es in if i == j then 0 else rest
granted i (told j n r ∷ es) =
    let rest = granted i es in if i == j then (if counts r then rest + n else rest) else rest
granted i (resized _ ∷ es) = granted i es
granted i (charged _ _ ∷ es) = granted i es
granted i (closed _ ∷ es) = granted i es

unfoldable pub sent : ℕ → List Event → ℕ
sent i [] = 0
sent i (opened j ∷ es) = let rest = sent i es in if i == j then 0 else rest
sent i (told _ _ _ ∷ es) = sent i es
sent i (resized _ ∷ es) = sent i es
sent i (charged j n ∷ es) = let rest = sent i es in if i == j then rest + n else rest
sent i (closed _ ∷ es) = sent i es

-- A connection after these events, none of which ended it.
pub data Runs : List Event → Conn → Type 0 where
  starts : {c : Conn} → c.streams ≡ [] → c.window < 2 ^ 32 → c.initial_window < 2 ^ 31 → Runs [] c
  opens :
      {es : List Event} {c c' : Conn} {i : ℕ} (s : StreamState)
      → Runs es c
      → new_stream c i s ≡ some c'
      → Runs (opened i ∷ es) c'
  tells :
      {es : List Event} {c c' : Conn} {i n : ℕ} {r : Handled}
      → Runs es c
      → n < 2 ^ 31
      → process_window_update c i n ≡ (c', r)
      → Runs (told i n r ∷ es) c'
  resizes :
      {es : List Event} {c c' : Conn} {n : ℕ}
      → Runs es c
      → n < 2 ^ 31
      → process_setting_initial_window_size c n ≡ (c', true)
      → Runs (resized n ∷ es) c'
  charges :
      {es : List Event} {c c' : Conn} {i n : ℕ}
      → Runs es c
      → n < 2 ^ 31
      → charge c i n ≡ some c'
      → Runs (charged i n ∷ es) c'
  closes :
      {es : List Event} {c c' : Conn} {i : ℕ}
      → Runs es c
      → close_stream c i ≡ some c'
      → Runs (closed i ∷ es) c'

-- The book of one stream: the words in range, and its window as an int32.
abbrev pub IsStreamBalanced : ℕ → List Event → ℕ → ℕ → Type 0
IsStreamBalanced i es initial n =
    (n < 2 ^ 32) × (ord n + sent i es ≡ initial + 2 ^ 31 + granted i es)

pub record IsBalanced (es : List Event) (c : Conn) : Type 0 where
  pub window_lt : c.window < 2 ^ 32
  pub initial_lt : c.initial_window < 2 ^ 31
  pub ids : (st : Stream) → ¬ (find 0 c.streams ≡ some st)
  pub books :
      (i : ℕ) (st : Stream)
      → find i c.streams ≡ some st
      → IsStreamBalanced i es c.initial_window st.window
