-- ===== src/Http2/Server.antt =====
-- The send windows of a server connection (http2/server.go), with what `take` of http2/flow.go does when
-- a DATA frame goes out. The map of streams is a list, in the order in which a range over it goes.
pub mod Streams
pub mod Settings
pub mod Credit
pub mod Ledger
use fhttp.Base.{
  ℕ, ◌+◌, ◌%◌, Bool, true, false, not, ◌||◌, Option, none, some, List, [], ◌∷◌, leb, ltb, ◌==◌,
  if◌then◌else◌,
}
use fhttp.Base.Word.{add32, sub32}
use fhttp.Http2.Flow.{Flow, take, add}
use fhttp.Http2.Frame.{err_code_protocol, err_code_flow_control}

pub data StreamState : Type 0 where
  state_idle state_open state_half_closed_local state_half_closed_remote state_closed : StreamState

-- `window` is the number of the stream's `flow` and `in_window` that of its `inflow`; the connection's
-- number for `flow` is in `Conn`.
pub record Stream : Type 0 where
  pub id : ℕ
  pub state : StreamState
  pub window : ℕ
  pub in_window : ℕ

pub record Conn : Type 0 where
  pub streams : List Stream
  pub window : ℕ
  pub initial_window : ℕ
  pub initial_in_window : ℕ
  pub cur_client_streams : ℕ
  pub cur_pushed_streams : ℕ
  pub max_client_id : ℕ
  pub max_push_id : ℕ

pub data Handled : Type 0 where
  scheduled ignored go_away_flow : Handled
  connection_error : ℕ → Handled
  stream_error : ℕ → ℕ → Handled

abbrev pub flow_of : Conn → Stream → Flow
flow_of c st = record { n = st.window; conn = some c.window }

unfoldable pub find : ℕ → List Stream → Option Stream
find i [] = none
find i (st ∷ ss) = if st.id == i then some st else find i ss

-- The window of the stream `i` set to `n`.
unfoldable pub set_window : ℕ → ℕ → List Stream → List Stream
set_window i n [] = []
set_window i n (st ∷ ss) =
    let rest = set_window i n ss in if st.id == i then record st { window = n } ∷ ss else st ∷ rest

unfoldable pub remove : ℕ → List Stream → List Stream
remove i [] = []
remove i (st ∷ ss) = let rest = remove i ss in if st.id == i then rest else st ∷ rest

-- `state`, for a stream that is not in the map.
unfoldable pub absent_state : Conn → ℕ → StreamState
absent_state c i =
    if i % 2 == 1
    then (if leb i c.max_client_id then state_closed else state_idle)
    else if leb i c.max_push_id
    then state_closed
    else state_idle

unfoldable pub is_idle : StreamState → Bool
is_idle state_idle = true
is_idle state_open = false
is_idle state_half_closed_local = false
is_idle state_half_closed_remote = false
is_idle state_closed = false

-- The window of a stream after `add`, or the stream error.
unfoldable pub stream_update : Conn → Stream → ℕ → Flow × Bool → Conn × Handled
stream_update c st i (f, true) = (record c { streams = set_window i f.n c.streams }, scheduled)
stream_update c st i (f, false) = (c, stream_error i err_code_flow_control)

unfoldable pub update_found : Conn → ℕ → ℕ → Option Stream → Conn × Handled
unfolding stream_update
update_found c i inc none =
    (c, (if is_idle (absent_state c i) then connection_error err_code_protocol else ignored))
update_found c i inc (some st) =
    if is_idle st.state
    then (c, connection_error err_code_protocol)
    else stream_update c st i (add (flow_of c st) inc)

-- The connection's own flow has no `conn`.
unfoldable pub conn_update : Conn → Flow × Bool → Conn × Handled
conn_update c (f, true) = (record c { window = f.n }, scheduled)
conn_update c (f, false) = (c, go_away_flow)

-- `processWindowUpdate`; `scheduled` is its call of scheduleFrameWrite.
unfoldable pub process_window_update : Conn → ℕ → ℕ → Conn × Handled
unfolding update_found conn_update
process_window_update c i inc =
    if not (i == 0)
    then update_found c i inc (find i c.streams)
    else conn_update c (add (record { n = c.window; conn = none }) inc)

-- The loop of `processSettingInitialWindowSize`: the streams after it, and whether it came to the end.
unfoldable pub grow : Option ℕ → ℕ → List Stream → List Stream × Bool
grow conn growth [] = ([], true)
grow conn growth (st ∷ ss) =
    let rest = grow conn growth ss in
    let t = add (record { n = st.window; conn = conn }) growth in
    if t.1 then (record st { window = t.0.n } ∷ rest.0, rest.1) else (st ∷ ss, false)

-- `processSettingInitialWindowSize`; `false` is the connection error FLOW_CONTROL_ERROR.
unfoldable pub process_setting_initial_window_size : Conn → ℕ → Conn × Bool
unfolding grow
process_setting_initial_window_size c val =
    let t = grow (some c.window) (sub32 val c.initial_window) c.streams in
    (record c { streams = t.0; initial_window = val }, t.1)

abbrev pub is_pushed : ℕ → Bool
is_pushed i = i % 2 == 0

-- `newStream`, less the context, the timer and the calls of writeSched and setConnState; `none` is its
-- panic.
unfoldable pub new_stream : Conn → ℕ → StreamState → Option Conn
new_stream c i state =
    let t = add (record { n = 0; conn = some c.window }) c.initial_window in
    let q = add (record { n = 0; conn = none }) c.initial_in_window in
    if i == 0
    then none
    else some (record c {
      streams =
          record { id = i; state = state; window = t.0.n; in_window = q.0.n } ∷ remove i c.streams;
      cur_client_streams =
          (if is_pushed i then c.cur_client_streams else add32 c.cur_client_streams 1);
      cur_pushed_streams =
          (if is_pushed i then add32 c.cur_pushed_streams 1 else c.cur_pushed_streams);
    })

abbrev pub conn_window : ℕ → Option ℕ → ℕ
conn_window w none = w
conn_window w (some v) = v

unfoldable pub charged_flow : Conn → ℕ → Option Flow → Option Conn
charged_flow c i none = none
charged_flow c i (some f) =
    some (record c { streams = set_window i f.n c.streams; window = conn_window c.window f.conn })

unfoldable pub charge_found : Conn → ℕ → ℕ → Option Stream → Option Conn
unfolding charged_flow
charge_found c i n none = none
charge_found c i n (some st) = charged_flow c i (take (flow_of c st) n)

-- What `take` on the flow of the stream `i` does to both windows; `none` is its panic, or no stream.
unfoldable pub charge : Conn → ℕ → ℕ → Option Conn
unfolding charge_found
charge c i n = charge_found c i n (find i c.streams)

unfoldable pub is_closed : StreamState → Bool
is_closed state_idle = false
is_closed state_open = false
is_closed state_half_closed_local = false
is_closed state_half_closed_remote = false
is_closed state_closed = true

unfoldable pub close_found : Conn → ℕ → Option Stream → Option Conn
close_found c i none = none
close_found c i (some st) =
    if is_idle st.state || is_closed st.state
    then none
    else some (record c {
      streams = remove i c.streams;
      cur_client_streams =
          (if is_pushed i then c.cur_client_streams else sub32 c.cur_client_streams 1);
      cur_pushed_streams =
          (if is_pushed i then sub32 c.cur_pushed_streams 1 else c.cur_pushed_streams);
    })

-- What `closeStream` does to the map and the counters; `none` is its panic, or no stream.
unfoldable pub close_stream : Conn → ℕ → Option Conn
unfolding close_found
close_stream c i = close_found c i (find i c.streams)
