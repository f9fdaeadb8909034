-- ===== src/Http2/ServerTests.antt =====
-- The send windows of a connection at concrete inputs (http2/server.go).
use fhttp.Base.{ℕ, ◌+◌, ◌^◌, ◌<◌, ◌≤◌, ◌⊎◌, none, ◌≡◌, refl, length, List, [], ◌∷◌, arith}
use fhttp.Base.Int32.{ord}
use fhttp.Http2.Flow.{take, add, available, available_of, less}
use fhttp.Http2.Server.{
  Stream, Conn, scheduled, state_open, find, set_window, remove, new_stream, stream_update,
  update_found, process_window_update, is_idle, grow, process_setting_initial_window_size,
  charged_flow, charge_found, charge,
}
use fhttp.Http2.Server.Ledger.{
  Event, opened, told, resized, charged, granted, sent, Runs, starts, opens, tells, resizes,
  charges,
}
use fhttp.Http2.Server.Ledger.Windows.{windows_exact}
use fhttp.Http2.Server.Credit.{Credit, send_window_update, Gives, send_window_update-Gives}
use fhttp.Http2.Server.Settings.{Grown, process_setting_initial_window_size-Grown}

abbrev conn_with : List Stream → ℕ → ℕ → Conn
conn_with ss w n = record {
  streams = ss;
  window = w;
  initial_window = n;
  initial_in_window = 1000;
  cur_client_streams = length ss;
  cur_pushed_streams = 0;
  max_client_id = 1;
  max_push_id = 0;
}

abbrev one : ℕ → List Stream
one n = record { id = 1; state = state_open; window = n; in_window = 1000 } ∷ []

-- A stream is opened, 100 bytes are granted to it, 300 are sent, and the initial window shrinks to 10.
abbrev events : List Event
events = resized 10 ∷ charged 1 300 ∷ told 1 100 scheduled ∷ opened 1 ∷ []

abbrev shrunk : Conn
shrunk = conn_with (one 4294967106) 65235 10

run : Runs events shrunk
unfolding take add available available_of less find set_window remove new_stream stream_update
    update_found process_window_update is_idle grow process_setting_initial_window_size charged_flow
    charge_found charge
run =
    resizes {c = conn_with (one 65335) 65235 65535}
      (charges {c = conn_with (one 65635) 65535 65535}
        (tells {c = conn_with (one 65535) 65535 65535}
          (opens {i = 1} state_open
            (starts {c = conn_with [] 65535 65535} refl (omega arith) (omega arith)) refl)
          (omega arith) refl)
        (omega arith) refl)
      (omega arith) refl

-- The window is 190 below zero.
windows_exact_example :
    (4294967106 < 2 ^ 32) × (ord 4294967106 + sent 1 events ≡ 10 + 2 ^ 31 + granted 1 events)
unfolding find
windows_exact_example =
    windows_exact 1 (record { id = 1; state = state_open; window = 4294967106; in_window = 1000 })
      run refl

process_setting_initial_window_size-Grown_example :
    let t = process_setting_initial_window_size (conn_with (one 65535) 65535 65535) 10 in
    (t.0.initial_window ≡ 10) × (t.0.window ≡ 65535) × Grown 65535 10 (one 65535) (t.0.streams, t.1)
process_setting_initial_window_size-Grown_example =
    process_setting_initial_window_size-Grown (conn_with (one 65535) 65535 65535) 10 (omega arith)
      (omega arith) (omega arith, tt)

abbrev no_credit : Credit
no_credit = record { in_window = 65535; frames = [] }

send_window_update-Gives_example :
    ((ord 65535 + 5 < 2 ^ 32) × Gives 0 no_credit 5 (send_window_update 0 no_credit 5))
    ⊎ ((2 ^ 32 ≤ ord 65535 + 5) × (send_window_update 0 no_credit 5 ≡ none))
send_window_update-Gives_example = send_window_update-Gives 0 no_credit 5 (omega arith)
