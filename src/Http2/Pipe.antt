-- ===== src/Http2/Pipe.antt =====
-- The pipe between the reader of a connection and a handler (http2/pipe.go). Each function is what one
-- call does under the lock `p.mu`; errors and functions to run are numbers. `donec` is the channel of
-- `Done`, with whether it is closed.
pub mod Buffer
pub mod Delivery
pub mod Trace
pub mod Closed
use fhttp.Base.{
  ℕ, ◌+◌, Bool, true, false, Option, none, some, List, [], ◌∷◌, ◌++◌, Bytes, length, ltb,
  if◌then◌else◌,
}

-- `pipeBuffer`; `none` is a panic. `read` gives `none` for an error of the buffer.
pub record PipeBuffer : Type 1 where
  pub Buffer : Type 0
  pub len : Buffer → ℕ
  pub read : Buffer → ℕ → Option (Option Bytes × Buffer)
  pub write : Buffer → Bytes → Option Buffer

pub data WriteResult : Type 0 where
  written : ℕ → WriteResult
  closed_pipe_write uninitialized_pipe_write : WriteResult

-- What one pass of the loop of `Read` does: it waits, or returns bytes, an error of the buffer, or the
-- pipe's error, and then runs a function before.
pub data ReadResult : Type 0 where
  waits : ReadResult
  reads : Bytes → ReadResult
  buffer_error : ReadResult
  fails : ℕ → Option ℕ → ReadResult

pub record Pipe (B : Type 0) : Type 0 where
  pub b : Option B
  pub unread : ℕ
  pub err : Option ℕ
  pub break_err : Option ℕ
  pub donec : Option Bool
  pub read_fn : Option ℕ

-- `closeDoneLocked`; the channel is closed once.
unfoldable pub close_done : Option Bool → Option Bool
close_done none = none
close_done (some closed) = some true

-- `dst` is `&p.err`, or else `&p.breakErr`.
unfoldable pub close_read : {B : Type 0} → Pipe B → ℕ → Option ℕ → Pipe B
close_read p e fn = elim p.err [
  | some _ ↦ p
  | none ↦ record p { read_fn = fn; err = some e; donec = close_done p.donec }
]

-- `Err`
unfoldable pub first_err : Option ℕ → Option ℕ → Option ℕ
first_err (some e) err = some e
first_err none err = err

unfoldable pub get_err : {B : Type 0} → Pipe B → Option ℕ
unfolding first_err
get_err p = first_err p.break_err p.err

module _ (pb : PipeBuffer) where
  open pb use {Buffer, len, read, write}

  unfoldable pub length_of : Pipe Buffer → ℕ
  length_of p = elim p.b [ none ↦ p.unread | some b ↦ len b ]

  unfoldable pub break_with_error : Pipe Buffer → ℕ → Pipe Buffer
  break_with_error p e = elim p.break_err [
    | some _ ↦ p
    | none ↦ record p {
      read_fn = none;
      unread = (elim p.b [ none ↦ p.unread | some b ↦ p.unread + len b ]);
      b = none;
      break_err = some e;
      donec = close_done p.donec;
    }
  ]

  unfoldable pub take_from : Pipe Buffer → Buffer × Option Bytes → Pipe Buffer × ReadResult
  take_from p (b', none) = (record p { b = some b' }, buffer_error)
  take_from p (b', some d) = (record p { b = some b' }, reads d)

  unfoldable pub has_bytes : Option Buffer → Bool
  has_bytes none = false
  has_bytes (some b) = ltb 0 (len b)

  -- `p.b.Read(d)`, where `p.b` is not nil.
  unfoldable pub read_buffer : Pipe Buffer → Option Buffer → ℕ → Option (Pipe Buffer × ReadResult)
  read_buffer p none n = none
  read_buffer p (some b) n = elim (read b n) [
    | none ↦ none
    | some (d, b') ↦ some (take_from p (b', d))
  ]

  unfoldable pub empty_read : Pipe Buffer → Option ℕ → Pipe Buffer × ReadResult
  empty_read p none = (p, waits)
  empty_read p (some e) = (record p { read_fn = none; b = none }, fails e p.read_fn)

  -- One pass of the loop of `Read` into a slice of `n` bytes; `none` is a panic.
  unfoldable pub read_pass : Pipe Buffer → ℕ → Option (Pipe Buffer × ReadResult)
  unfolding take_from has_bytes read_buffer empty_read
  read_pass p n = elim p.break_err [
    | some e ↦ some (p, fails e none)
    | none ↦ if has_bytes p.b then read_buffer p p.b n else some (empty_read p p.err)
  ]

  unfoldable pub write_buffer :
      Pipe Buffer → Option Buffer → Bytes → Option (Pipe Buffer × WriteResult)
  write_buffer p none d = some (p, uninitialized_pipe_write)
  write_buffer p (some b) d = elim (write b d) [
    | none ↦ none
    | some b' ↦ some (record p { b = some b' }, written (length d))
  ]

  unfoldable pub write_pipe : Pipe Buffer → Bytes → Option (Pipe Buffer × WriteResult)
  unfolding write_buffer
  write_pipe p d = elim p.err [
    | some _ ↦ some (p, closed_pipe_write)
    | none ↦ elim p.break_err [
      | some _ ↦ some (record p { unread = p.unread + length d }, written (length d))
      | none ↦ write_buffer p p.b d
    ]
  ]

  -- `Done`, which makes the channel at the first call.
  unfoldable pub done : Pipe Buffer → Pipe Buffer
  done p = elim p.donec [
    | some _ ↦ p
    | none ↦ record p { donec = (elim (get_err p) [ none ↦ some false | some _ ↦ some true ]) }
  ]
