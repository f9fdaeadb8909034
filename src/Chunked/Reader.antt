-- ===== src/Chunked/Reader.antt =====
-- The reader of chunks (internal/chunked.go), over a `bufio.Reader` with the default buffer of 4096
-- bytes. `bytes` is all that the connection will still give and `avail` how many of them are buffered;
-- a read that has to wait leaves any number buffered, which `more` says for each wait in turn.
pub mod Ends
use Prim.Native.Nat.{min}
use fhttp.Base.{
  ℕ, zero, suc, ◌+◌, ◌-◌, Bool, true, false, not, ◌&&◌, ◌||◌, Option, none, some, List, [], ◌∷◌,
  ◌++◌, Bytes, length, take, drop, ltb, leb, ◌==◌, if◌then◌else◌,
}
use fhttp.Base.Text.{cut, contains, trim_back}
use fhttp.Chunked.{SizeError, SizeResult, ok, err, parse_hex_uint}
use mathlib.Core.Option

pub record BufReader : Type 0 where
  pub bytes : Bytes
  pub avail : ℕ
  pub waits : ℕ

pub data ReadError : Type 0 where
  eof unexpected_eof line_too_long malformed : ReadError
  bad_size : SizeError → ReadError

pub record ChunkedReader : Type 0 where
  pub r : BufReader
  pub n : ℕ
  pub err : Option ReadError
  pub check_end : Bool

abbrev pub max_line_length : ℕ
max_line_length = 4096

unfoldable pub buffered : BufReader → ℕ
buffered r = min r.avail (length r.bytes)

-- The length of the first line, with its `\n`.
unfoldable pub line_length : Bytes → Option ℕ
line_length [] = none
line_length (c ∷ s) = if c == 0x0a then some 1 else Option.map suc (line_length s)

unfoldable pub remove_chunk_extension : Bytes → Bytes
remove_chunk_extension p = elim (cut 0x3b p) [ none ↦ p | some (front, _) ↦ front ]

pub data LineResult : Type 0 where
  line : Bytes → LineResult
  no_line : ReadError → LineResult

unfoldable pub chunk_line : Bytes → Option ℕ → LineResult
chunk_line s none = no_line (if leb 4096 (length s) then line_too_long else unexpected_eof)
chunk_line s (some k) =
    if leb max_line_length k
    then no_line line_too_long
    else line (remove_chunk_extension (trim_back (take k s)))

unfoldable pub with_size : ChunkedReader → SizeResult → ChunkedReader
with_size cr (ok n) = record cr { n = n; err = (if n == 0 then some eof else none) }
with_size cr (err e) = record cr { n = 0; err = some (bad_size e) }

unfoldable pub with_line : ChunkedReader → LineResult → ChunkedReader
unfolding with_size
with_line cr (line p) = with_size cr (parse_hex_uint p)
with_line cr (no_line e) = record cr { err = some e }

-- How many bytes `ReadSlice` takes: up to the end of the line, or the whole buffer.
abbrev pub slice_length : Bytes → Option ℕ → ℕ
slice_length s none = min 4096 (length s)
slice_length s (some k) = min 4096 k

unfoldable pub header_available : BufReader → Bool
header_available r = contains 0x0a (take (buffered r) r.bytes)

-- Whether the loop of `Read` goes on in this round, or stops.
pub data Step : Type 0 where
  goes_on : ChunkedReader → Step
  stops : ChunkedReader → Step

module _ (more : ℕ → ℕ) where
  -- The reader after `k` bytes are taken.
  unfoldable pub after : BufReader → ℕ → BufReader
  after r k =
      if leb k (buffered r)
      then record r { bytes = drop k r.bytes; avail = buffered r - k }
      else record { bytes = drop k r.bytes; avail = more r.waits; waits = r.waits + 1 }

  -- How many bytes `Read` returns, of `k` at most: what is buffered, or what one wait gives.
  unfoldable pub read_count : BufReader → ℕ → ℕ
  read_count r k =
      if buffered r == 0
      then min k (min (more r.waits + 1) (length r.bytes))
      else min k (buffered r)

  unfoldable pub begin_chunk : ChunkedReader → ChunkedReader
  unfolding with_line chunk_line
  begin_chunk cr =
      let k = line_length cr.r.bytes in
      with_line (record cr { r = after cr.r (slice_length cr.r.bytes k) }) (chunk_line cr.r.bytes k)

  unfoldable pub read_footer : ChunkedReader → Bytes → Step
  read_footer cr [] = goes_on (record cr { err = some eof; check_end = false })
  read_footer cr (a ∷ []) =
      goes_on (record cr { r = after cr.r 1; err = some unexpected_eof; check_end = false })
  read_footer cr (a ∷ b ∷ s) =
      if a == 0x0d && b == 0x0a
      then goes_on (record cr { r = after cr.r 2; check_end = false })
      else stops (record cr { r = after cr.r 2; err = some malformed })

  -- The check for the CRLF behind a chunk, where `count` bytes were copied so far.
  unfoldable pub check_footer : ChunkedReader → ℕ → Step
  unfolding read_footer
  check_footer cr count =
      if not cr.check_end
      then goes_on cr
      else if ltb 0 count && ltb (buffered cr.r) 2
      then stops cr
      else read_footer cr cr.r.bytes

  -- A read of at most `k` bytes of the chunk's data: the bytes, and the reader after.
  unfoldable pub read_data : ChunkedReader → ℕ → Bytes × ChunkedReader
  read_data cr k =
      if length cr.r.bytes == 0
      then ([], record cr { err = some eof })
      else let n0 = read_count cr.r k in
        (
          take n0 cr.r.bytes,
          record cr { r = after cr.r n0; n = cr.n - n0; check_end = cr.n - n0 == 0 },
        )

  -- The rest of a round of the loop of `Read`, with the room that is left and the bytes copied; `next`
  -- is the next round.
  unfoldable pub after_footer :
      (ChunkedReader → ℕ → Bytes → Option (Bytes × ChunkedReader))
      → Step
      → ℕ
      → Bytes
      → Option (Bytes × ChunkedReader)
  after_footer next (stops cr) room out = some (out, cr)
  after_footer next (goes_on cr) room out =
      let t = read_data cr (min room cr.n) in
      if cr.n == 0
      then (if ltb 0 (length out) && not (header_available cr.r)
          then some (out, cr)
          else next (begin_chunk cr) room out)
      else if room == 0
      then some (out, cr)
      else next t.1 (room - length t.0) (out ++ t.0)

  unfoldable pub round :
      (ChunkedReader → ℕ → Bytes → Option (Bytes × ChunkedReader))
      → Option ReadError
      → ChunkedReader
      → ℕ
      → Bytes
      → Option (Bytes × ChunkedReader)
  unfolding after_footer
  round next (some e) cr room out = some (out, cr)
  round next none cr room out = after_footer next (check_footer cr (length out)) room out

  unfoldable pub read_loop : ℕ → ChunkedReader → ℕ → Bytes → Option (Bytes × ChunkedReader)
  unfolding round
  read_loop zero cr room out = none
  read_loop (suc fuel) cr room out = round (λ c m o. read_loop fuel c m o) cr.err cr room out

  -- `Read` into a slice of `room` bytes: each round takes a byte or sets the error.
  unfoldable pub read : ChunkedReader → ℕ → Option (Bytes × ChunkedReader)
  read cr room = read_loop (length cr.r.bytes + 2) cr room []
