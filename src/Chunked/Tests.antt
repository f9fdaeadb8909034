-- ===== src/Chunked/Tests.antt =====
-- Chunks at concrete inputs (internal/chunked.go).
use fhttp.Base.{ℕ, ◌≡◌, refl, false, Option, none, some, List, [], ◌∷◌, Bytes, replicate, arith}
use fhttp.Chunked.{ok, err, invalid_byte, too_large, digit, parse_from, parse_hex_uint}
use fhttp.Base.Text.{cut, trim_back, before_blank}
use fhttp.Chunked.Writer.{
  hex_digit, hex_digits, to_hex, chunked_write, chunked_close, write_body, write_footer, flushed,
}
use fhttp.Chunked.Reader.{
  ChunkedReader, ReadError, eof, malformed, read, read_loop, round, after_footer, check_footer,
  read_footer, read_data, read_count, header_available, begin_chunk, chunk_line, with_line,
  with_size, after, buffered, line_length, remove_chunk_extension,
}
use fhttp.Chunked.Reader.Ends.{read_halts}
use fhttp.Chunked.Wire.{joined, at_line, IsAt, Returns}
use fhttp.Chunked.Delivery.{read-Returns}
use fhttp.Chunked.RoundTrip.{sent, read-sent}
use fhttp.Chunked.Size.{value, find_digit, parse_hex_uint-value, parse_hex_uint-Answers}

-- "1aF"
abbrev digits : Bytes
digits = 0x31 ∷ 0x61 ∷ 0x46 ∷ []

-- "1g"
abbrev no_digits : Bytes
no_digits = 0x31 ∷ 0x67 ∷ []

parse_hex_uint-Answers_example : parse_hex_uint digits ≡ ok 431
unfolding value find_digit
parse_hex_uint-Answers_example = parse_hex_uint-Answers digits

parse_no_digits : parse_hex_uint no_digits ≡ err invalid_byte
unfolding parse_hex_uint parse_from digit
parse_no_digits = refl

-- Seventeen digits.
parse_long : parse_hex_uint (replicate 17 0x30) ≡ err too_large
unfolding value find_digit digit
parse_long = parse_hex_uint-value (replicate 17 0x30) 0 refl

-- "abc", "de" and a trailer behind them, of which six bytes are buffered at first.
abbrev chunks : List Bytes
chunks = (0x61 ∷ 0x62 ∷ 0x63 ∷ []) ∷ (0x64 ∷ 0x65 ∷ []) ∷ []

abbrev trailer : Bytes
trailer = 0x0d ∷ 0x0a ∷ []

abbrev on_wire : Bytes
on_wire =
    0x33 ∷ 0x0d ∷ 0x0a ∷ 0x61 ∷ 0x62 ∷ 0x63 ∷ 0x0d ∷ 0x0a ∷ 0x32 ∷ 0x0d ∷ 0x0a ∷ 0x64 ∷ 0x65 ∷ 0x0d
    ∷ 0x0a ∷ 0x30 ∷ 0x0d ∷ 0x0a ∷ trailer

abbrev reader_on : Bytes → ChunkedReader
reader_on s = record {
  r = record { bytes = s; avail = 6; waits = 0 };
  n = 0;
  err = none;
  check_end = false;
}

abbrev two_each : ℕ → ℕ
two_each _ = 2

read_halts_example : (t : Bytes × ChunkedReader) × (read two_each (reader_on on_wire) 9 ≡ some t)
read_halts_example = read_halts two_each (reader_on on_wire) 9

on_wire-IsAt : IsAt (reader_on on_wire) at_line chunks trailer
unfolding to_hex hex_digits hex_digit
on_wire-IsAt = record {
  bytes_at = refl;
  n_at = refl;
  err_at = refl;
  end_at = refl;
  chunks_at = ((omega arith, omega arith), ((omega arith, omega arith), tt));
}

read-Returns_example : Returns (joined chunks) trailer 9 [] (read two_each (reader_on on_wire) 9)
read-Returns_example =
    read-Returns two_each trailer (reader_on on_wire) at_line chunks 9 on_wire-IsAt

read-sent_example : Returns (joined chunks) trailer 9 [] (read two_each (reader_on on_wire) 9)
unfolding sent chunked_write chunked_close write_body write_footer flushed to_hex hex_digits
    hex_digit
read-sent_example =
    read-sent two_each (reader_on on_wire) chunks 9 trailer
      ((omega arith, omega arith), ((omega arith, omega arith), tt)) refl refl refl refl

abbrev got : Option (Bytes × ChunkedReader) → Option (Bytes × Option ReadError)
got none = none
got (some (p, cr)) = some (p, cr.err)

-- A connection that ends inside the data of a chunk.
read_cut :
    got (read two_each (reader_on (0x33 ∷ 0x0d ∷ 0x0a ∷ 0x61 ∷ [])) 9) ≡ some (0x61 ∷ [], some eof)
unfolding read read_loop round after_footer check_footer read_footer read_data read_count
    header_available begin_chunk chunk_line with_line with_size after buffered line_length
    remove_chunk_extension digit parse_hex_uint parse_from cut trim_back before_blank
read_cut = refl

-- No CRLF behind the data.
read_malformed :
    got (read two_each (reader_on (0x31 ∷ 0x0a ∷ 0x61 ∷ 0x62 ∷ 0x63 ∷ [])) 9)
    ≡ some (0x61 ∷ [], some malformed)
unfolding read read_loop round after_footer check_footer read_footer read_data read_count
    header_available begin_chunk chunk_line with_line with_size after buffered line_length
    remove_chunk_extension digit parse_hex_uint parse_from cut trim_back before_blank
read_malformed = refl
