-- ===== src/Lib.antt =====
-- A verification library for fhttp, a fork of Go's net/http with its HTTP/2 stack.
--
-- Package hpack (http2/hpack) is modelled file by file, but for DecodeFull, setters and String methods:
--   Hpack/Field          hpack.go: HeaderField and its size
--   Hpack/VarInt         encode.go appendVarInt, hpack.go readVarInt
--   Hpack/Table          tables.go: headerFieldTable with its two maps
--   Hpack/DynTable       hpack.go: dynamicTable
--   Hpack/StaticTable    tables.go: the static table
--   Hpack/Huffman        huffman.go and the code tables of tables.go
--                        (its proofs: Bits, Written, Octets and Encoded on the encoder, Spelled on the
--                        tree, which is evaluated once, Fronts, Decoded and RoundTrip on the decoder)
--   Hpack/Encoder        encode.go: Encoder and what WriteField hands to its io.Writer
--   Hpack/Decoder        hpack.go: Decoder; the callback emit is a list of what it was called with
--   Hpack/Sync           no file: an encoder and a decoder whose tables agree
--
-- Package http2 (http2) is modelled in part:
--   Http2/Frame          frame.go, errors.go: frame types, flags, headers and errors
--   Http2/Frame/Octets   frame.go: numbers in network byte order
--   Http2/Frame/Parse    frame.go: frameParsers, and the settings of a SettingsFrame
--   Http2/Frame/Write    frame.go: what the writers of Framer hand to its io.Writer
--   Http2/Frame/Read     frame.go: ReadFrame and checkFrameOrder on the octets that are left
--   Http2/Flow           flow.go: flow; the shared counter of the connection is a field of its own
--   Http2/Sched          writesched.go: FrameWriteRequest.Consume and writeQueue
--   Http2/DataBuffer     databuffer.go: dataBuffer, a queue of bytes in chunks
--   Http2/Pipe           pipe.go: pipe over any pipeBuffer; Pipe/Buffer puts a dataBuffer into it
--   Http2/Server         server.go: state, processWindowUpdate, processSettingInitialWindowSize, and the
--                        table of streams and its windows in newStream and closeStream
--   Http2/Server/Credit  server.go: sendWindowUpdate and sendWindowUpdate32
-- The proofs on frames are in Http2/Frame/Framing, RoundTrip, Padded, Blocks, Control, Settings and
-- Order, those on flow control in Http2/Flow/Windows, Http2/Sched/Splits and Http2/Sched/Queue, those
-- on the two buffers in the modules below Http2/DataBuffer and Http2/Pipe, those on the windows of all
-- streams below Http2/Server: Http2/Server/Ledger has the runs of a connection and their books.
--
-- The transfer coding (internal/chunked.go) is modelled as a whole:
--   Chunked              parseHexUint, with its proof in Chunked/Size
--   Chunked/Writer       chunkedWriter over any io.Writer
--   Chunked/Reader       chunkedReader over a bufio.Reader that says how many bytes it has buffered
-- Chunked/Line is about one line of the coding, Chunked/Wire, Delivery and RoundTrip about a stream of
-- chunks, Chunked/Reader/Ends about the rounds of Read.
--
-- The request multiplexer (ServeMux in server.go):
--   Mux                  the table of patterns: Handle, match, handler, shouldRedirectRLocked
--   Mux/Clean            cleanPath, with path.Clean
--   Mux/Dispatch         Handler and stripHostPort, with net.SplitHostPort
-- Its proofs are in Mux/Search, Mux/Handle and Mux/Match, Mux/Clean/Elements and Canonical, and
-- Mux/Dispatch/Redirects.
--
-- Requests for content (fs.go):
--   Fs/Range             parseRange
--   Fs/Condition         scanETag, the checks of the conditional headers, and ParseTime of header.go
-- with the proofs below each. time.Parse of the standard library is a parameter.
--
-- Base holds what all parts share: tests, lists, masks on octets, words, int32 as words.
--
-- Strings and slices are lists of octets, numbers are native numbers, and each operation on uint32 or
-- uint64 that can wrap has its remainder written out. A map of ids is a function that gives 0 where
-- the Go map has no key. A panic is `none`, or `panic` in a result type.
--
-- Bounds and fuel. The loop of appendVarInt has 9 rounds (a uint64 is below 2 after 9 shifts by 7
-- bits). The loop of appendByteToHuffmanCode has 5 (a code has at most 30 bits). The loops of
-- huffmanDecode have 16 and 8, by the number of valid bits. The loop of Decoder.Write has as many
-- rounds as there are octets. The parsers and writers of frames have no fuel. The loops of Read and
-- Write of dataBuffer have as many rounds as there are bytes to copy, since each copies one at least;
-- the loops over ETags as many as the header has bytes, and one more; sort.Search as many as there
-- are elements; sendWindowUpdate one more than the credit; Read of a chunked body as many as the connection has bytes, and two more. The buffer
-- of the bufio.Reader has its default size of 4096 bytes.
--
-- Not modelled: ReadMetaHeaders, reading on with a Framer after a StreamError, the reuse of frame
-- buffers and AllowIllegalWrites of the Framer; the rest of http2 (the rest of the server, the
-- transport, the priority and the random scheduler); ServeHTTP, opening and sending files; cookies,
-- the HTTP/1 client, server and transport, CGI, proxies; input and output, timeouts and logging; the
-- bundles, which are generated; and the tools. A mutex is the atomicity of a call. The chunk pools of
-- dataBuffer are a parameter that gives chunks of the pool's length.
pub mod Base
pub mod Chunked
pub mod Hpack
pub mod Http2
pub mod Mux
pub mod Fs
