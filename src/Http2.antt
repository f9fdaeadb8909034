-- ===== src/Http2.antt =====
-- Package http2 (http2): the parts of HTTP/2 that have logic of their own.
pub mod Frame
pub mod Pipe
pub mod DataBuffer
pub mod Flow
pub mod Sched
pub mod Server
mod Tests
mod SchedTests
mod BufferTests
mod ServerTests
