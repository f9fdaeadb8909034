-- ===== src/Hpack.antt =====
-- Package hpack (http2/hpack): HPACK header compression.
pub mod Errors
pub mod VarInt
pub mod Field
pub mod Table
pub mod DynTable
pub mod StaticTable
pub mod Huffman
pub mod Encoder
pub mod Decoder
pub mod Sync
mod Tests
