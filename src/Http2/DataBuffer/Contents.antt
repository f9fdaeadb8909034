-- ===== src/Http2/DataBuffer/Contents.antt =====
-- What a buffer holds, and the shape that its chunks keep (http2/databuffer.go).
use fhttp.Base.{ℕ, ◌≤◌, ◌<◌, ◌≡◌, true, List, [], ◌∷◌, ◌++◌, Bytes, length, take, drop}
use fhttp.Http2.DataBuffer.{DataBuffer, has_length, data_chunk_size_classes}

-- The unread bytes, first to last.
unfoldable pub contents : List Bytes → ℕ → ℕ → Bytes
contents [] r w = []
contents (c ∷ []) r w = drop r (take w c)
contents (c ∷ d ∷ cs) r w = drop r c ++ contents (d ∷ cs) 0 w

unfoldable pub unread : DataBuffer → Bytes
unread b = contents b.chunks b.r b.w

-- A chunk has the length of a pool.
abbrev pub IsChunk : Bytes → Type 0
IsChunk c = has_length data_chunk_size_classes (length c) ≡ true

-- The first chunk is not read to its end, and the positions are within the chunks.
abbrev pub IsPlaced : List Bytes → ℕ → ℕ → Type 0
IsPlaced [] r w = r ≡ 0
IsPlaced (c ∷ []) r w = (r ≤ w) × (w ≤ length c) × (r < length c) × IsChunk c
IsPlaced (c ∷ d ∷ cs) r w = (r < length c) × IsChunk c × IsPlaced (d ∷ cs) 0 w

-- The chunks are placed, and the size is the number of unread bytes.
abbrev pub IsBuffer : DataBuffer → Type 0
IsBuffer b = IsPlaced b.chunks b.r b.w × (b.size ≡ length (unread b))
