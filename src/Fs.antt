-- ===== src/Fs.antt =====
-- The handler of files (fs.go): what its parts share, which is the trimming of header values.
pub mod Range
pub mod Condition
mod Tests
use fhttp.Base.{List, [], ◌∷◌, Bytes, if◌then◌else◌}
use fhttp.Base.Text.{is_ascii_space, trim_back}

-- `textproto.TrimString`, front and back.
unfoldable pub trim_front : Bytes → Bytes
trim_front [] = []
trim_front (c ∷ s) = if is_ascii_space c then trim_front s else c ∷ s

unfoldable pub trim_string : Bytes → Bytes
trim_string s = trim_back (trim_front s)
