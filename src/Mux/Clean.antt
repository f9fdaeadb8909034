-- ===== src/Mux/Clean.antt =====
-- The canonical form of a path (server.go, with `path.Clean` of the standard library on rooted paths).
pub mod Elements
pub mod Canonical
use fhttp.Base.{
  ℕ, ◌+◌, Bool, true, false, not, ◌&&◌, ◌||◌, List, [], ◌∷◌, ◌++◌, Bytes, length, bytes_eq,
  has_prefix, ◌==◌, if◌then◌else◌,
}
use fhttp.Base.Text.{split}
use fhttp.Mux.{ends_in_slash}

-- "." and ".."
abbrev pub dot : Bytes
dot = 0x2e ∷ []

abbrev pub dots : Bytes
dots = 0x2e ∷ 0x2e ∷ []

abbrev pub tail : List Bytes → List Bytes
tail [] = []
tail (s ∷ acc) = acc

-- The elements of a path, last to first, after one more: `..` takes the last one away.
unfoldable pub step : List Bytes → Bytes → List Bytes
step acc s =
    if length s == 0 || bytes_eq s dot then acc else if bytes_eq s dots then tail acc else s ∷ acc

unfoldable pub resolve : List Bytes → List Bytes → List Bytes
resolve acc [] = acc
resolve acc (s ∷ ss) = resolve (step acc s) ss

unfoldable pub rooted : List Bytes → Bytes
rooted [] = []
rooted (s ∷ acc) = rooted acc ++ 0x2f ∷ s

unfoldable pub or_root : List Bytes → Bytes
unfolding rooted
or_root [] = 0x2f ∷ []
or_root (s ∷ acc) = rooted (s ∷ acc)

-- `path.Clean` on a path that begins with a slash.
unfoldable pub path_clean : Bytes → Bytes
unfolding resolve or_root
path_clean p = or_root (resolve [] (split 0x2f p))

abbrev pub is_root : Bytes → Bool
is_root np = bytes_eq np (0x2f ∷ [])

-- The slash at the end of the path `p` put back behind its clean form `np`.
unfoldable pub with_slash : Bytes → Bytes → Bytes
with_slash p np =
    if ends_in_slash p && not (is_root np)
    then (if length p == length np + 1 && has_prefix p np then p else np ++ 0x2f ∷ [])
    else np

-- `cleanPath` from where the path begins with a slash.
unfoldable pub clean_rooted : Bytes → Bytes
unfolding path_clean with_slash
clean_rooted p = with_slash p (path_clean p)

unfoldable pub clean_path : Bytes → Bytes
clean_path [] = 0x2f ∷ []
clean_path (c ∷ p) = if c == 0x2f then clean_rooted (c ∷ p) else clean_rooted (0x2f ∷ c ∷ p)
