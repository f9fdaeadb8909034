-- ===== src/Mux.antt =====
-- The request multiplexer (server.go): registration, and the choice of a handler. Strings are lists
-- of bytes, handlers are numbers, and the map of patterns is a function.
pub mod Search
pub mod Handle
pub mod Match
pub mod Clean
pub mod Dispatch
mod Tests
use fhttp.Base.{
  ℕ, zero, suc, ◌+◌, ◌/◌, Bool, true, false, not, ◌&&◌, ◌||◌, Option, none, some, List, [], ◌∷◌,
  ◌++◌, Bytes, length, take, drop, get_elem?, bytes_eq, has_prefix, ltb, leb, ◌==◌, if◌then◌else◌,
}

pub record MuxEntry : Type 0 where
  pub h : ℕ
  pub pattern : Bytes

pub record ServeMux : Type 0 where
  pub m : Bytes → Option MuxEntry
  pub es : List MuxEntry
  pub hosts : Bool

-- `new(ServeMux)`; a nil map has no keys.
abbrev pub new_serve_mux : ServeMux
new_serve_mux = record { m = λ p. none; es = []; hosts = false }

abbrev slash : ℕ
slash = 0x2f

-- `s[len(s)-1] == '/'` and `s[0] == '/'`; on an empty string they would panic.
unfoldable pub ends_in_slash : Bytes → Bool
ends_in_slash [] = false
ends_in_slash (c ∷ []) = c == 0x2f
ends_in_slash (c ∷ d ∷ s) = ends_in_slash (d ∷ s)

unfoldable pub starts_with_slash : Bytes → Bool
starts_with_slash [] = false
starts_with_slash (c ∷ s) = c == 0x2f

-- The loop of `sort.Search` from `i` to `j`, in `fuel` rounds at most.
unfoldable pub search_loop : ℕ → (ℕ → Bool) → ℕ → ℕ → ℕ
search_loop zero f i j = i
search_loop (suc fuel) f i j =
    let upper = search_loop fuel f ((i + j) / 2 + 1) j in
    let lower = search_loop fuel f i ((i + j) / 2) in
    if ltb i j then (if f ((i + j) / 2) then lower else upper) else i

unfoldable pub search : ℕ → (ℕ → Bool) → ℕ
search n f = search_loop n f 0 n

unfoldable pub shorter_at : List MuxEntry → MuxEntry → ℕ → Bool
shorter_at es e i = elim (get_elem? es i) [
  | none ↦ false
  | some x ↦ ltb (length x.pattern) (length e.pattern)
]

unfoldable pub append_sorted : List MuxEntry → MuxEntry → List MuxEntry
append_sorted es e =
    let i = search (length es) (shorter_at es e) in
    if i == length es then es ++ e ∷ [] else take i es ++ e ∷ drop i es

abbrev pub put : Bytes → MuxEntry → (Bytes → Option MuxEntry) → Bytes → Option MuxEntry
put pattern e m p = if bytes_eq pattern p then some e else m p

abbrev pub is_some : Option MuxEntry → Bool
is_some none = false
is_some (some _) = true

unfoldable pub registered : ServeMux → Bytes → ℕ → ServeMux
registered mux pattern h =
    let e : MuxEntry = record { h = h; pattern = pattern } in
    record {
      m = put pattern e mux.m;
      es = (if ends_in_slash pattern then append_sorted mux.es e else mux.es);
      hosts = mux.hosts || not (starts_with_slash pattern);
    }

-- `Handle`; `none` is a panic, and a nil handler is `none`.
unfoldable pub handle : ServeMux → Bytes → Option ℕ → Option ServeMux
unfolding registered
handle mux [] handler = none
handle mux (c ∷ p) none = none
handle mux (c ∷ p) (some h) =
    if is_some (mux.m (c ∷ p)) then none else some (registered mux (c ∷ p) h)

-- The loop of `match` over `es`.
unfoldable pub first_prefix : List MuxEntry → Bytes → Option MuxEntry
first_prefix [] path = none
first_prefix (e ∷ es) path = if has_prefix path e.pattern then some e else first_prefix es path

-- `match`; `none` is a nil handler.
unfoldable pub match : ServeMux → Bytes → Option MuxEntry
match mux path = elim (mux.m path) [ some e ↦ some e | none ↦ first_prefix mux.es path ]

unfoldable pub or_match : Option MuxEntry → ServeMux → Bytes → Option MuxEntry
or_match (some e) mux path = some e
or_match none mux path = match mux path

-- `handler`; `none` is the handler that answers `not found`.
unfoldable pub handler : ServeMux → Bytes → Bytes → Option MuxEntry
unfolding or_match
handler mux host path = or_match (if mux.hosts then match mux (host ++ path) else none) mux path

-- `shouldRedirectRLocked`
unfoldable pub should_redirect : ServeMux → Bytes → Bytes → Bool
should_redirect mux host path =
    if is_some (mux.m path) || is_some (mux.m (host ++ path))
    then false
    else if length path == 0
    then false
    else if is_some (mux.m (path ++ 0x2f ∷ [])) || is_some (mux.m ((host ++ path) ++ 0x2f ∷ []))
    then not (ends_in_slash path)
    else false
