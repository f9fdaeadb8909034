-- ===== src/Mux/Dispatch.antt =====
-- The handler for a request (server.go: ServeMux.Handler, with `net.SplitHostPort` of the standard
-- library). The URL of a redirect is its path: it keeps the query of the request.
pub mod Redirects
use fhttp.Base.{
  ℕ, Bool, true, false, not, ◌||◌, Option, none, some, List, [], ◌∷◌, ◌++◌, Bytes, bytes_eq, ◌==◌,
  if◌then◌else◌,
}
use fhttp.Base.Text.{cut, contains}
use fhttp.Mux.{MuxEntry, ServeMux, handler, should_redirect}
use fhttp.Mux.Clean.{clean_path}

-- `r.Method`, `r.Host`, `r.URL.Host` and `r.URL.Path`.
pub record Request : Type 0 where
  pub method : Bytes
  pub host : Bytes
  pub url_host : Bytes
  pub path : Bytes

pub data Found : Type 0 where
  redirect_to : Bytes → Bytes → Found
  found : Option MuxEntry → Found

-- `net.SplitHostPort`, less the port; `none` is an error. Behind an address in brackets, or behind
-- the only colon, stands the port.
unfoldable pub behind_bracket : Bytes → Bytes → Bytes → Option Bytes
behind_bracket t host [] = none
behind_bracket t host (c ∷ port) =
    if not (c == 0x3a) || (contains 0x3a port || (contains 0x5b t || contains 0x5d port))
    then none
    else some host

unfoldable pub split_host_port : Bytes → Option Bytes
split_host_port [] = none
split_host_port (c ∷ t) =
    if c == 0x5b
    then elim (cut 0x5d t) [ none ↦ none | some (host, rest) ↦ behind_bracket t host rest ]
    else elim (cut 0x3a (c ∷ t)) [
      | none ↦ none
      | some (host, port) ↦
          if contains 0x3a port || (contains 0x5b (c ∷ t) || contains 0x5d (c ∷ t))
          then none
          else some host
    ]

unfoldable pub strip_host_port : Bytes → Bytes
strip_host_port h =
    if contains 0x3a h then elim (split_host_port h) [ none ↦ h | some host ↦ host ] else h

abbrev pub pattern_of : Option MuxEntry → Bytes
pattern_of none = []
pattern_of (some e) = e.pattern

-- "CONNECT"
abbrev pub connect_method : Bytes
connect_method = 0x43 ∷ 0x4f ∷ 0x4e ∷ 0x4e ∷ 0x45 ∷ 0x43 ∷ 0x54 ∷ []

-- What `Handler` does with the host and the clean form of the path.
unfoldable pub handler_at : ServeMux → Bytes → Bytes → Bytes → Found
handler_at mux host path raw =
    if should_redirect mux host path
    then redirect_to (path ++ 0x2f ∷ []) (path ++ 0x2f ∷ [])
    else if not (bytes_eq path raw)
    then redirect_to path (pattern_of (handler mux host path))
    else found (handler mux host raw)

unfoldable pub connect_handler : ServeMux → Request → Found
connect_handler mux r =
    if should_redirect mux r.url_host r.path
    then redirect_to (r.path ++ 0x2f ∷ []) (r.path ++ 0x2f ∷ [])
    else found (handler mux r.host r.path)

-- `Handler`
unfoldable pub handler_of : ServeMux → Request → Found
unfolding handler_at connect_handler
handler_of mux r =
    if bytes_eq r.method connect_method
    then connect_handler mux r
    else handler_at mux (strip_host_port r.host) (clean_path r.path) r.path
