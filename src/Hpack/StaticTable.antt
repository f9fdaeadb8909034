-- ===== src/Hpack/StaticTable.antt =====
-- The static table of HPACK: `staticTableEntries` and `newStaticTable` of http2/hpack/tables.go.
use Prim.Native.Char.{code}
use Prim.Native.String.{String}
use fhttp.Base.{
  ◌+◌, ◌^◌, ◌<◌, ◌≡◌, refl, sym, ◌∙◌, List, [], ◌∷◌, ◌++◌, append-nil, append_assoc, Bytes, false,
  length, length-append, arith,
}
use fhttp.Hpack.Field.{HeaderField}
use fhttp.Hpack.Table.{HeaderFieldTable, empty_table, add_entry}
use fhttp.Hpack.Table.Index.{IsIndexed, empty_table-IsIndexed, add_entry-IsIndexed}

-- The bytes of an ASCII text.
abbrev pub codes : String → Bytes
codes String.[] = []
codes (String.◌∷◌ c s) = code c ∷ codes s

-- `{Name: n, Value: v}`
abbrev entry : String → String → HeaderField
entry n v = record { name = codes n; value = codes v; sensitive = false }

unfoldable pub static_table_entries : List HeaderField
static_table_entries =
    entry ":authority" ""
    ∷ entry ":method" "GET"
    ∷ entry ":method" "POST"
    ∷ entry ":path" "/"
    ∷ entry ":path" "/index.html"
    ∷ entry ":scheme" "http"
    ∷ entry ":scheme" "https"
    ∷ entry ":status" "200"
    ∷ entry ":status" "204"
    ∷ entry ":status" "206"
    ∷ entry ":status" "304"
    ∷ entry ":status" "400"
    ∷ entry ":status" "404"
    ∷ entry ":status" "500"
    ∷ entry "accept-charset" ""
    ∷ entry "accept-encoding" "gzip, deflate"
    ∷ entry "accept-language" ""
    ∷ entry "accept-ranges" ""
    ∷ entry "accept" ""
    ∷ entry "access-control-allow-origin" ""
    ∷ entry "age" ""
    ∷ entry "allow" ""
    ∷ entry "authorization" ""
    ∷ entry "cache-control" ""
    ∷ entry "content-disposition" ""
    ∷ entry "content-encoding" ""
    ∷ entry "content-language" ""
    ∷ entry "content-length" ""
    ∷ entry "content-location" ""
    ∷ entry "content-range" ""
    ∷ entry "content-type" ""
    ∷ entry "cookie" ""
    ∷ entry "date" ""
    ∷ entry "etag" ""
    ∷ entry "expect" ""
    ∷ entry "expires" ""
    ∷ entry "from" ""
    ∷ entry "host" ""
    ∷ entry "if-match" ""
    ∷ entry "if-modified-since" ""
    ∷ entry "if-none-match" ""
    ∷ entry "if-range" ""
    ∷ entry "if-unmodified-since" ""
    ∷ entry "last-modified" ""
    ∷ entry "link" ""
    ∷ entry "location" ""
    ∷ entry "max-forwards" ""
    ∷ entry "proxy-authenticate" ""
    ∷ entry "proxy-authorization" ""
    ∷ entry "range" ""
    ∷ entry "referer" ""
    ∷ entry "refresh" ""
    ∷ entry "retry-after" ""
    ∷ entry "server" ""
    ∷ entry "set-cookie" ""
    ∷ entry "strict-transport-security" ""
    ∷ entry "transfer-encoding" ""
    ∷ entry "user-agent" ""
    ∷ entry "vary" ""
    ∷ entry "via" ""
    ∷ entry "www-authenticate" ""
    ∷ []

unfoldable pub add_entries : HeaderFieldTable → List HeaderField → HeaderFieldTable
add_entries t [] = t
add_entries t (e ∷ es) = add_entries (add_entry t e) es

unfoldable pub new_static_table : HeaderFieldTable
new_static_table = add_entries empty_table static_table_entries

add_entries-IsIndexed :
    (es : List HeaderField) {t : HeaderFieldTable}
    → IsIndexed t
    → t.evict_count ≡ 0
    → length t.ents + length es < 2 ^ 32
    → IsIndexed (add_entries t es) × ((add_entries t es).ents ≡ t.ents ++ es)
unfolding add_entries
add_entries-IsIndexed [] v z h = (v, sym (append-nil _))
add_entries-IsIndexed (e ∷ es) {t} v z h =
    let (w, kept) =
      add_entries-IsIndexed es (add_entry-IsIndexed e v (omega arith)) (unfold add_entry in z)
        (unfold add_entry in omega (arith, length-append t.ents (e ∷ []))) in
    (w, kept ∙ unfold add_entry in append_assoc t.ents (e ∷ []) es)

pub length-static_table_entries : length static_table_entries ≡ 61
unfolding static_table_entries
length-static_table_entries = refl

-- The maps of the static table are right, and its entries are those listed.
pub new_static_table-IsIndexed : IsIndexed new_static_table
unfolding new_static_table
new_static_table-IsIndexed =
    (add_entries-IsIndexed static_table_entries empty_table-IsIndexed refl
      (omega (arith, length-static_table_entries))).0

pub new_static_table-ents : new_static_table.ents ≡ static_table_entries
unfolding new_static_table
new_static_table-ents =
    (add_entries-IsIndexed static_table_entries empty_table-IsIndexed refl
      (omega (arith, length-static_table_entries))).1

pub length-new_static_table : length new_static_table.ents ≡ 61
length-new_static_table = rw new_static_table-ents length-static_table_entries
