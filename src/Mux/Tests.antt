-- ===== src/Mux/Tests.antt =====
-- Runs of the multiplexer, and its theorems at concrete inputs.
use fhttp.Base.{
  ◌≤◌, ◌≡◌, ◌⊎◌, inl, inr, refl, sym, ◌∙◌, subst, true, false, Option, none, some, [], ◌∷◌, Bytes,
  has_prefix, length, bytes_eq,
}
use fhttp.Mux.{
  MuxEntry, ServeMux, new_serve_mux, ends_in_slash, starts_with_slash, search, search_loop,
  shorter_at, append_sorted, put, registered, handle, first_prefix, match, or_match, handler,
  should_redirect,
}
use fhttp.Base.Text.{split, onto_first, cut, contains}
use fhttp.Mux.Clean.{step, clean_rooted, clean_path}
use fhttp.Mux.Dispatch.{Request, redirect_to, strip_host_port, split_host_port, handler_of}
use fhttp.Mux.Dispatch.Redirects.{LeadsTo, handler_of-LeadsTo}
use fhttp.Mux.Search.{IsDescending, append_sorted-IsDescending}
use fhttp.Mux.Handle.{IsMux, new_serve_mux-IsMux, handle-IsMux}
use fhttp.Mux.Match.{Matches, match_best, handler-or_match}

-- The pattern `/a/`.
abbrev folder : Bytes
folder = 0x2f ∷ 0x61 ∷ 0x2f ∷ []

-- The path `/a/b`.
abbrev inside : Bytes
inside = 0x2f ∷ 0x61 ∷ 0x2f ∷ 0x62 ∷ []

abbrev folder_entry : MuxEntry
folder_entry = record { h = 7; pattern = folder }

abbrev root_entry : MuxEntry
root_entry = record { h = 8; pattern = 0x2f ∷ [] }

abbrev with_folder : ServeMux
with_folder = record {
  m = put folder folder_entry (λ p. none);
  es = folder_entry ∷ [];
  hosts = false;
}

with_folder-handle : handle new_serve_mux folder (some 7) ≡ some with_folder
unfolding handle registered ends_in_slash starts_with_slash append_sorted search search_loop
with_folder-handle = refl

root_last : append_sorted (folder_entry ∷ []) root_entry ≡ folder_entry ∷ root_entry ∷ []
unfolding append_sorted search search_loop shorter_at
root_last = refl

redirected : should_redirect with_folder [] (0x2f ∷ 0x61 ∷ []) ≡ true
unfolding should_redirect ends_in_slash bytes_eq
redirected = refl

-- The multiplexer of a successful registration is sound.
handled :
    (r : Option ServeMux) (mux : ServeMux)
    → r ≡ some mux
    → (r ≡ none) ⊎ ((mux' : ServeMux) × (r ≡ some mux') × IsMux mux')
    → IsMux mux
handled r mux e (inl panic) = let t : none ≡ some mux = sym panic ∙ e in cc
handled r mux e (inr (mux', q, v)) =
    let t : some mux' ≡ some mux = sym q ∙ e in let same : mux' ≡ mux = cc in subst IsMux same v

with_folder-IsMux : IsMux with_folder
with_folder-IsMux =
    handled (handle new_serve_mux folder (some 7)) with_folder with_folder-handle
      (elim (handle-IsMux new_serve_mux folder (some 7) new_serve_mux-IsMux) [
        | inl panic ↦ inl panic.0
        | inr (h, mux, e, q, sound, map) ↦ inr (mux, q, sound)
      ])

folder-registered : with_folder.m folder ≡ some folder_entry
unfolding bytes_eq
folder-registered = refl

inside-match : match with_folder inside ≡ some folder_entry
unfolding bytes_eq match first_prefix has_prefix
inside-match = refl

folder-Matches : Matches folder inside
unfolding ends_in_slash has_prefix
folder-Matches = inr (refl, refl)

host-other : starts_with_slash (0x61 ∷ []) ≡ false
unfolding starts_with_slash
host-other = refl

append_sorted-IsDescending_example : IsDescending (append_sorted (folder_entry ∷ []) root_entry)
append_sorted-IsDescending_example =
    append_sorted-IsDescending (folder_entry ∷ []) root_entry (tt, tt)

match_best_example :
    ((match with_folder inside ≡ none)
      × ((p : Bytes) (e' : MuxEntry) → with_folder.m p ≡ some e' → Matches p inside → ⊥))
    ⊎ ((e : MuxEntry) × (match with_folder inside ≡ some e)
        × (with_folder.m e.pattern ≡ some e)
        × Matches e.pattern inside
        × ((p : Bytes) (e' : MuxEntry)
            → with_folder.m p ≡ some e'
            → Matches p inside
            → length p ≤ length e.pattern))
match_best_example = match_best with_folder inside with_folder-IsMux

handler-or_match_example :
    handler with_folder (0x61 ∷ []) inside
    ≡ or_match (match with_folder (0x61 ∷ inside)) with_folder inside
handler-or_match_example =
    handler-or_match with_folder (0x61 ∷ []) inside with_folder-IsMux host-other

abbrev get_folder : Request
get_folder = record {
  method = 0x47 ∷ 0x45 ∷ 0x54 ∷ [];
  host = 0x61 ∷ 0x3a ∷ 0x38 ∷ [];
  url_host = [];
  path = 0x2f ∷ 0x62 ∷ 0x2f ∷ 0x2e ∷ 0x2e ∷ 0x2f ∷ 0x61 ∷ [];
}

-- The path `/b/../a` on the host `a:8`.
folder-redirect : handler_of with_folder get_folder ≡ redirect_to folder folder
unfolding handler_of clean_path clean_rooted split onto_first step should_redirect strip_host_port
    split_host_port cut contains ends_in_slash bytes_eq
folder-redirect = refl

host-stripped : strip_host_port get_folder.host ≡ 0x61 ∷ []
unfolding strip_host_port split_host_port cut contains
host-stripped = refl

handler_of-LeadsTo_example :
    LeadsTo (handler_of with_folder (record get_folder { path = folder })) folder folder
handler_of-LeadsTo_example = handler_of-LeadsTo with_folder get_folder folder folder folder-redirect
