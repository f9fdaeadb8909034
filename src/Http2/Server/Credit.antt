-- ===== src/Http2/Server/Credit.antt =====
-- The credit that a server gives back to its peer (http2/server.go: sendWindowUpdate and
-- sendWindowUpdate32), for the connection, with the stream id 0, or for a stream. The state is the
-- number of its `inflow`, and the frames that `writeFrame` was called with, as stream ids and
-- increments.
use fhttp.Base.{
  ℕ, zero, suc, ◌+◌, ◌-◌, ◌^◌, ◌<◌, ◌≤◌, ◌≡◌, ◌⊎◌, inl, inr, refl, sym, ap, ◌∙◌, Bool, true, false,
  Option, none, some, List, [], ◌∷◌, ◌++◌, append_assoc, append-nil, ltb, leb, ◌==◌, if◌then◌else◌,
  Bool-cases, All, All-append, arith,
}
use fhttp.Base.Options.{◌>>=◌}
use fhttp.Base.Int32.{ord, signed_ltb}
use fhttp.Http2.Flow.{Flow, add}
use fhttp.Http2.Flow.Windows.{add-exact}

pub record Credit : Type 0 where
  pub in_window : ℕ
  pub frames : List (ℕ × ℕ)

-- The frame is written before `add`; `none` is the panic where that fails.
unfoldable pub credited : Credit → ℕ → ℕ → Flow × Bool → Option Credit
credited c i n (f, true) = some (record { in_window = f.n; frames = c.frames ++ (i, n) ∷ [] })
credited c i n (f, false) = none

-- `sendWindowUpdate32`, with an increment as a word.
unfoldable pub send_window_update32 : ℕ → Credit → ℕ → Option Credit
unfolding credited
send_window_update32 i c n =
    if n == 0
    then some c
    else if signed_ltb n 0
    then none
    else credited c i n (add (record { n = c.in_window; conn = none }) n)

abbrev pub max_uint31 : ℕ
max_uint31 = 2 ^ 31 - 1

-- The loop and the last frame; a round takes max_uint31 from `n`.
unfoldable pub update_loop : ℕ → ℕ → Credit → ℕ → Option Credit
update_loop zero i c n = none
update_loop (suc fuel) i c n =
    if leb max_uint31 n
    then send_window_update32 i c max_uint31 >>= (λ c'. update_loop fuel i c' (n - max_uint31))
    else send_window_update32 i c n

-- `sendWindowUpdate`, for an int that is not negative.
unfoldable pub send_window_update : ℕ → Credit → ℕ → Option Credit
send_window_update i c n = update_loop (n + 1) i c n

abbrev pub total : List (ℕ × ℕ) → ℕ
total [] = 0
total ((i, n) ∷ fs) = n + total fs

-- A frame for the stream `i` with a legal increment.
abbrev pub IsUpdate : ℕ → ℕ × ℕ → Type 0
IsUpdate i (j, n) = (j ≡ i) × (0 < n) × (n < 2 ^ 31)

-- The credit `n` was given in full.
abbrev pub Gives : ℕ → Credit → ℕ → Option Credit → Type 0
Gives i c n o =
    (c' : Credit) × (o ≡ some c')
    × (new : List (ℕ × ℕ)) × (c'.frames ≡ c.frames ++ new)
    × All (IsUpdate i) new
    × (total new ≡ n)
    × (ord c'.in_window ≡ ord c.in_window + n)
    × (c'.in_window < 2 ^ 32)

send_window_update32-Gives :
    (i : ℕ) (c : Credit) (n : ℕ)
    → c.in_window < 2 ^ 32
    → n < 2 ^ 31
    → ord c.in_window + n < 2 ^ 32
    → Gives i c n (send_window_update32 i c n)
unfolding send_window_update32 credited
send_window_update32-Gives i c n hw hn fits = elim (Bool-cases (n == 0)) [
  | inl no_credit ↦
      rw no_credit (c, refl, [], sym (append-nil c.frames), tt, ground arith, ground arith, hw)
  | inr credit ↦
      let positive : signed_ltb n 0 ≡ false = ground arith in
      elim (add-exact (record { n = c.in_window; conn = none }) n hw (omega arith)) [
        | inl (f, added, sum, lt, _) ↦
            rw (credit, positive, added)
              (
                record { in_window = f.n; frames = c.frames ++ (i, n) ∷ [] },
                refl,
                (i, n) ∷ [],
                refl,
                ((refl, ground arith, hn), tt),
                omega arith,
                omega (arith, sum),
                lt,
              )
        | inr (_, outside) ↦ absurd (omega (arith, outside))
      ]
]

send_window_update32-none :
    (i : ℕ) (c : Credit) (n : ℕ)
    → c.in_window < 2 ^ 32
    → n < 2 ^ 31
    → 2 ^ 32 ≤ ord c.in_window + n
    → send_window_update32 i c n ≡ none
unfolding send_window_update32 credited
send_window_update32-none i c n hw hn over =
    let credit : (n == 0) ≡ false = ground (arith, over) in
    let positive : signed_ltb n 0 ≡ false = ground arith in
    elim (add-exact (record { n = c.in_window; conn = none }) n hw (omega arith)) [
      | inl (f, added, sum, lt, _) ↦ absurd (omega (arith, over, sum))
      | inr (refused, _) ↦ rw (credit, positive, refused) refl
    ]

lt_or_le : (a b : ℕ) → (a < b) ⊎ (b ≤ a)
lt_or_le a b = elim (Bool-cases (ltb a b)) [
  | inl low ↦ inl (ground (arith, low))
  | inr high ↦ inr (ground (arith, high))
]

total-append : (fs gs : List (ℕ × ℕ)) → total (fs ++ gs) ≡ total fs + total gs
total-append [] gs = omega arith
total-append ((i, n) ∷ fs) gs = omega (arith, total-append fs gs)

-- One more round, and the rest of them.
more_rounds-Gives :
    (i fuel : ℕ) (c : Credit) (n k : ℕ) (o : Option Credit)
    → k ≤ n
    → Gives i c k o
    → ((c' : Credit)
        → ord c'.in_window ≡ ord c.in_window + k
        → c'.in_window < 2 ^ 32
        → Gives i c' (n - k) (update_loop fuel i c' (n - k)))
    → Gives i c n (o >>= (λ c'. update_loop fuel i c' (n - k)))
more_rounds-Gives i fuel c n k o le (c1, is, new, fs, legal, sum, grew, lt) rest =
    let (c2, is2, new2, fs2, legal2, sum2, grew2, lt2) = rest c1 grew lt in
    (
      c2,
      ap (λ (x : Option Credit). x >>= (λ c'. update_loop fuel i c' (n - k))) is ∙ is2,
      new ++ new2,
      fs2 ∙ ap (λ x. x ++ new2) fs ∙ append_assoc c.frames new new2,
      All-append (IsUpdate i) new new2 legal legal2,
      omega (arith, total-append new new2, sum, sum2),
      omega (arith, grew, grew2),
      lt2,
    )

update_loop-Gives :
    (fuel i : ℕ) (c : Credit) (n : ℕ)
    → n < fuel
    → c.in_window < 2 ^ 32
    → ord c.in_window + n < 2 ^ 32
    → Gives i c n (update_loop fuel i c n)
unfolding update_loop
update_loop-Gives zero i c n h hw fits = absurd (omega arith)
update_loop-Gives (suc fuel) i c n h hw fits = elim (Bool-cases (leb max_uint31 n)) [
  | inl large ↦
      let le : max_uint31 ≤ n = ground (arith, large) in
      rw large (
        more_rounds-Gives i fuel c n max_uint31 (send_window_update32 i c max_uint31) le
          (send_window_update32-Gives i c max_uint31 hw (omega arith) (omega arith))
          (λ c' grew lt.
            update_loop-Gives fuel i c' (n - max_uint31) (omega arith) lt (omega (arith, grew))))
  | inr small ↦ rw small (send_window_update32-Gives i c n hw (ground (arith, small)) fits)
]

update_loop-none :
    (fuel i : ℕ) (c : Credit) (n : ℕ)
    → n < fuel
    → c.in_window < 2 ^ 32
    → 2 ^ 32 ≤ ord c.in_window + n
    → update_loop fuel i c n ≡ none
unfolding update_loop
update_loop-none zero i c n h hw over = absurd (omega arith)
update_loop-none (suc fuel) i c n h hw over = elim (Bool-cases (leb max_uint31 n)) [
  | inl large ↦
      let le : max_uint31 ≤ n = ground (arith, large) in
      rw large (elim (lt_or_le (ord c.in_window + max_uint31) (2 ^ 32)) [
        | inl fits ↦
            let (c1, is, _, _, _, _, grew, lt) =
              send_window_update32-Gives i c max_uint31 hw (omega arith) fits in
            ap (λ (x : Option Credit). x >>= (λ c'. update_loop fuel i c' (n - max_uint31))) is
            ∙ update_loop-none fuel i c1 (n - max_uint31) (omega arith) lt (omega (arith, grew))
        | inr beyond ↦
            ap (λ (x : Option Credit). x >>= (λ c'. update_loop fuel i c' (n - max_uint31)))
              (send_window_update32-none i c max_uint31 hw (omega arith) beyond)
      ])
  | inr small ↦ rw small (send_window_update32-none i c n hw (ground (arith, small)) over)
]

-- For a window that is a word, either it fits int32 with the credit `n` added: then sendWindowUpdate
-- does not panic, the window has grown by exactly `n`, and the frames it wrote are for this stream,
-- have legal increments and sum up to `n`. Or it does not fit, and the call panics.
pub send_window_update-Gives :
    (i : ℕ) (c : Credit) (n : ℕ)
    → c.in_window < 2 ^ 32
    → ((ord c.in_window + n < 2 ^ 32) × Gives i c n (send_window_update i c n))
      ⊎ ((2 ^ 32 ≤ ord c.in_window + n) × (send_window_update i c n ≡ none))
unfolding send_window_update
send_window_update-Gives i c n hw = elim (lt_or_le (ord c.in_window + n) (2 ^ 32)) [
  | inl fits ↦ inl (fits, update_loop-Gives (n + 1) i c n (omega arith) hw fits)
  | inr over ↦ inr (over, update_loop-none (n + 1) i c n (omega arith) hw over)
]
