-- ===== src/Http2/Server/Settings.antt =====
-- SETTINGS_INITIAL_WINDOW_SIZE on all streams at once (http2/server.go).
use fhttp.Base.{
  ℕ, ◌+◌, ◌^◌, ◌<◌, ◌≤◌, ◌≡◌, ◌⊎◌, inl, inr, refl, sym, subst, Bool, true, false, Option, some,
  List, [], ◌∷◌, if◌then◌else◌, All, arith,
}
use fhttp.Base.Word.{sub32}
use fhttp.Base.Int32.{ord}
use fhttp.Http2.Flow.{Flow, add}
use fhttp.Http2.Flow.Windows.{add-exact, ord_growth}
use fhttp.Http2.Server.{Stream, Conn, grow, process_setting_initial_window_size}

abbrev HasWord : Stream → Type 0
HasWord st = st.window < 2 ^ 32

-- The same streams, each window moved from the old initial window to the new one.
abbrev pub Moved : ℕ → ℕ → List Stream → List Stream → Type 0
Moved old new [] [] = Unit
Moved old new [] (y ∷ ys) = ⊥
Moved old new (x ∷ xs) [] = ⊥
Moved old new (x ∷ xs) (y ∷ ys) =
    (y.id ≡ x.id)
    × (y.state ≡ x.state)
    × (y.in_window ≡ x.in_window)
    × (ord y.window + old ≡ ord x.window + new)
    × Moved old new xs ys

-- Some window would leave int32.
abbrev pub Overflows : ℕ → ℕ → List Stream → Type 0
Overflows old new [] = ⊥
Overflows old new (x ∷ xs) =
    (ord x.window + new < old) ⊎ ((2 ^ 32 + old ≤ ord x.window + new) ⊎ Overflows old new xs)

abbrev pub Grown : ℕ → ℕ → List Stream → List Stream × Bool → Type 0
Grown old new ss t = ((t.1 ≡ true) × Moved old new ss t.0) ⊎ ((t.1 ≡ false) × Overflows old new ss)

grow_one :
    (old new : ℕ) (x : Stream) (xs : List Stream) (rest : List Stream × Bool) (q : Flow × Bool)
    → (f : Flow) × (q ≡ (f, true)) × (ord f.n + old ≡ ord x.window + new)
    → Grown old new xs rest
    → Grown old new
        (x ∷ xs)
        (if q.1 then (record x { window = q.0.n } ∷ rest.0, rest.1) else (x ∷ xs, false))
grow_one old new x xs rest q (f, is, moved) (inl (ok, m)) =
    subst
      (λ (p : Flow × Bool).
        Grown old new (x ∷ xs)
          (if p.1 then (record x { window = p.0.n } ∷ rest.0, rest.1) else (x ∷ xs, false)))
      (sym is) (inl (ok, (refl, refl, refl, moved, m)))
grow_one old new x xs rest q (f, is, moved) (inr (bad, o)) =
    subst
      (λ (p : Flow × Bool).
        Grown old new (x ∷ xs)
          (if p.1 then (record x { window = p.0.n } ∷ rest.0, rest.1) else (x ∷ xs, false)))
      (sym is) (inr (bad, inr (inr o)))

grow-Grown :
    (conn : Option ℕ) (old new : ℕ) (ss : List Stream)
    → old < 2 ^ 31
    → new < 2 ^ 31
    → All HasWord ss
    → Grown old new ss (grow conn (sub32 new old) ss)
unfolding grow
grow-Grown conn old new [] ho hn a = inl (refl, tt)
grow-Grown conn old new (x ∷ xs) ho hn a =
    let f : Flow = record { n = x.window; conn = conn } in
    let g = ord_growth new old hn ho in
    elim (add-exact f (sub32 new old) a.0 (omega arith)) [
      | inl (f', added, sum, _, _) ↦
          grow_one old new x xs (grow conn (sub32 new old) xs) (add f (sub32 new old))
            (f', added, omega (arith, sum, g)) (grow-Grown conn old new xs ho hn a.1)
      | inr (refused, inl low) ↦ rw refused (inr (refl, inl (omega (arith, low, g))))
      | inr (refused, inr high) ↦ rw refused (inr (refl, inr (inl (omega (arith, high, g)))))
    ]

-- From one initial window below 2^31 to another, for a connection whose windows are words: the new
-- initial window is kept and the connection's window stays. Either the streams are the same, in
-- order, with their ids, states and receive windows, and the send window of each has moved by exactly
-- the difference, as an int32; or the answer is the connection error and the send window of some
-- stream would leave int32.
pub process_setting_initial_window_size-Grown :
    (c : Conn) (n : ℕ)
    → c.initial_window < 2 ^ 31
    → n < 2 ^ 31
    → All HasWord c.streams
    → let t = process_setting_initial_window_size c n in
      (t.0.initial_window ≡ n)
      × (t.0.window ≡ c.window)
      × Grown c.initial_window n c.streams (t.0.streams, t.1)
unfolding process_setting_initial_window_size
process_setting_initial_window_size-Grown c n hc hn a =
    (refl, refl, grow-Grown (some c.window) c.initial_window n c.streams hc hn a)
