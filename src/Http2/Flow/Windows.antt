-- ===== src/Http2/Flow/Windows.antt =====
-- What the operations of a flow (http2/flow.go) do to the windows, as numbers that are not cut off.
use fhttp.Base.{
  ℕ, ◌+◌, ◌^◌, ◌<◌, ◌≤◌, ◌≡◌, ◌⊎◌, Bool-cases, inl, inr, refl, Bool, true, false, Option, none,
  some, arith,
}
use fhttp.Base.Word.{add32, sub32}
use fhttp.Base.Int32.{ord, signed_ltb}
use fhttp.Http2.Flow.{Flow, available, available_of, take, less, add, same}

accepts : ℕ → ℕ → Bool
accepts m n = same (signed_ltb n (add32 m n)) (signed_ltb 0 m)

accepts-fits :
    (m n : ℕ)
    → m < 2 ^ 32
    → n < 2 ^ 32
    → 2 ^ 31 ≤ ord m + ord n
    → ord m + ord n < 2 ^ 31 + 2 ^ 32
    → accepts m n ≡ true
unfolding accepts
accepts-fits m n hm hn lo hi = ground arith

accepts-exact :
    (m n : ℕ)
    → m < 2 ^ 32
    → n < 2 ^ 32
    → accepts m n ≡ true
    → (2 ^ 31 ≤ ord m + ord n)
      × (ord m + ord n < 2 ^ 31 + 2 ^ 32)
      × (ord (add32 m n) + 2 ^ 31 ≡ ord m + ord n)
unfolding accepts
accepts-exact m n hm hn e = ground arith

-- `add` returns true and the window is the sum of the two int32, or it returns false, the window
-- stays, and the sum is no int32.
pub add-exact :
    (f : Flow) (n : ℕ)
    → f.n < 2 ^ 32
    → n < 2 ^ 32
    → ((f' : Flow) × (add f n ≡ (f', true))
        × (ord f'.n + 2 ^ 31 ≡ ord f.n + ord n)
        × (f'.n < 2 ^ 32)
        × (f'.conn ≡ f.conn))
      ⊎ ((add f n ≡ (f, false))
          × ((ord f.n + ord n < 2 ^ 31) ⊎ (2 ^ 31 + 2 ^ 32 ≤ ord f.n + ord n)))
unfolding add accepts
add-exact f n hf hn = elim (Bool-cases (accepts f.n n)) [
  | inl e ↦
      rw e (
        inl
          (record f { n = add32 f.n n }, refl, (accepts-exact f.n n hf hn e).2, omega arith, refl))
  | inr e ↦ rw e (inr (refl, outside e))
]
  where
    outside :
        accepts f.n n ≡ false → (ord f.n + ord n < 2 ^ 31) ⊎ (2 ^ 31 + 2 ^ 32 ≤ ord f.n + ord n)
    outside e = ground (arith, accepts-fits f.n n hf hn)

abbrev pub IsWord : Option ℕ → Type 0
IsWord none = Unit
IsWord (some c) = c < 2 ^ 32

-- The numbers of a flow are words.
abbrev pub IsFlow : Flow → Type 0
IsFlow f = (f.n < 2 ^ 32) × IsWord f.conn

-- The word of the difference of two numbers below 2^31.
pub ord_growth : (n m : ℕ) → n < 2 ^ 31 → m < 2 ^ 31 → ord (sub32 n m) + m ≡ n + 2 ^ 31
ord_growth n m hn hm = omega arith

pub take_one : (m n : ℕ) → m < 2 ^ 32 → n < 2 ^ 31 → ord n ≤ ord m → ord (sub32 m n) + n ≡ ord m
take_one m n hm hn h = omega arith

take_within :
    (m : ℕ) (c : Option ℕ) (n : ℕ)
    → let f : Flow = record { n = m; conn = c } in
      IsFlow f
      → n < 2 ^ 31
      → ord n ≤ ord (available f)
      → (f' : Flow) × (take f n ≡ some f')
        × (ord (available f') + n ≡ ord (available f))
        × IsFlow f'
unfolding take available available_of less
take_within m none n w hn h =
    (record { n = sub32 m n; conn = none }, ground arith, take_one m n w.0 hn h, (omega arith, tt))
take_within m (some c) n w hn h = (
  record { n = sub32 m n; conn = some (sub32 c n) },
  ground arith,
  ground (arith, take_one m n w.0 hn, take_one c n w.1 hn),
  (omega arith, omega arith),
)

-- `take` of at most what is available does not panic, and takes just that many from what is
-- available.
pub take-available :
    (f : Flow) (n : ℕ)
    → IsFlow f
    → n < 2 ^ 31
    → ord n ≤ ord (available f)
    → (f' : Flow) × (take f n ≡ some f') × (ord (available f') + n ≡ ord (available f)) × IsFlow f'
take-available f n w hn h = take_within f.n f.conn n w hn h

pub available-lt : (f : Flow) → IsFlow f → available f < 2 ^ 32
unfolding available available_of
available-lt f w = by_conn f.n f.conn w
  where
    by_conn :
        (m : ℕ) (c : Option ℕ) → IsFlow (record { n = m; conn = c }) → available_of m c < 2 ^ 32
    by_conn m none w = w.0
    by_conn m (some c) w = ground arith
